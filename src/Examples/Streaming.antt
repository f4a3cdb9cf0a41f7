-- ===== src/Examples/Streaming.antt =====
-- A frame of two packets from VideoHost to VideoClient.
use mathlib.Core.List.Perm
use mathlib.Core.List.{Perm, Mem, mem-cons, not-mem-nil}
use mathlib.Core.Logic.Or
use native.Mathlib.Bridge.{le_prop}
use lllsi.Base.{
  ℕ, ◌≤◌, ◌<◌, ◌≡◌, refl, true, false, ◌⊎◌, List, [], ◌∷◌, ◌++◌, replicate, length, lookup, some,
  none, arith,
}
use lllsi.Packet.{Bytes, RtmpPacket, header_bytes, header_of}
use lllsi.Host.{PacketManager, StreamFrame, ack_packets}
use lllsi.Host.Fragments.{Fits}
use lllsi.Host.Sending.{SentWhole, send_frame_lem}
use lllsi.Host.Recent.{
  Event, sends, acks, passes, run, Forgotten, run-Kept, run-Filed, Filed, ack_packets_lem,
}
use lllsi.Packet.Codec.{IsHeader}
use lllsi.Viewer.{Viewer}
use lllsi.Delivery.{Delivered, deliver-send_frame}
use lllsi.Delivery.Order.{range_from}
use lllsi.Delivery.Lossy.{Scattered, deliver-Scattered, Torn, deliver-Torn}
use lllsi.Delivery.Ack.{Acknowledged, receive-handle_incoming}

abbrev pub two_packets : StreamFrame
two_packets = record { chunk_size = 4096; stream_type = 1; bytes = replicate 5000 7 }

abbrev pub idle_manager : PacketManager
idle_manager = record { recent_packets = []; ack_flag = true; sequence_number = 0; sent = [] }

abbrev pub idle_viewer : Viewer ℕ
idle_viewer = record {
  packet_queue = [];
  active_frames = [];
  frame_num_queue = [];
  latest_frame = 0;
  sent = [];
  bitmaps = [];
  load_frame = false;
}

pub two_packets-Fits : Fits two_packets
two_packets-Fits = record { chunk_size = refl; bytes = omega arith }

send_frame_lem_example : SentWhole two_packets 3 idle_manager
send_frame_lem_example = send_frame_lem two_packets two_packets-Fits 3 idle_manager (omega arith)

pub second_first : Perm (1 ∷ 0 ∷ []) (range_from 0 2)
unfolding range_from
second_first = Perm.swap 0 1 []

nothing_known : lookup 3 idle_viewer.active_frames ≡ none
unfolding lookup
nothing_known = refl

deliver-send_frame_example : Delivered two_packets 3 idle_manager (1 ∷ 0 ∷ []) (λ i. []) idle_viewer
deliver-send_frame_example =
    deliver-send_frame two_packets two_packets-Fits 3 idle_manager (1 ∷ 0 ∷ []) (λ i. [])
      idle_viewer (omega arith) (omega arith) (omega arith) second_first refl nothing_known

abbrev pub control_header : RtmpPacket
control_header = record {
  version = 1;
  type = 1;
  size = 38;
  sliding_window = 2;
  sequence_number = 5;
  flags = 1;
  rtmp_data = replicate 20 0;
}

pub control_header-IsHeader : IsHeader control_header
control_header-IsHeader = record {
  size = omega arith;
  sliding_window = omega arith;
  sequence_number = omega arith;
  rtmp_data = refl;
}

abbrev waiting : PacketManager
waiting = record {
  recent_packets = (5, header_bytes control_header ++ 8 ∷ 9 ∷ []) ∷ [];
  ack_flag = false;
  sequence_number = 6;
  sent = [];
}

waiting_packet : lookup 5 waiting.recent_packets ≡ some (header_bytes control_header ++ 8 ∷ 9 ∷ [])
unfolding lookup
waiting_packet = refl

abbrev history : List Event
history = passes ∷ sends control_header (1 ∷ []) true ∷ acks 7 ∷ passes ∷ []

ack_packets_lem_example :
    ((ack_packets waiting).sent ≡ (header_bytes control_header ++ 8 ∷ 9 ∷ []) ∷ [])
    × ((ack_packets waiting).recent_packets ≡ waiting.recent_packets)
    × ((ack_packets waiting).sequence_number ≡ 6)
    × (length (ack_packets waiting).recent_packets ≤ 200)
ack_packets_lem_example = ack_packets_lem waiting

run-Kept_example :
    (lookup 5 (run waiting history).recent_packets
      ≡ some (header_bytes control_header ++ 8 ∷ 9 ∷ []))
    ⊎ Forgotten 5 waiting history
run-Kept_example =
    run-Kept 5 (header_bytes control_header ++ 8 ∷ 9 ∷ []) waiting history waiting_packet

run-Filed_example : Filed (run waiting history).recent_packets
unfolding header_of header_bytes
run-Filed_example =
    run-Filed waiting history (tt, (control_header-IsHeader, (tt, (tt, tt)))) (refl, tt)

receive-handle_incoming_example :
    Acknowledged control_header (8 ∷ 9 ∷ []) [] (replicate 36 0) idle_viewer waiting
unfolding header_bytes
receive-handle_incoming_example =
    receive-handle_incoming control_header (8 ∷ 9 ∷ []) [] (replicate 36 0) idle_viewer waiting
      control_header-IsHeader (omega arith) refl

-- A STREAM packet stops the host.
abbrev stream_datagram : Bytes
stream_datagram = 1 ∷ 1 ∷ []

below_two : (a b : ℕ) → a < 2 → b < 2 → (i : ℕ) → Mem i (a ∷ b ∷ []) → i < 2
below_two a b ha hb i m =
    Or.elim le_prop (mem-cons.0 m) (λ e. omega arith)
      (λ r. Or.elim le_prop (mem-cons.0 r) (λ e. omega arith) (λ none. absurd (not-mem-nil none)))

deliver-Scattered_example : Scattered two_packets 3 idle_manager (1 ∷ 1 ∷ []) (λ i. []) idle_viewer
deliver-Scattered_example =
    deliver-Scattered two_packets two_packets-Fits 3 idle_manager (1 ∷ 1 ∷ []) (λ i. []) idle_viewer
      (omega arith) (omega arith) (below_two 1 1 (omega arith) (omega arith)) refl nothing_known

abbrev two_full : StreamFrame
two_full = record { chunk_size = 4096; stream_type = 1; bytes = replicate 8120 7 }

two_full-Fits : Fits two_full
two_full-Fits = record { chunk_size = refl; bytes = omega arith }

-- The first packet twice.
deliver-Torn_example : Torn two_full 3 (0 ∷ 0 ∷ []) (λ i. []) idle_manager 1 idle_viewer
deliver-Torn_example =
    deliver-Torn two_full two_full-Fits 3 idle_manager 2 1 (0 ∷ 0 ∷ []) (λ i. []) idle_viewer
      (omega arith) (omega arith) refl (omega arith) refl
      (below_two 0 0 (omega arith) (omega arith)) (omega arith) refl refl nothing_known
