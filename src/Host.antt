-- ===== src/Host.antt =====
-- The host's packet manager: VideoHost/host.h and VideoHost/host.cpp.
-- A datagram handed to `sendto` is appended to `sent`. The address it goes to, and the mutex that
-- guards `recentPackets`, are left out: each function below is one critical section or one send.
pub mod Fragments
pub mod Sending
pub mod Recent
pub mod Incoming
pub mod Setup
pub mod Casting
use lllsi.Base.{
  ℕ, zero, suc, ◌+◌, ◌-◌, ◌*◌, ◌/◌, ◌%◌, ◌^◌, min, Bool, true, false, List, [], ◌∷◌, ◌++◌, map, leb,
  ltb, ◌==◌, if◌then◌else◌, length, take, drop, Result, ok, err, Error, ◌>>=◌, ◌>>◌, guard, Map,
  emplace, erase,
}
use lllsi.Base.Error.{divide_by_zero, out_of_bounds}
use lllsi.Packet.{
  Bytes, word, dword, RtsmpPacket, RtmpPacket, packet_type_stream, flag_last_packet,
  sizeof_rtmp_packet, rtsmp_bytes, header_bytes,
}

abbrev pub recent_packets_size : ℕ
recent_packets_size = 200

abbrev pub packet_size : ℕ
packet_size = 4096

-- SIZE_T of the 64-bit build.
abbrev pub size_t : ℕ
size_t = 2 ^ 64

pub record PacketManager : Type 0 where
  pub recent_packets : Map Bytes
  pub ack_flag : Bool
  pub sequence_number : ℕ
  pub sent : List Bytes

unfoldable pub add_recent_packet : PacketManager → ℕ → Bytes → PacketManager
add_recent_packet m seq_num packet = record m {
  recent_packets = emplace seq_num packet m.recent_packets;
}

unfoldable pub remove_recent_packet : PacketManager → ℕ → PacketManager
remove_recent_packet m seq_num = record m { recent_packets = erase seq_num m.recent_packets }

pub send_packet : PacketManager → RtmpPacket → Bytes → Bool → PacketManager
unfolding add_recent_packet
send_packet m header payload save_packet =
    let packet = header_bytes header ++ payload in
    let m' : PacketManager = record m { sent = m.sent ++ packet ∷ [] } in
    if save_packet then add_recent_packet m' header.sequence_number packet else m'

-- What the stream answers in one round of `sendStream`: `getFrameSize`, `getStreamType` and the
-- bytes of `frontFrame`.
pub record StreamFrame : Type 0 where
  pub chunk_size : ℕ
  pub stream_type : ℕ
  pub bytes : Bytes

-- `const WORD payloadSize = chunkSize - sizeof(rtmp_packet)`.
abbrev pub payload_size : StreamFrame → ℕ
payload_size f = (f.chunk_size + (word - sizeof_rtmp_packet)) % word

abbrev pub total_packets : StreamFrame → ℕ
total_packets f =
    ((length f.bytes + (payload_size f + size_t - 1)) % size_t / payload_size f) % word

abbrev pub total_frame_size : StreamFrame → ℕ
total_frame_size f = length f.bytes % dword

abbrev pub data_offset : StreamFrame → ℕ → ℕ
data_offset f i = i * payload_size f

abbrev pub data_size : StreamFrame → ℕ → ℕ
data_size f i =
    min (payload_size f) ((total_frame_size f + (size_t - data_offset f i % size_t)) % size_t)

unfoldable pub fragment_header : StreamFrame → (frame_num sequence_number i : ℕ) → RtmpPacket
fragment_header f frame_num sequence_number i = record {
  version = 1;
  type = packet_type_stream;
  size = (data_size f i + sizeof_rtmp_packet) % word;
  sliding_window = total_frame_size f;
  sequence_number = sequence_number;
  flags = if i + 1 == total_packets f then flag_last_packet else 0;
  rtmp_data = rtsmp_bytes (record {
    stream_type = f.stream_type;
    frame_number = frame_num;
    offset = i;
    total_packets = total_packets f;
  });
}

-- One round of the loop over `i`. The payload is read from the frame's memory.
pub send_fragment : StreamFrame → (frame_num i : ℕ) → PacketManager → Result PacketManager
send_fragment f frame_num i m = do
  guard (leb (data_offset f i + data_size f i) (length f.bytes)) out_of_bounds
  let header = fragment_header f frame_num m.sequence_number i
  let counted : PacketManager = record m { sequence_number = (m.sequence_number + 1) % dword }
  let payload = take (data_size f i) (drop (data_offset f i) f.bytes)
  let sent_on = send_packet counted header payload true
  ok (record sent_on { ack_flag = false })

-- The loop with `rounds` rounds to go.
pub send_fragments : (rounds i : ℕ) → StreamFrame → ℕ → PacketManager → Result PacketManager
send_fragments zero i f frame_num m = ok m
send_fragments (suc rounds) i f frame_num m =
    send_fragment f frame_num i m >>= send_fragments rounds (i + 1) f frame_num

-- The body of the `while` of `sendStream`; the division by a payload size of 0 traps.
pub send_frame : StreamFrame → ℕ → PacketManager → Result PacketManager
send_frame f frame_num m = do
  guard (ltb 0 (payload_size f)) divide_by_zero
  send_fragments (total_packets f) 0 f frame_num m

-- `sendStream` over the frames that the stream yields until the program is switched off.
pub send_stream : List StreamFrame → ℕ → PacketManager → Result PacketManager
send_stream [] frame_num m = ok m
send_stream (f ∷ fs) frame_num m =
    send_frame f frame_num m >>= send_stream fs ((frame_num + 1) % dword)

-- One pass of `ackPackets` over the map: everything is sent again, then an overfull map is cleared.
resend : Map Bytes → PacketManager → PacketManager
resend [] m = m
resend ((seq_num, packet) ∷ rest) m =
    resend rest (record m { sent = m.sent ++ packet ∷ []; ack_flag = true })

pub ack_packets : PacketManager → PacketManager
unfolding resend
ack_packets m =
    let m' = resend m.recent_packets m in
    if ltb recent_packets_size (length m.recent_packets)
    then record m' { recent_packets = [] }
    else m'
