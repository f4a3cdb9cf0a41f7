-- ===== src/Assembly/Answers.antt =====
-- RDIBY/client.cpp `FramePacketsStream::initStream`, `ackPacket`, `handleIncomingPackets`.
use lllsi.Base.{
  ℕ, zero, suc, ◌≡◌, ◌≤◌, refl, ap, ◌∙◌, [], ◌∷◌, ◌++◌, length, take, take_fill, leb, true,
  overwrite, overwrite_whole, some, none, Map, lookup, lookup-erase, sym, append-nil, append_assoc,
  if◌then◌else◌, ◌==◌, ok, arith, Result, ◌>>=◌, bind_eq, or_fail, Option, ◌-◌,
}
use lllsi.Base.Error.{null_pointer}
use lllsi.Packet.{Bytes, RtmpPacket, header_bytes, header_of, sizeof_rtmp_packet}
use lllsi.Packet.Codec.{IsHeader, header_of-header_bytes, length-header_bytes}
use lllsi.Host.{PacketManager, remove_recent_packet}
use lllsi.Host.Incoming.{handle_incoming, handler_map, handle_incoming_lem}
use lllsi.Assembly.{FramePacketsStream, receive_packet, bare_ack, handle_next}

bare_ack-IsHeader :
    (header : RtmpPacket) → IsHeader header → IsHeader (bare_ack header.sequence_number)
unfolding bare_ack
bare_ack-IsHeader header v = record {
  size = omega arith;
  sliding_window = omega arith;
  sequence_number = v.sequence_number;
  rtmp_data = refl;
}

abbrev pub Queued :
    RtmpPacket → (payload junk pkt : Bytes) → FramePacketsStream → PacketManager → Type 0
Queued header payload junk pkt s m =
    (packet ack : Bytes) × (t : FramePacketsStream) × (m' : PacketManager) × (receive_packet junk
        (some (header_bytes header ++ payload)) s
      ≡ ok t)
    × (t.packets
        ≡ s.packets
          ++ (record { bytes = packet; size = length (header_bytes header ++ payload) }) ∷ [])
    × (header_of packet ≡ header)
    × (t.sent ≡ s.sent ++ ack ∷ [])
    × (handle_incoming handler_map (some ack) (pkt, m) ≡ ok (ack, m'))
    × ((k : ℕ)
        → lookup k m'.recent_packets
          ≡ (if header.sequence_number == k then none else lookup k m.recent_packets))

-- If the packets stream receives a datagram that is a header with a payload and fits its frame
-- size, then it queues the packet behind the others, with its length, and sends one answer. When the
-- host reads the answer, with a buffer of the header's size, the packet filed under the header's
-- sequence number waits no longer, and every other waits as before, although the answer has no
-- FLAG_ACK.
pub receive_packet_lem :
    (header : RtmpPacket) (payload junk pkt : Bytes) (s : FramePacketsStream) (m : PacketManager)
    → IsHeader header
    → length (header_bytes header ++ payload) ≤ s.frame_size
    → sizeof_rtmp_packet ≤ s.frame_size
    → length pkt ≡ sizeof_rtmp_packet
    → Queued header payload junk pkt s m
unfolding receive_packet remove_recent_packet bare_ack
receive_packet_lem header payload junk pkt s m v h room hp =
    let d = header_bytes header ++ payload in
    let packet = take s.frame_size (d ++ junk) in
    let seq = header.sequence_number in
    let ack = header_bytes (bare_ack seq) in
    let w = bare_ack-IsHeader header v in
    let size = length-header_bytes (bare_ack seq) w in
    let buffer : overwrite pkt 0 ack ≡ ack = overwrite_whole pkt ack (omega (arith, size)) in
    let heard : header_of ack ≡ bare_ack seq =
      ap header_of (sym (append-nil ack)) ∙ header_of-header_bytes (bare_ack seq) [] w in
    let read : header_of packet ≡ header =
      ap header_of (
        take_fill s.frame_size d junk h
        ∙ append_assoc (header_bytes header) payload (take (s.frame_size - length d) junk))
      ∙ header_of-header_bytes header (payload ++ take (s.frame_size - length d) junk) v in
    let roomy : leb sizeof_rtmp_packet s.frame_size ≡ true = ground arith in
    let t : FramePacketsStream = record s {
      packets = s.packets ++ (record { bytes = packet; size = length d }) ∷ [];
      sent = s.sent ++ ack ∷ [];
    } in
    (
      packet,
      ack,
      t,
      remove_recent_packet m seq,
      rw (roomy, read) refl,
      refl,
      read,
      refl,
      handle_incoming_lem ack pkt m ∙ rw (buffer, heard) refl,
      λ k. lookup-erase seq k m.recent_packets,
    )

module _ {S : Type 0} (func_map : Map (RtmpPacket → S → S)) where
  -- `n` rounds whose receive fails.
  abbrev pub fail_times : ℕ → Bytes × S → Result (Bytes × S)
  fail_times zero state = ok state
  fail_times (suc n) state = handle_next func_map none state >>= fail_times n

  abbrev pub apply_times : ℕ → (S → S) → S → S
  apply_times zero handler s = s
  apply_times (suc n) handler s = apply_times n handler (handler s)

  -- A failing receive is not noticed: with each of `n` failures in a row the handler of the packet
  -- that is still in the buffer runs again on it.
  pub fail_times_lem :
      (n : ℕ) (pkt : Bytes) (s : S) (handler : RtmpPacket → S → S)
      → lookup (header_of pkt).type func_map ≡ some handler
      → fail_times n (pkt, s) ≡ ok (pkt, apply_times n (handler (header_of pkt)) s)
  unfolding handle_next
  fail_times_lem zero pkt s handler known = refl
  fail_times_lem (suc n) pkt s handler known =
      bind_eq _
        (bind_eq _ (ap (λ (o : Option (RtmpPacket → S → S)). or_fail o null_pointer) known) refl)
        (fail_times_lem n pkt (handler (header_of pkt) s) handler known)
