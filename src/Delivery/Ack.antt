-- ===== src/Delivery/Ack.antt =====
-- An acknowledgement on its way back: VideoClient/main.cpp to VideoHost/host.cpp.
use lllsi.Base.{
  ℕ, ◌≤◌, ◌≡◌, refl, ap, ◌∙◌, [], ◌∷◌, ◌++◌, length, take, take_fill, overwrite, overwrite_whole,
  some, sym, append-nil, append_assoc, if◌then◌else◌, ◌==◌, lookup, lookup-erase, none, ok, arith,
  ◌-◌,
}
use lllsi.Packet.{Bytes, RtmpPacket, header_bytes, header_of, sizeof_rtmp_packet}
use lllsi.Packet.Codec.{IsHeader, header_of-header_bytes, length-header_bytes}
use lllsi.Host.{PacketManager, remove_recent_packet}
use lllsi.Host.Incoming.{handle_incoming, handler_map, handle_incoming_lem}
use lllsi.Viewer.{Viewer, packet_size, receive, ack_header}

ack_header-IsHeader :
    (header : RtmpPacket) → IsHeader header → IsHeader (ack_header header.sequence_number)
unfolding ack_header
ack_header-IsHeader header v = record {
  size = omega arith;
  sliding_window = omega arith;
  sequence_number = v.sequence_number;
  rtmp_data = refl;
}

-- The viewer keeps a datagram that fits its buffer, and answers it.
receive-header_bytes :
    {B : Type 0} (header : RtmpPacket) (payload junk : Bytes) (c : Viewer B)
    → IsHeader header
    → length (header_bytes header ++ payload) ≤ packet_size
    → (receive junk (some (header_bytes header ++ payload)) c).sent
      ≡ c.sent ++ header_bytes (ack_header header.sequence_number) ∷ []
unfolding receive
receive-header_bytes header payload junk c v h =
    let d = header_bytes header ++ payload in
    let read : header_of (d ++ take (packet_size - length d) junk) ≡ header =
      ap header_of (append_assoc (header_bytes header) payload _)
      ∙ header_of-header_bytes header _ v in
    rw (take_fill packet_size d junk h, read) refl

-- The viewer answers a datagram with a header and a payload by one packet. When the host reads it,
-- the sent packet with the header's sequence number is no longer waiting, and every other packet
-- waits as before.
abbrev pub Acknowledged :
    {B : Type 0} → RtmpPacket → (payload junk pkt : Bytes) → Viewer B → PacketManager → Type 0
Acknowledged header payload junk pkt c m =
    (ack : Bytes) × (m' : PacketManager) × ((receive junk (some (header_bytes header ++ payload))
        c).sent
      ≡ c.sent ++ ack ∷ [])
    × (handle_incoming handler_map (some ack) (pkt, m) ≡ ok (ack, m'))
    × ((k : ℕ)
        → lookup k m'.recent_packets
          ≡ (if header.sequence_number == k then none else lookup k m.recent_packets))

-- If the viewer receives a datagram that is a header with a payload and fits its buffer, then it
-- answers with one packet, and when the host reads that packet, with a buffer of the header's
-- size, the packet filed under the header's sequence number waits no longer, and every other waits
-- as before.
pub receive-handle_incoming :
    {B : Type 0} (header : RtmpPacket) (payload junk pkt : Bytes) (c : Viewer B) (m : PacketManager)
    → IsHeader header
    → length (header_bytes header ++ payload) ≤ packet_size
    → length pkt ≡ sizeof_rtmp_packet
    → Acknowledged header payload junk pkt c m
unfolding remove_recent_packet ack_header
receive-handle_incoming header payload junk pkt c m v h hp =
    let seq = header.sequence_number in
    let ack = header_bytes (ack_header seq) in
    let w = ack_header-IsHeader header v in
    let size = length-header_bytes (ack_header seq) w in
    let buffer : overwrite pkt 0 ack ≡ ack = overwrite_whole pkt ack (omega (arith, size)) in
    let read : header_of ack ≡ ack_header seq =
      ap header_of (sym (append-nil ack)) ∙ header_of-header_bytes (ack_header seq) [] w in
    (
      ack,
      remove_recent_packet m seq,
      receive-header_bytes header payload junk c v h,
      handle_incoming_lem ack pkt m ∙ rw (buffer, read) refl,
      λ k. lookup-erase seq k m.recent_packets,
    )
