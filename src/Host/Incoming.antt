-- ===== src/Host/Incoming.antt =====
-- `handleIncomingPackets` of VideoHost/host.cpp and the handlers that VideoHost/main.cpp installs.
use lllsi.Base.{
  ℕ, ◌≡◌, [], ◌==◌, if◌then◌else◌, overwrite, Option, none, some, Result, ok, err, ◌>>=◌, or_fail,
  Map, lookup, emplace, lookup-emplace, lookup-nil, ◌∙◌, arith,
}
use lllsi.Base.Error.{null_pointer}
use lllsi.Packet.{Bytes, RtmpPacket, packet_type_event, packet_type_control, header_of}
use lllsi.Host.{PacketManager, remove_recent_packet}

-- The function pointers that `receiverThread` puts in the map, and what they point at. The body
-- of the event handler is commented out in the source.
pub data Handler : Type 0 where
  control_packet_handler event_packet_handler : Handler

pub call : Handler → RtmpPacket → PacketManager → PacketManager
call control_packet_handler packet m = remove_recent_packet m packet.sequence_number
call event_packet_handler packet m = m

pub handler_map : Map Handler
handler_map =
    emplace packet_type_event event_packet_handler
      (emplace packet_type_control control_packet_handler [])

-- One round with what `recvfrom` answered: nothing on an error. `pkt` is the buffer of the loop; what
-- is received is copied over its front. `funcMap[pkt.type]` puts a null pointer where there is no
-- handler, and that pointer is called.
pub handle_incoming :
    Map Handler → Option Bytes → Bytes × PacketManager → Result (Bytes × PacketManager)
handle_incoming handlers none (pkt, m) = ok (pkt, m)
handle_incoming handlers (some datagram) (pkt, m) =
    let pkt' = overwrite pkt 0 datagram in
    let header = header_of pkt' in
    or_fail (lookup header.type handlers) null_pointer >>= λ handler.
    ok (pkt', call handler header m)

lookup-handler_map :
    (type : ℕ)
    → lookup type handler_map ≡ (
        if type == packet_type_control
        then some control_packet_handler
        else if type == packet_type_event
        then some event_packet_handler
        else none)
unfolding handler_map
lookup-handler_map type =
    lookup-emplace packet_type_event type event_packet_handler
      (emplace packet_type_control control_packet_handler [])
    ∙ ground (
      arith,
      lookup-emplace packet_type_control type control_packet_handler [],
      lookup-nil {V = Handler} type,
    )

-- Whatever is received, in whatever state. If the buffer then shows the type CONTROL or EVENT the
-- host goes on: an acknowledgement takes the packet with its sequence number out of the map, and an
-- event changes nothing. Any other type, STREAM included, makes the host call a null pointer.
pub handle_incoming_lem :
    (datagram pkt : Bytes) (m : PacketManager)
    → let pkt' = overwrite pkt 0 datagram in
      handle_incoming handler_map (some datagram) (pkt, m) ≡ (
        if (header_of pkt').type == packet_type_control
        then ok (pkt', remove_recent_packet m (header_of pkt').sequence_number)
        else if (header_of pkt').type == packet_type_event
        then ok (pkt', m)
        else err null_pointer)
unfolding handle_incoming call
handle_incoming_lem datagram pkt m =
    ground (arith, lookup-handler_map (header_of (overwrite pkt 0 datagram)).type)
