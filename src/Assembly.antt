-- ===== src/Assembly.antt =====
-- The library's own viewer: RDIBY/client.cpp PacketManager, FramePacketsStream, FrameBufferStream.
pub mod Bounds
pub mod Answers
use lllsi.Base.{
  ℕ, ◌+◌, ◌-◌, ◌*◌, ◌%◌, Bool, true, false, List, [], ◌∷◌, ◌++◌, leb, ◌==◌, if◌then◌else◌, length,
  take, replicate, overwrite, Option, none, some, Result, ok, err, ◌>>=◌, ◌>>◌, guard, or_fail, Map,
  lookup, assign, emplace, erase, is_empty,
}
use lllsi.Base.Error.{out_of_bounds, null_pointer, empty_queue}
use lllsi.Packet.{
  Bytes, word, dword, RtsmpPacket, RtmpPacket, packet_type_stream, packet_type_control,
  sizeof_rtmp_packet, sizeof_rtmp_data, header_bytes, header_of, rtsmp_of,
}
use lllsi.Viewer.{FrameBuffer, or_empty, open_frame, copy_payload}

pub record FramePacketStreamData : Type 0 where
  pub bytes : Bytes
  pub size : ℕ

-- The packets stream with the sent datagrams of its packet manager. `packets` is the queue in the
-- stream's container.
pub record FramePacketsStream : Type 0 where
  pub frame_size : ℕ
  pub packets : List FramePacketStreamData
  pub sent : List Bytes

unfoldable pub send_packet : RtmpPacket → Bytes → FramePacketsStream → FramePacketsStream
send_packet packet_header payload s = record s {
  sent = s.sent ++ (header_bytes packet_header ++ payload) ∷ [];
}

-- The acknowledgement has no flag.
unfoldable pub bare_ack : ℕ → RtmpPacket
bare_ack seq_num = record {
  version = 0;
  type = packet_type_control;
  size = 0;
  sliding_window = 0;
  sequence_number = seq_num;
  flags = 0;
  rtmp_data = replicate sizeof_rtmp_data 0;
}

unfoldable pub ack_packet : ℕ → FramePacketsStream → FramePacketsStream
unfolding bare_ack
ack_packet seq_num s = record s { sent = s.sent ++ header_bytes (bare_ack seq_num) ∷ [] }

-- The containers: whichever end is named, a push goes to the back and a pop takes the front.
unfoldable pub push_data : FramePacketStreamData → FramePacketsStream → FramePacketsStream
push_data item s = record s { packets = s.packets ++ item ∷ [] }

-- It waits on an empty container.
unfoldable pub pop_data : FramePacketsStream → Option (FramePacketStreamData × FramePacketsStream)
pop_data s = elim s.packets [ [] ↦ none | item ∷ rest ↦ some (item, record s { packets = rest }) ]

-- One round of `FramePacketsStream::initStream`, with what `recvfrom` answered and what was in the
-- new buffer before.
unfoldable pub receive_packet :
    (junk : Bytes) → Option Bytes → FramePacketsStream → Result FramePacketsStream
unfolding ack_packet push_data
receive_packet junk none s = ok s
receive_packet junk (some datagram) s = do
  guard (leb sizeof_rtmp_packet s.frame_size) out_of_bounds
  let packet = take s.frame_size (datagram ++ junk)
  let acked = ack_packet (header_of packet).sequence_number s
  ok (push_data (record { bytes = packet; size = length datagram }) acked)

abbrev pub read_into : Bytes → Option Bytes → Bytes
read_into pkt none = pkt
read_into pkt (some datagram) = overwrite pkt 0 datagram

-- One round of `handleIncomingPackets`. `recvDataFrom` returns a DWORD, which is never negative, so
-- after an error the last packet is handled again.
unfoldable pub handle_next :
    {S : Type 0} → Map (RtmpPacket → S → S) → Option Bytes → Bytes × S → Result (Bytes × S)
handle_next func_map received (pkt, s) =
    let pkt' = read_into pkt received in
    or_fail (lookup (header_of pkt').type func_map) null_pointer >>= λ handler.
    ok (pkt', handler (header_of pkt') s)

-- The counters and the copy of one round of `FrameBufferStream::initStream`: the packet's number is
-- multiplied by the size of a whole packet.
unfoldable pub add_to_buffer :
    (frame_size : ℕ) → RtmpPacket → RtsmpPacket → Bytes → FrameBuffer → Result FrameBuffer
unfolding copy_payload
add_to_buffer frame_size pkt rts packet fb = do
  guard (leb sizeof_rtmp_packet pkt.size) out_of_bounds
  let counted : FrameBuffer = record fb {
    total_packets = (fb.total_packets + 1) % dword;
    total_size = (fb.total_size + (pkt.size - sizeof_rtmp_packet)) % dword;
  }
  copy_payload packet (rts.offset * frame_size) (pkt.size - sizeof_rtmp_packet) counted

-- The frames that are being put together; a missing one is made.
abbrev pub frame_data : Map FrameBuffer → ℕ → FrameBuffer
frame_data active_frames frame_num = or_empty (lookup frame_num active_frames)

-- One round with the packet that `frontFrame` gave. A full frame is not announced.
unfoldable pub assemble :
    (frame_size : ℕ) → FramePacketStreamData → Map FrameBuffer → Result (Map FrameBuffer)
unfolding add_to_buffer
assemble frame_size packet active_frames =
    let pkt = header_of packet.bytes in
    if pkt.type == packet_type_stream
    then (let rts = rtsmp_of pkt.rtmp_data in
        let opened =
          open_frame pkt.sliding_window rts.frame_number
            (frame_data active_frames rts.frame_number) in
        add_to_buffer frame_size pkt rts packet.bytes opened >>= λ fb.
        ok (assign rts.frame_number fb active_frames))
    else ok active_frames

-- `FrameBufferStreamContainer`.
unfoldable pub push_frame : ℕ → FrameBuffer → Map FrameBuffer → Map FrameBuffer
push_frame key value active_frames = emplace key value active_frames

unfoldable pub remove_frame : ℕ → Map FrameBuffer → Map FrameBuffer
remove_frame key active_frames = erase key active_frames

unfoldable pub clear_packets : FramePacketsStream → FramePacketsStream
clear_packets s = record s { packets = [] }

unfoldable pub clear_frames : Map FrameBuffer → Map FrameBuffer
clear_frames active_frames = []

-- The settings of a `Stream`: type and frame size start at -1, as a CHAR and as a WORD.
pub record StreamSettings : Type 0 where
  pub stream_status : Bool
  pub stream_type : ℕ
  pub frame_size : ℕ

abbrev pub new_stream : StreamSettings
new_stream = record { stream_status = false; stream_type = 255; frame_size = 65535 }

unfoldable pub set_stream_type : ℕ → StreamSettings → StreamSettings
set_stream_type stream_type s = record s { stream_type = stream_type }

unfoldable pub set_frame_size : ℕ → StreamSettings → StreamSettings
set_frame_size frame_size s = record s { frame_size = frame_size % word }

unfoldable pub stop_stream : StreamSettings → StreamSettings
stop_stream s = record s { stream_status = false }

unfoldable pub continue_stream : StreamSettings → StreamSettings
continue_stream s = record s { stream_status = true }
