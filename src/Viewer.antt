-- ===== src/Viewer.antt =====
-- The viewer's packet pipeline: the receiver, consumer and decoder threads of VideoClient/main.cpp.
-- Each function is one round of a thread's loop.
pub mod Display
pub mod Drawing
pub mod Released
use lllsi.Base.{
  ℕ, ◌+◌, ◌-◌, ◌*◌, ◌%◌, Bool, List, [], ◌∷◌, ◌++◌, leb, ◌==◌, if◌then◌else◌, length, take, drop,
  replicate, is_empty, overwrite, Option, none, some, Result, ok, ◌>>=◌, ◌>>◌, guard, Map, lookup,
  assign,
}
use lllsi.Base.Error.{out_of_bounds}
use lllsi.Packet.{
  Bytes, dword, RtsmpPacket, RtmpPacket, packet_type_stream, packet_type_control, flag_ack,
  sizeof_rtmp_packet, sizeof_rtmp_data, header_bytes, header_of, rtsmp_of,
}

abbrev pub packet_size : ℕ
packet_size = 4096

-- `PAYLOAD_SIZE`.
abbrev pub payload_size : ℕ
payload_size = 4060

pub record FrameBuffer : Type 0 where
  pub chunks : Bytes
  pub total_size : ℕ
  pub expected_size : ℕ
  pub frame_number : ℕ
  pub total_packets : ℕ

-- `total_chunks` of the source is never read or written.
abbrev pub empty_frame : FrameBuffer
empty_frame = record {
  chunks = [];
  total_size = 0;
  expected_size = 0;
  frame_number = 0;
  total_packets = 0;
}

-- The globals that the threads share. `sent` holds the acknowledgements, in order. `B` is the type
-- of decoded bitmaps; `bitmaps` is `frameNumBmpQueue`.
pub record Viewer (B : Type 0) : Type 0 where
  pub packet_queue : List Bytes
  pub active_frames : Map FrameBuffer
  pub frame_num_queue : List ℕ
  pub latest_frame : ℕ
  pub sent : List Bytes
  pub bitmaps : List (ℕ × B)
  pub load_frame : Bool

unfoldable pub ack_header : ℕ → RtmpPacket
ack_header sequence_number = record {
  version = 0;
  type = packet_type_control;
  size = 0;
  sliding_window = 0;
  sequence_number = sequence_number;
  flags = flag_ack;
  rtmp_data = replicate sizeof_rtmp_data 0;
}

module _ {B : Type 0} where
  -- `receiverThread`, with what `recvfrom` answered: nothing on an error. A new buffer holds what
  -- was in that memory, `junk`, behind what was received.
  unfoldable pub receive : (junk : Bytes) → Option Bytes → Viewer B → Viewer B
  receive junk none c = c
  receive junk (some datagram) c =
      let packet = take packet_size (datagram ++ junk) in
      record c {
        packet_queue = c.packet_queue ++ packet ∷ [];
        sent = c.sent ++ header_bytes (ack_header (header_of packet).sequence_number) ∷ [];
      }

-- `activeFrames[frameNum]`.
abbrev pub or_empty : Option FrameBuffer → FrameBuffer
or_empty none = empty_frame
or_empty (some fb) = fb

abbrev pub active_frame : Map FrameBuffer → ℕ → FrameBuffer
active_frame m frame_num = or_empty (lookup frame_num m)

-- The first packet of a frame sizes its buffer.
unfoldable pub open_frame : ℕ → ℕ → FrameBuffer → FrameBuffer
open_frame expected_size frame_num fb =
    if is_empty fb.chunks
    then record fb {
      expected_size = expected_size;
      frame_number = frame_num;
      chunks = replicate expected_size 0;
    }
    else fb

-- The copy into `chunks` of `count` bytes behind the header, to byte `offset`. `memcpy_s` is given
-- `count` as the room at the target, so what keeps the copy inside is the caller alone.
unfoldable pub copy_payload : (packet : Bytes) (offset count : ℕ) → FrameBuffer → Result FrameBuffer
copy_payload packet offset count fb = do
  guard (leb (offset + count) (length fb.chunks)) out_of_bounds
  guard (leb (sizeof_rtmp_packet + count) (length packet)) out_of_bounds
  let payload = take count (drop sizeof_rtmp_packet packet)
  ok (record fb { chunks = overwrite fb.chunks offset payload })

-- The counters, and the copy. A `size` below the header's makes the `size_t` count wrap.
unfoldable pub add_packet : RtmpPacket → RtsmpPacket → Bytes → FrameBuffer → Result FrameBuffer
unfolding copy_payload
add_packet pkt rts packet fb = do
  guard (leb sizeof_rtmp_packet pkt.size) out_of_bounds
  let counted : FrameBuffer = record fb {
    total_packets = (fb.total_packets + 1) % dword;
    total_size = (fb.total_size + (pkt.size - sizeof_rtmp_packet)) % dword;
  }
  copy_payload packet (rts.offset * payload_size) (pkt.size - sizeof_rtmp_packet) counted

module _ {B : Type 0} where
  -- The body of `consumerThread` for a packet that it took off `packetQueue`.
  unfoldable pub consume_stream : RtmpPacket → Bytes → Viewer B → Result (Viewer B)
  consume_stream pkt packet c = do
    let rts = rtsmp_of pkt.rtmp_data
    let frame_num = rts.frame_number
    let fb = active_frame c.active_frames frame_num
    let opened = open_frame pkt.sliding_window frame_num fb
    fb' ← add_packet pkt rts packet opened
    ok (record c {
      active_frames = assign frame_num fb' c.active_frames;
      latest_frame = if is_empty fb.chunks then frame_num else c.latest_frame;
      frame_num_queue =
          if fb'.total_size == fb'.expected_size
          then c.frame_num_queue ++ frame_num ∷ []
          else c.frame_num_queue;
    })

  unfoldable pub consume_packet : Bytes → Viewer B → Result (Viewer B)
  unfolding consume_stream
  consume_packet packet c =
      if (header_of packet).type == packet_type_stream
      then consume_stream (header_of packet) packet c
      else ok c

  -- `consumerThread`, once round its loop; `isEmpty` is tested first.
  unfoldable pub consume : Viewer B → Result (Viewer B)
  unfolding consume_packet
  consume c = elim c.packet_queue [
    | [] ↦ ok c
    | packet ∷ rest ↦ consume_packet packet (record c { packet_queue = rest })
  ]
