-- ===== src/Assembly/Bounds.antt =====
-- RDIBY/client.cpp `FrameBufferStream::initStream` on the packets of VideoHost.
use lllsi.Base.{
  sym, append-nil, drop_past, take-append-drop, overwrite_whole, ℕ, ◌+◌, ◌-◌, ◌*◌, ◌%◌, ◌≤◌, ◌<◌,
  ◌≡◌, refl, ap, ◌∙◌, ◌++◌, leb, true, false, length, take, drop, overwrite, Map, ok, err, assign,
  length-append, arith, lookup, none, replicate, length-replicate,
}
use lllsi.Base.Error.{out_of_bounds}
use lllsi.Packet.{
  Bytes, dword, packet_type_stream, sizeof_rtmp_packet, RtmpPacket, RtsmpPacket, header_of,
  rtsmp_of,
}
use lllsi.Host.{StreamFrame, total_packets, fragment_header}
use lllsi.Host.Fragments.{
  payload_bytes, Fits, chunk_size_of, chunk, fragment, data_offset-lt, total_packets-Fits,
}
use lllsi.Viewer.{FrameBuffer, open_frame, or_empty, empty_frame}
use lllsi.Delivery.Buffer.{
  payload-fragment, header_of-fragment, rtsmp_of-fragment, size-fragment, length-fragment,
}
use lllsi.Assembly.{FramePacketStreamData, frame_data, add_to_buffer, assemble}

-- A packet whose payload would not fit behind its place is copied past the buffer's end.
add_to_buffer-out_of_bounds :
    (frame_size : ℕ) (pkt : RtmpPacket) (rts : RtsmpPacket) (packet : Bytes) (fb : FrameBuffer)
    (c i : ℕ)
    → pkt.size ≡ c + sizeof_rtmp_packet
    → rts.offset ≡ i
    → length fb.chunks < i * frame_size + c
    → add_to_buffer frame_size pkt rts packet fb ≡ err out_of_bounds
unfolding add_to_buffer
add_to_buffer-out_of_bounds frame_size pkt rts packet fb c i hc hi over =
    let sized : leb sizeof_rtmp_packet pkt.size ≡ true = ground arith in
    let count : pkt.size - sizeof_rtmp_packet ≡ c = omega arith in
    let full : leb (i * frame_size + c) (length fb.chunks) ≡ false = ground arith in
    rw (sized, count, hi, full) refl

assemble-err :
    (frame_size : ℕ) (packet : FramePacketStreamData) (frames : Map FrameBuffer) (pkt : RtmpPacket)
    (frame_num : ℕ)
    → header_of packet.bytes ≡ pkt
    → pkt.type ≡ packet_type_stream
    → (rtsmp_of pkt.rtmp_data).frame_number ≡ frame_num
    → add_to_buffer frame_size pkt
        (rtsmp_of pkt.rtmp_data)
        packet.bytes
        (open_frame pkt.sliding_window frame_num (frame_data frames frame_num))
      ≡ err out_of_bounds
    → assemble frame_size packet frames ≡ err out_of_bounds
unfolding assemble
assemble-err frame_size packet frames pkt frame_num eh et ef failed = simp (eh, et, ef, failed)

-- The library multiplies a packet's number by the size of a whole packet, 4096, where the host cut
-- the frame into pieces of 4060 bytes. So the last packet of every frame of more than one packet is
-- copied past the end of the frame's buffer, whenever it comes.
pub assemble_last :
    (f : StreamFrame) (frame_num s i : ℕ) (junk : Bytes) (size : ℕ) (frames : Map FrameBuffer)
    → Fits f
    → frame_num < dword
    → s < dword
    → i + 1 ≡ total_packets f
    → 1 ≤ i
    → length (open_frame (length f.bytes) frame_num (frame_data frames frame_num)).chunks
      ≡ length f.bytes
    → assemble f.chunk_size
        (record { bytes = fragment f frame_num s i ++ junk; size = size })
        frames
      ≡ err out_of_bounds
unfolding fragment_header
assemble_last f frame_num s i junk size frames v hf hs last several sized =
    let header = fragment_header f frame_num s i in
    let packet = fragment f frame_num s i ++ junk in
    let window : header.sliding_window ≡ length f.bytes = omega (arith, v.bytes) in
    assemble-err f.chunk_size (record { bytes = packet; size = size }) frames header frame_num
      (header_of-fragment f v frame_num hf s i junk hs (omega arith)) refl
      (rtsmp_of-fragment f v frame_num hf s i (omega arith)).0
      (ap
          (λ (k : ℕ).
            add_to_buffer f.chunk_size header (rtsmp_of header.rtmp_data) packet
              (open_frame k frame_num (frame_data frames frame_num)))
          window
        ∙ add_to_buffer-out_of_bounds f.chunk_size header (rtsmp_of header.rtmp_data) packet
            (open_frame (length f.bytes) frame_num (frame_data frames frame_num))
            (chunk_size_of (length f.bytes) i) i (size-fragment f v frame_num hf s i (omega arith))
            (rtsmp_of-fragment f v frame_num hf s i (omega arith)).1
            (omega (
              arith,
              ap (λ (k : ℕ). i * k) v.chunk_size,
              sized,
              data_offset-lt f v i (omega arith),
              total_packets-Fits f v,
            )))

add_to_buffer-ok :
    (frame_size : ℕ) (pkt : RtmpPacket) (rts : RtsmpPacket) (packet : Bytes) (fb : FrameBuffer)
    (c : ℕ)
    → pkt.size ≡ c + sizeof_rtmp_packet
    → rts.offset ≡ 0
    → c ≤ length fb.chunks
    → sizeof_rtmp_packet + c ≤ length packet
    → add_to_buffer frame_size pkt rts packet fb
      ≡ ok (record fb {
        chunks = overwrite fb.chunks 0 (take c (drop sizeof_rtmp_packet packet));
        total_size = (fb.total_size + c) % dword;
        total_packets = (fb.total_packets + 1) % dword;
      })
unfolding add_to_buffer
add_to_buffer-ok frame_size pkt rts packet fb c hc hi inside whole =
    let sized : leb sizeof_rtmp_packet pkt.size ≡ true = ground arith in
    let count : pkt.size - sizeof_rtmp_packet ≡ c = omega arith in
    let origin : 0 * frame_size ≡ 0 = omega arith in
    let room : leb (0 + c) (length fb.chunks) ≡ true = ground arith in
    let read : leb (sizeof_rtmp_packet + c) (length packet) ≡ true = ground arith in
    rw (sized, count, hi, origin, room, read) refl

assemble-ok :
    (frame_size : ℕ) (packet : FramePacketStreamData) (frames : Map FrameBuffer) (pkt : RtmpPacket)
    (frame_num : ℕ) (fb : FrameBuffer)
    → header_of packet.bytes ≡ pkt
    → pkt.type ≡ packet_type_stream
    → (rtsmp_of pkt.rtmp_data).frame_number ≡ frame_num
    → add_to_buffer frame_size pkt
        (rtsmp_of pkt.rtmp_data)
        packet.bytes
        (open_frame pkt.sliding_window frame_num (frame_data frames frame_num))
      ≡ ok fb
    → assemble frame_size packet frames ≡ ok (assign frame_num fb frames)
unfolding assemble
assemble-ok frame_size packet frames pkt frame_num fb eh et ef added = simp (eh, et, ef, added)

abbrev pub Assembled : (f : StreamFrame) → (frame_num s : ℕ) → Bytes → ℕ → Map FrameBuffer → Type 0
Assembled f frame_num s junk size frames =
    (fb : FrameBuffer) × (assemble f.chunk_size
        (record { bytes = fragment f frame_num s 0 ++ junk; size = size }) frames
      ≡ ok (assign frame_num fb frames))
    × (fb.chunks ≡ f.bytes)
    × (fb.total_size ≡ fb.expected_size)

-- A frame that fits one packet, at least one byte long, is put together right: its number is 0, so
-- it does not matter what it is multiplied by.
pub assemble_single :
    (f : StreamFrame) (frame_num s : ℕ) (junk : Bytes) (size : ℕ) (frames : Map FrameBuffer)
    → Fits f
    → frame_num < dword
    → s < dword
    → 0 < length f.bytes
    → length f.bytes ≤ payload_bytes
    → lookup frame_num frames ≡ none
    → Assembled f frame_num s junk size frames
unfolding fragment_header open_frame
assemble_single f frame_num s junk size frames v hf hs some_bytes single fresh =
    let L = length f.bytes in
    let header = fragment_header f frame_num s 0 in
    let packet = fragment f frame_num s 0 ++ junk in
    let first : 0 < total_packets f = omega (arith, total_packets-Fits f v) in
    let c = chunk_size_of L 0 in
    let all : c ≡ L = omega arith in
    let window : header.sliding_window ≡ L = omega (arith, v.bytes) in
    let fresh_data : frame_data frames frame_num ≡ empty_frame = ap or_empty fresh in
    let fb : FrameBuffer = open_frame L frame_num empty_frame in
    let full : FrameBuffer = record fb {
      chunks = overwrite fb.chunks 0 (take c (drop sizeof_rtmp_packet packet));
      total_size = (fb.total_size + c) % dword;
      total_packets = (fb.total_packets + 1) % dword;
    } in
    let take_whole : chunk f.bytes 0 ≡ f.bytes =
      ap (λ (k : ℕ). take k f.bytes) all
      ∙ sym (append-nil (take L f.bytes))
      ∙ ap (λ (t : Bytes). take L f.bytes ++ t) (sym (drop_past L f.bytes (omega arith)))
      ∙ take-append-drop L f.bytes in
    (
      full,
      assemble-ok f.chunk_size (record { bytes = packet; size = size }) frames header frame_num full
          (header_of-fragment f v frame_num hf s 0 junk hs first) refl
          (rtsmp_of-fragment f v frame_num hf s 0 first).0
          (ap
              (λ (k : ℕ).
                add_to_buffer f.chunk_size header (rtsmp_of header.rtmp_data) packet
                  (open_frame k frame_num (frame_data frames frame_num)))
              window
            ∙ ap
                (λ (b : FrameBuffer).
                  add_to_buffer f.chunk_size header (rtsmp_of header.rtmp_data) packet
                    (open_frame L frame_num b))
                fresh_data
            ∙ add_to_buffer-ok f.chunk_size header (rtsmp_of header.rtmp_data) packet fb c
                (size-fragment f v frame_num hf s 0 first)
                (rtsmp_of-fragment f v frame_num hf s 0 first).1
                (omega (arith, length-replicate {A = ℕ} L 0))
                (omega (
                  arith,
                  length-append (fragment f frame_num s 0) junk,
                  length-fragment f v frame_num hf s 0 hs first,
                ))),
      ap (overwrite (replicate L 0) 0)
            (payload-fragment f v frame_num hf s 0 junk hs first ∙ take_whole)
          ∙ overwrite_whole (replicate L 0) f.bytes (length-replicate {A = ℕ} L 0),
      omega (arith, v.bytes),
    )
