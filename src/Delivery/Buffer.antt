-- ===== src/Delivery/Buffer.antt =====
-- One packet of a frame copied into the buffer that VideoClient/main.cpp collects the frame in.
use lllsi.Base.{
  ℕ, ◌+◌, ◌-◌, ◌*◌, ◌%◌, ◌≤◌, ◌<◌, ◌≡◌, refl, ap, ◌∙◌, ◌⊎◌, inl, inr, true, ◌++◌, leb, Bool-cases,
  length, take, drop, take-append, drop-append, append_assoc, get_elem?, overwrite, get_elem?-take,
  get_elem?-drop, get_elem?-overwrite_in, get_elem?-overwrite_out, length-append, ok, arith,
}
use lllsi.Packet.{
  Bytes, dword, sizeof_rtmp_packet, rtsmp_of, header_bytes, header_of, RtmpPacket, RtsmpPacket,
}
use lllsi.Packet.Codec.{header_of-header_bytes, length-header_bytes, rtsmp_of-rtsmp_bytes}
use lllsi.Host.{StreamFrame, total_packets, fragment_header}
use lllsi.Host.Fragments.{
  payload_bytes, Fits, chunk_size_of, chunk, fragment, length-chunk, data_size-Fits, data_offset-lt,
  fragment_header-IsHeader,
}
use lllsi.Viewer.{FrameBuffer, payload_size, add_packet}

-- At byte `j` the buffer holds what the frame holds.
abbrev pub Agrees : StreamFrame → FrameBuffer → ℕ → Type 0
Agrees f fb j = get_elem? fb.chunks j ≡ get_elem? f.bytes j

-- The buffer after chunk `i` of the frame was copied in.
abbrev pub with_chunk : StreamFrame → ℕ → FrameBuffer → FrameBuffer
with_chunk f i fb = record fb {
  chunks = overwrite fb.chunks (i * payload_bytes) (chunk f.bytes i);
  total_size = (fb.total_size + chunk_size_of (length f.bytes) i) % dword;
  total_packets = (fb.total_packets + 1) % dword;
}

-- A packet whose sizes are in order is added, and its payload copied.
add_packet-ok :
    (pkt : RtmpPacket) (rts : RtsmpPacket) (packet : Bytes) (fb : FrameBuffer) (c o : ℕ)
    → pkt.size ≡ c + sizeof_rtmp_packet
    → rts.offset * payload_size ≡ o
    → o + c ≤ length fb.chunks
    → sizeof_rtmp_packet + c ≤ length packet
    → add_packet pkt rts packet fb
      ≡ ok (record fb {
        chunks = overwrite fb.chunks o (take c (drop sizeof_rtmp_packet packet));
        total_size = (fb.total_size + c) % dword;
        total_packets = (fb.total_packets + 1) % dword;
      })
unfolding add_packet
add_packet-ok pkt rts packet fb c o hc ho inside whole =
    let sized : leb sizeof_rtmp_packet pkt.size ≡ true = ground arith in
    let count : pkt.size - sizeof_rtmp_packet ≡ c = omega arith in
    let room : leb (o + c) (length fb.chunks) ≡ true = ground arith in
    let read : leb (sizeof_rtmp_packet + c) (length packet) ≡ true = ground arith in
    rw (sized, count, ho, room, read) refl

module _ (f : StreamFrame) (v : Fits f) (frame_num : ℕ) (hf : frame_num < dword) where
  pub header_of-fragment :
      (s i : ℕ) (junk : Bytes)
      → s < dword
      → i < total_packets f
      → header_of (fragment f frame_num s i ++ junk) ≡ fragment_header f frame_num s i
  unfolding fragment
  header_of-fragment s i junk hs h =
      ap header_of
        (append_assoc (header_bytes (fragment_header f frame_num s i)) (chunk f.bytes i) junk)
      ∙ header_of-header_bytes (fragment_header f frame_num s i) (chunk f.bytes i ++ junk)
          (fragment_header-IsHeader f v frame_num s i hs h)

  -- The offset in the packet's header is its number.
  pub rtsmp_of-fragment :
      (s i : ℕ)
      → i < total_packets f
      → let rts = rtsmp_of (fragment_header f frame_num s i).rtmp_data in
        (rts.frame_number ≡ frame_num) × (rts.offset ≡ i)
  unfolding fragment_header
  rtsmp_of-fragment s i h =
      let e =
        rtsmp_of-rtsmp_bytes
          (record {
            stream_type = f.stream_type;
            frame_number = frame_num;
            offset = i;
            total_packets = total_packets f;
          })
          (record { frame_number = hf; offset = omega arith; total_packets = omega arith }) in
      (ap (λ (r : RtsmpPacket). r.frame_number) e, ap (λ (r : RtsmpPacket). r.offset) e)

  pub payload-fragment :
      (s i : ℕ) (junk : Bytes)
      → s < dword
      → i < total_packets f
      → take
          (chunk_size_of (length f.bytes) i)
          (drop sizeof_rtmp_packet (fragment f frame_num s i ++ junk))
        ≡ chunk f.bytes i
  unfolding fragment
  payload-fragment s i junk hs h =
      ap (λ (b : Bytes). take (chunk_size_of (length f.bytes) i) (drop sizeof_rtmp_packet b))
        (append_assoc (header_bytes (fragment_header f frame_num s i)) (chunk f.bytes i) junk)
      ∙ ap (take (chunk_size_of (length f.bytes) i)) (
          drop-append sizeof_rtmp_packet (header_bytes (fragment_header f frame_num s i))
            (chunk f.bytes i ++ junk)
            (length-header_bytes _ (fragment_header-IsHeader f v frame_num s i hs h)))
      ∙ take-append (chunk_size_of (length f.bytes) i) (chunk f.bytes i) junk (length-chunk f v i)

  pub size-fragment :
      (s i : ℕ)
      → i < total_packets f
      → (fragment_header f frame_num s i).size
        ≡ chunk_size_of (length f.bytes) i + sizeof_rtmp_packet
  unfolding fragment_header
  size-fragment s i h = rw (data_size-Fits f v i h) (omega arith)

  pub length-fragment :
      (s i : ℕ)
      → s < dword
      → i < total_packets f
      → length (fragment f frame_num s i) ≡ sizeof_rtmp_packet + chunk_size_of (length f.bytes) i
  unfolding fragment
  length-fragment s i hs h = omega (
    arith,
    length-append (header_bytes (fragment_header f frame_num s i)) (chunk f.bytes i),
    length-header_bytes _ (fragment_header-IsHeader f v frame_num s i hs h),
    length-chunk f v i,
  )

  pub add_packet-fragment :
      (s i : ℕ) (junk : Bytes) (fb : FrameBuffer)
      → s < dword
      → i < total_packets f
      → length fb.chunks ≡ length f.bytes
      → add_packet
          (fragment_header f frame_num s i)
          (rtsmp_of (fragment_header f frame_num s i).rtmp_data)
          (fragment f frame_num s i ++ junk)
          fb
        ≡ ok (with_chunk f i fb)
  add_packet-fragment s i junk fb hs h e =
      let c = chunk_size_of (length f.bytes) i in
      let packet = fragment f frame_num s i ++ junk in
      add_packet-ok (fragment_header f frame_num s i)
        (rtsmp_of (fragment_header f frame_num s i).rtmp_data) packet fb c (i * payload_bytes)
        (size-fragment s i h) (ap (λ (t : ℕ). t * payload_size) (rtsmp_of-fragment s i h).1)
        (omega (arith, data_offset-lt f v i h))
        (omega (arith, length-append (fragment f frame_num s i) junk, length-fragment s i hs h))
      ∙ ap
          (λ (payload : Bytes). ok (record fb {
            chunks = overwrite fb.chunks (i * payload_bytes) payload;
            total_size = (fb.total_size + c) % dword;
            total_packets = (fb.total_packets + 1) % dword;
          }))
          (payload-fragment s i junk hs h)

  pub Agrees-covered :
      (i j : ℕ) (fb : FrameBuffer)
      → i < total_packets f
      → length fb.chunks ≡ length f.bytes
      → j < length f.bytes
      → i * payload_bytes ≤ j
      → j < (i + 1) * payload_bytes
      → Agrees f (with_chunk f i fb) j
  Agrees-covered i j fb h e hj lo hi =
      let k = j - i * payload_bytes in
      get_elem?-overwrite_in fb.chunks (i * payload_bytes) (chunk f.bytes i) k j (omega arith)
        (omega (arith, length-chunk f v i)) (omega arith)
      ∙ get_elem?-take (chunk_size_of (length f.bytes) i) (drop (i * payload_bytes) f.bytes) k
          (omega arith)
      ∙ get_elem?-drop (i * payload_bytes) f.bytes k j (omega arith)

  -- A byte that the chunk covers, or that was right before, is right afterwards.
  pub Agrees-with_chunk :
      (i j : ℕ) (fb : FrameBuffer)
      → i < total_packets f
      → length fb.chunks ≡ length f.bytes
      → j < length f.bytes
      → ((i * payload_bytes ≤ j) × (j < (i + 1) * payload_bytes)) ⊎ Agrees f fb j
      → Agrees f (with_chunk f i fb) j
  Agrees-with_chunk i j fb h e hj (inl (lo, hi)) = Agrees-covered i j fb h e hj lo hi
  Agrees-with_chunk i j fb h e hj (inr was) = elim (Bool-cases (leb (i * payload_bytes) j)) [
    | inr before ↦
        (get_elem?-overwrite_out fb.chunks (i * payload_bytes) (chunk f.bytes i) j).0 before ∙ was
    | inl after ↦ elim (Bool-cases (leb ((i + 1) * payload_bytes) j)) [
      | inr within ↦ Agrees-covered i j fb h e hj (ground arith) (ground arith)
      | inl behind ↦
          (get_elem?-overwrite_out fb.chunks (i * payload_bytes) (chunk f.bytes i) j).1
            (ground (arith, length-chunk f v i))
          ∙ was
    ]
  ]
