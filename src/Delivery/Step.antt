-- ===== src/Delivery/Step.antt =====
-- One packet of a frame taken in by the consumer thread of VideoClient/main.cpp.
use lllsi.Base.{
  ℕ, ◌+◌, ◌*◌, ◌%◌, ◌<◌, ◌≡◌, refl, ap, ◌∙◌, inl, inr, Bool, [], ◌∷◌, ◌++◌, ◌==◌, if◌then◌else◌,
  is_empty, length, none, some, lookup, assign, lookup-assign, ==_self, Map, Bool-cases,
  length-replicate, length-overwrite, ok, arith,
}
use lllsi.Packet.{Bytes, dword, packet_type_stream, header_of, RtmpPacket, rtsmp_of}
use lllsi.Host.{StreamFrame, total_packets, fragment_header}
use lllsi.Host.Fragments.{payload_bytes, Fits, chunk_size_of, chunk, fragment, data_offset-lt}
use lllsi.Viewer.{
  Viewer, FrameBuffer, empty_frame, or_empty, active_frame, open_frame, add_packet, consume_packet,
}
use lllsi.Delivery.Buffer.{with_chunk, header_of-fragment, rtsmp_of-fragment, add_packet-fragment}

-- The viewer after a stream packet of frame `frame_num` turned its buffer into `fb'`.
abbrev pub taken : {B : Type 0} → ℕ → FrameBuffer → Viewer B → Viewer B
taken frame_num fb' c = record c {
  active_frames = assign frame_num fb' c.active_frames;
  latest_frame =
      if is_empty (active_frame c.active_frames frame_num).chunks
      then frame_num
      else c.latest_frame;
  frame_num_queue =
      if fb'.total_size == fb'.expected_size
      then c.frame_num_queue ++ frame_num ∷ []
      else c.frame_num_queue;
}

pub consume_packet-ok :
    {B : Type 0} (packet : Bytes) (c : Viewer B) (pkt : RtmpPacket) (frame_num : ℕ)
    (fb' : FrameBuffer)
    → header_of packet ≡ pkt
    → pkt.type ≡ packet_type_stream
    → (rtsmp_of pkt.rtmp_data).frame_number ≡ frame_num
    → add_packet pkt
        (rtsmp_of pkt.rtmp_data)
        packet
        (open_frame pkt.sliding_window frame_num (active_frame c.active_frames frame_num))
      ≡ ok fb'
    → consume_packet packet c ≡ ok (taken frame_num fb' c)
unfolding consume_packet
consume_packet-ok packet c pkt frame_num fb' eh et ef added = simp (eh, et, ef, added)

-- The buffer that the next packet of a frame of `expected_size` bytes is copied to.
abbrev pub next_buffer : {B : Type 0} → (expected_size frame_num : ℕ) → Viewer B → FrameBuffer
next_buffer expected_size frame_num c =
    open_frame expected_size frame_num (active_frame c.active_frames frame_num)

-- The buffer has the frame's size, and `t` of its bytes are counted.
pub record Progress {B : Type 0} (f : StreamFrame) (frame_num t : ℕ) (c : Viewer B) : Type 0 where
  pub sized : length (next_buffer (length f.bytes) frame_num c).chunks ≡ length f.bytes
  pub expected : (next_buffer (length f.bytes) frame_num c).expected_size ≡ length f.bytes
  pub counted : (next_buffer (length f.bytes) frame_num c).total_size ≡ t

-- A buffer that has room is not opened again.
open_frame_again :
    (n frame_num : ℕ) (fb : FrameBuffer) → 0 < length fb.chunks → open_frame n frame_num fb ≡ fb
unfolding open_frame
open_frame_again n frame_num fb h = elim (Bool-cases (is_empty fb.chunks)) [
  | inl e ↦ absurd (ground arith)
  | inr e ↦ rw e
]

active_frame-assign :
    (k : ℕ) (fb : FrameBuffer) (m : Map FrameBuffer) → active_frame (assign k fb m) k ≡ fb
active_frame-assign k fb m =
    ap or_empty
      (lookup-assign k k fb m ∙ ap (λ (b : Bool). if b then some fb else lookup k m) (==_self k))

module _ {B : Type 0} (f : StreamFrame) (v : Fits f) (frame_num : ℕ) (hf : frame_num < dword) where
  -- Before its first packet nothing is counted.
  pub Progress-new :
      (c : Viewer B) → lookup frame_num c.active_frames ≡ none → Progress f frame_num 0 c
  unfolding open_frame
  Progress-new c e =
      let fresh : active_frame c.active_frames frame_num ≡ empty_frame = ap or_empty e in
      let opened = open_frame (length f.bytes) frame_num in
      record {
        sized = ap (λ fb. length (opened fb).chunks) fresh ∙ length-replicate (length f.bytes) 0;
        expected = ap (λ fb. (opened fb).expected_size) fresh;
        counted = ap (λ fb. (opened fb).total_size) fresh;
      }

  pub next_buffer-taken :
      (fb : FrameBuffer) (c : Viewer B)
      → 0 < length fb.chunks
      → next_buffer (length f.bytes) frame_num (taken frame_num fb c) ≡ fb
  next_buffer-taken fb c h =
      ap (open_frame (length f.bytes) frame_num) (active_frame-assign frame_num fb c.active_frames)
      ∙ open_frame_again (length f.bytes) frame_num fb h

  pub consume_packet-fragment :
      (s i t : ℕ) (junk : Bytes) (c : Viewer B)
      → s < dword
      → i < total_packets f
      → Progress f frame_num t c
      → let c' = taken frame_num (with_chunk f i (next_buffer (length f.bytes) frame_num c)) c in
        (consume_packet (fragment f frame_num s i ++ junk) c ≡ ok c')
        × Progress f frame_num ((t + chunk_size_of (length f.bytes) i) % dword) c'
        × (c'.frame_num_queue ≡ (
            if (t + chunk_size_of (length f.bytes) i) % dword == length f.bytes
            then c.frame_num_queue ++ frame_num ∷ []
            else c.frame_num_queue))
  unfolding fragment_header
  consume_packet-fragment s i t junk c hs h p =
      let L = length f.bytes in
      let n = chunk_size_of L i in
      let fb = next_buffer L frame_num c in
      let header = fragment_header f frame_num s i in
      let packet = fragment f frame_num s i ++ junk in
      let window : header.sliding_window ≡ L = omega (arith, v.bytes) in
      let filled : 0 < length (with_chunk f i fb).chunks = omega (
        arith,
        length-overwrite fb.chunks (i * payload_bytes) (chunk f.bytes i),
        data_offset-lt f v i h,
        p.sized,
      ) in
      let next = next_buffer-taken (with_chunk f i fb) c filled in
      (
        consume_packet-ok packet c header frame_num (with_chunk f i fb)
            (header_of-fragment f v frame_num hf s i junk hs h) refl
            (rtsmp_of-fragment f v frame_num hf s i h).0
            (ap
                (λ (k : ℕ).
                  add_packet header (rtsmp_of header.rtmp_data) packet
                    (open_frame k frame_num (active_frame c.active_frames frame_num)))
                window
              ∙ add_packet-fragment f v frame_num hf s i junk fb hs h p.sized),
        record {
          sized =
              ap (λ (b : FrameBuffer). length b.chunks) next
              ∙ length-overwrite fb.chunks (i * payload_bytes) (chunk f.bytes i)
              ∙ p.sized;
          expected = ap (λ (b : FrameBuffer). b.expected_size) next ∙ p.expected;
          counted =
              ap (λ (b : FrameBuffer). b.total_size) next
              ∙ ap (λ (k : ℕ). (k + n) % dword) p.counted;
        },
        ap
              (λ (k : ℕ).
                if (k + n) % dword == fb.expected_size
                then c.frame_num_queue ++ frame_num ∷ []
                else c.frame_num_queue)
              p.counted
            ∙ ap
                (λ (k : ℕ).
                  if (t + n) % dword == k
                  then c.frame_num_queue ++ frame_num ∷ []
                  else c.frame_num_queue)
                p.expected,
      )
