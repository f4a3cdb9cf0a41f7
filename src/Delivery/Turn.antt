-- ===== src/Delivery/Turn.antt =====
-- One datagram of a frame, received and consumed, whatever came before: VideoClient/main.cpp.
use lllsi.Base.{
  ℕ, ◌+◌, ◌-◌, ◌*◌, ◌%◌, ◌≤◌, ◌<◌, ◌≡◌, refl, ap, sym, ◌∙◌, Bool, false, List, [], ◌∷◌, ◌++◌, ◌==◌,
  if◌then◌else◌, length, take, take_fill, length-overwrite, lookup, assign, lookup-assign, ==_self,
  some, Result, ok, ◌>>=◌, arith,
}
use lllsi.Packet.{Bytes, dword, header_bytes, header_of}
use lllsi.Host.{StreamFrame, total_packets}
use lllsi.Host.Fragments.{payload_bytes, Fits, chunk_size_of, chunk, fragment, data_offset-lt}
use lllsi.Viewer.{Viewer, packet_size, ack_header, receive, consume, consume_packet}
use lllsi.Delivery.Buffer.{with_chunk, length-fragment}
use lllsi.Delivery.Step.{Progress, next_buffer, next_buffer-taken, taken, consume_packet-fragment}

-- The threads of the viewer take turns: each datagram is received, with what memory held behind
-- it, and then consumed.
unfoldable pub deliver : {B : Type 0} → List (Bytes × Bytes) → Viewer B → Result (Viewer B)
deliver [] c = ok c
deliver ((junk, datagram) ∷ rest) c = consume (receive junk (some datagram) c) >>= deliver rest

-- The packet queue between the two is empty again after a turn.
turn :
    {B : Type 0} (junk datagram : Bytes) (c : Viewer B)
    → c.packet_queue ≡ []
    → length datagram ≤ packet_size
    → (sent : List Bytes) × (consume (receive junk (some datagram) c)
        ≡ consume_packet
            (datagram ++ take (packet_size - length datagram) junk)
            (record c { packet_queue = []; sent = sent }))
unfolding consume receive
turn junk datagram c e h =
    let packet = datagram ++ take (packet_size - length datagram) junk in
    (
      c.sent ++ header_bytes (ack_header (header_of packet).sequence_number) ∷ [],
      rw (take_fill packet_size datagram junk h, e) refl,
    )

module _ {B : Type 0} (f : StreamFrame) (v : Fits f) (frame_num : ℕ) (hf : frame_num < dword) where
  -- The viewer after the `i`th packet of the frame: its chunk is copied in and counted, and the frame
  -- is announced if the count is the frame's size.
  pub record Turned (i t : ℕ) (c c' : Viewer B) : Type 0 where
    pub progress : Progress f frame_num ((t + chunk_size_of (length f.bytes) i) % dword) c'
    pub empty : c'.packet_queue ≡ []
    pub waiting : c'.bitmaps ≡ c.bitmaps
    pub others :
        (g : ℕ) → (frame_num == g) ≡ false → lookup g c'.active_frames ≡ lookup g c.active_frames
    pub stored :
        lookup frame_num c'.active_frames ≡ some (next_buffer (length f.bytes) frame_num c')
    pub copied :
        next_buffer (length f.bytes) frame_num c'
        ≡ with_chunk f i (next_buffer (length f.bytes) frame_num c)
    pub queued : c'.frame_num_queue ≡ (
        if (t + chunk_size_of (length f.bytes) i) % dword == length f.bytes
        then c.frame_num_queue ++ frame_num ∷ []
        else c.frame_num_queue)

  pub turn_lem :
      (i s t : ℕ) (junk : Bytes) (c : Viewer B)
      → s < dword
      → i < total_packets f
      → Progress f frame_num t c
      → c.packet_queue ≡ []
      → (c' : Viewer B) × (consume (receive junk (some (fragment f frame_num s i)) c) ≡ ok c')
        × Turned i t c c'
  turn_lem i s t junk c hs h p e =
      let L = length f.bytes in
      let d = fragment f frame_num s i in
      let (sent, run) =
        turn junk d c e (omega (arith, length-fragment f v frame_num hf s i hs h)) in
      let c1 : Viewer B = record c { packet_queue = []; sent = sent } in
      let (took, after, queued) =
        consume_packet-fragment f v frame_num hf s i t (take (packet_size - length d) junk) c1 hs h
          (record { sized = p.sized; expected = p.expected; counted = p.counted }) in
      let fb = next_buffer L frame_num c in
      let room : 0 < length (with_chunk f i fb).chunks = omega (
        arith,
        length-overwrite fb.chunks (i * payload_bytes) (chunk f.bytes i),
        data_offset-lt f v i h,
        p.sized,
      ) in
      let next = next_buffer-taken f v frame_num hf (with_chunk f i fb) c1 room in
      let stored : lookup frame_num (assign frame_num (with_chunk f i fb) c.active_frames)
          ≡ some (with_chunk f i fb) =
        lookup-assign frame_num frame_num (with_chunk f i fb) c.active_frames
        ∙ ap
            (λ (b : Bool). if b then some (with_chunk f i fb) else lookup frame_num c.active_frames)
            (==_self frame_num) in
      (
        taken frame_num (with_chunk f i fb) c1,
        run ∙ took,
        record {
          progress = after;
          empty = refl;
          waiting = refl;
          others = λ g ne.
              lookup-assign frame_num g (with_chunk f i fb) c.active_frames
              ∙ ap (λ (b : Bool). if b then some (with_chunk f i fb) else lookup g c.active_frames)
                  ne;
          stored = stored ∙ ap some (sym next);
          copied = next;
          queued = queued;
        },
      )
