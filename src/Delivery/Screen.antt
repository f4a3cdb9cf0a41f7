-- ===== src/Delivery/Screen.antt =====
-- From the host's frames to the viewer's window: VideoHost/host.h `sendStream`, and the threads and
-- WM_PAINT of VideoClient/main.cpp.
use mathlib.Core.List.{Perm}
use lllsi.Base.{
  ℕ, ◌+◌, ◌%◌, ◌≤◌, ◌<◌, ◌≡◌, refl, ap, ◌∙◌, Bool, true, false, List, [], ◌∷◌, ◌++◌, ◌==◌, ==_self,
  map, if◌then◌else◌, length, get_or, drop, drop-append, Option, some, none, Result, ok, ◌>>=◌,
  bind_eq, Option-cases, inl, inr, lookup, lookup-erase, erase, All, arith,
}
use lllsi.Packet.{Bytes, dword}
use lllsi.Host.{StreamFrame, PacketManager, total_packets, send_frame}
use lllsi.Host.Fragments.{Fits}
use lllsi.Viewer.{Viewer, FrameBuffer, active_frame, or_empty}
use lllsi.Viewer.Display.{decode_frame, tick, paint}
use lllsi.Delivery.{deliver-send_frame}
use lllsi.Delivery.Turn.{deliver}
use lllsi.Delivery.Order.{range_from}

-- A frame, the order in which its datagrams come in, and what was in memory behind each.
pub record Journey : Type 0 where
  pub frame : StreamFrame
  pub order : List ℕ
  pub junk : ℕ → Bytes

-- Every datagram of a frame that may be sent comes in once.
pub record Arrives (x : Journey) : Type 0 where
  pub fits : Fits x.frame
  pub content : 0 < length x.frame.bytes
  pub once : Perm x.order (range_from 0 (total_packets x.frame))

module _ {B : Type 0} where
  -- One frame is sent, taken in, decoded, and painted after the timer's tick.
  abbrev pub show_frame :
      (decode : Bytes → Option B)
      → Journey
      → ℕ
      → PacketManager
      → Viewer B
      → Result (Option (ℕ × B) × PacketManager × Viewer B)
  show_frame decode x frame_num m c = do
    m' ← send_frame x.frame frame_num m
    let out = drop (length m.sent) m'.sent
    c' ← deliver (map (λ i. (x.junk i, get_or out i [])) x.order) c
    let (shown, d) = paint (tick (decode_frame decode c'))
    ok (shown, m', d)

  -- What is displayed by the repaints, frame by frame.
  abbrev pub show_stream :
      (decode : Bytes → Option B)
      → List Journey
      → ℕ
      → PacketManager
      → Viewer B
      → Result (List (Option (ℕ × B)))
  show_stream decode [] frame_num m c = ok []
  show_stream decode (x ∷ xs) frame_num m c = do
    r ← show_frame decode x frame_num m c
    rest ← show_stream decode xs ((frame_num + 1) % dword) r.1 r.2
    ok (r.0 ∷ rest)

  abbrev pub numbered : ℕ → Option B → Option (ℕ × B)
  numbered n none = none
  numbered n (some bmp) = some (n, bmp)

  -- The decoded frames with their numbers.
  abbrev pub expected : (decode : Bytes → Option B) → List Journey → ℕ → List (Option (ℕ × B))
  expected decode [] n = []
  expected decode (x ∷ xs) n = numbered n (decode x.frame.bytes) ∷ expected decode xs (n + 1)

  -- Nothing waits in the viewer, and it knows no frame from a number on.
  pub record Quiet (n : ℕ) (c : Viewer B) : Type 0 where
    pub packets : c.packet_queue ≡ []
    pub announced : c.frame_num_queue ≡ []
    pub bitmaps : c.bitmaps ≡ []
    pub fresh : (g : ℕ) → n ≤ g → lookup g c.active_frames ≡ none

  -- The decoder's round and a repaint for a frame that is there.
  paint_lem :
      (decode : Bytes → Option B) (n : ℕ) (c c' : Viewer B) (fb : FrameBuffer)
      → Quiet n c
      → c'.packet_queue ≡ []
      → c'.frame_num_queue ≡ n ∷ []
      → c'.bitmaps ≡ []
      → ((g : ℕ)
          → lookup g c'.active_frames ≡ (if n == g then some fb else lookup g c.active_frames))
      → (d : Viewer B) × (paint (tick (decode_frame decode c'))
          ≡ (numbered n (decode fb.chunks), d))
        × Quiet (n + 1) d
  unfolding paint tick decode_frame
  paint_lem decode n c c' fb q packets announced bitmaps found =
      let here : (active_frame c'.active_frames n).chunks ≡ fb.chunks =
        ap (λ (o : Option FrameBuffer). (or_empty o).chunks)
          (found n
            ∙ ap (λ (b : Bool). if b then some fb else lookup n c.active_frames) (==_self n)) in
      let d : Bool → Viewer B = λ load_frame. record c' {
        frame_num_queue = [];
        active_frames = erase n c'.active_frames;
        bitmaps = [];
        load_frame = load_frame;
      } in
      let quiet : (load_frame : Bool) → Quiet (n + 1) (d load_frame) = λ load_frame. record {
        packets = packets;
        announced = refl;
        bitmaps = refl;
        fresh = λ g above.
            lookup-erase n g c'.active_frames
            ∙ rw (found g, q.fresh g (omega arith)) (ground (arith, above));
      } in
      elim (Option-cases (decode fb.chunks)) [
        | inl fails ↦ (d true, rw (announced, here, fails, bitmaps) refl, quiet true)
        | inr (bmp, decoded) ↦ (d false, rw (announced, here, decoded, bitmaps) refl, quiet false)
      ]

  -- One frame.
  show_frame_lem :
      (decode : Bytes → Option B) (x : Journey) (n : ℕ) (m : PacketManager) (c : Viewer B)
      → Arrives x
      → n < dword
      → m.sequence_number < dword
      → Quiet n c
      → (m' : PacketManager) × (d : Viewer B) × (show_frame decode x n m c
          ≡ ok (numbered n (decode x.frame.bytes), m', d))
        × (m'.sequence_number < dword)
        × Quiet (n + 1) d
  show_frame_lem decode x n m c a small started q =
      let (m', out, c', fb, run, sent, took, chunks, found, queued, packets, waiting, next) =
        deliver-send_frame x.frame a.fits n m x.order x.junk c small started a.content a.once
          q.packets (q.fresh n (omega arith)) in
      let (d, painted, quiet) =
        paint_lem decode n c c' fb q packets (queued ∙ ap (λ (z : List ℕ). z ++ n ∷ []) q.announced)
          (waiting ∙ q.bitmaps) found in
      let went : drop (length m.sent) m'.sent ≡ out =
        ap (drop (length m.sent)) sent ∙ drop-append (length m.sent) m.sent out refl in
      (
        m',
        d,
        bind_eq _ run (
            bind_eq _
              (ap (λ (o : List Bytes). deliver (map (λ i. (x.junk i, get_or o i [])) x.order) c)
                  went
                ∙ took)
              (ap (λ (r : Option (ℕ × B) × Viewer B). ok (r.0, m', r.1)) painted
                ∙ ap (λ (b : Bytes). ok (numbered n (decode b), m', d)) chunks)),
        next,
        quiet,
      )

  -- A viewer in which nothing waits, and which knows none of the coming frame numbers, gets
  -- frames of the host one after another: each of the sample host's packet size and of 1 to 65535
  -- * 4060 bytes, all its datagrams once and in any order, and, while the frame numbers do not
  -- wrap round and from a sequence number below 2 ^ 32, nothing fails on either side. The repaint
  -- after each frame's decoding and the timer's tick shows that frame's picture under its number,
  -- exactly what the decoder makes of the bytes that the host sent, or nothing if it can make
  -- nothing of them.
  pub show_stream_lem :
      (decode : Bytes → Option B) (xs : List Journey) (n : ℕ) (m : PacketManager) (c : Viewer B)
      → All Arrives xs
      → n + length xs < dword
      → m.sequence_number < dword
      → Quiet n c
      → show_stream decode xs n m c ≡ ok (expected decode xs n)
  show_stream_lem decode [] n m c a small started q = refl
  show_stream_lem decode (x ∷ xs) n m c (a, all) small started q =
      let (m', d, shown, next, quiet) = show_frame_lem decode x n m c a (omega arith) started q in
      let later = show_stream_lem decode xs (n + 1) m' d all (omega arith) next quiet in
      bind_eq _ shown
        (bind_eq _ (ap (λ (k : ℕ). show_stream decode xs k m' d) (omega arith) ∙ later) refl)
