-- ===== src/Viewer/Display.antt =====
-- From a complete frame to the window: VideoClient/main.cpp `decoderThread`, `timerThread`, and
-- WM_PAINT of `WndProc`. `decode` is `decodeImage`; a bitmap that it cannot make is a null pointer,
-- which is not queued.
use lllsi.Base.{
  ℕ, ◌≤◌, ◌<◌, ◌≡◌, length, arith, subst, refl, true, false, List, [], ◌∷◌, Option, none, some,
  if◌then◌else◌, erase, All,
}
use lllsi.Packet.{Bytes}
use lllsi.Viewer.{Viewer, active_frame}
use lllsi.Queue.Frames.{
  insert_frame, length-insert_frame, Ascending, insert_frame-Ascending, insert_frame-Perm,
}
use mathlib.Core.List.{Perm}

module _ {B : Type 0} where
  abbrev pub queue_bitmap : ℕ → Option B → List (ℕ × B) → List (ℕ × B)
  queue_bitmap frame_number none bitmaps = bitmaps
  queue_bitmap frame_number (some bmp) bitmaps = insert_frame (frame_number, bmp) bitmaps

  abbrev pub decode_next : (decode : Bytes → Option B) → List ℕ → Viewer B → Viewer B
  decode_next decode [] c = c
  decode_next decode (frame_number ∷ rest) c = record c {
    frame_num_queue = rest;
    bitmaps =
        queue_bitmap frame_number (decode (active_frame c.active_frames frame_number).chunks)
          c.bitmaps;
    active_frames = erase frame_number c.active_frames;
  }

  -- One round of `decoderThread`.
  unfoldable pub decode_frame : (decode : Bytes → Option B) → Viewer B → Viewer B
  decode_frame decode c = decode_next decode c.frame_num_queue c

  -- One round of `timerThread`.
  unfoldable pub tick : Viewer B → Viewer B
  tick c = record c { load_frame = true }

  abbrev pub paint_next : List (ℕ × B) → Viewer B → Option (ℕ × B) × Viewer B
  paint_next [] c = (none, c)
  paint_next (shown ∷ rest) c = (some shown, record c { bitmaps = rest; load_frame = false })

  -- WM_PAINT: what is displayed.
  unfoldable pub paint : Viewer B → Option (ℕ × B) × Viewer B
  paint c = if c.load_frame then paint_next c.bitmaps c else (none, c)

  abbrev pub Shows : (decode : Bytes → Option B) → Viewer B → ℕ × B → Type 0
  Shows decode c frame =
      (shown : ℕ × B) × (waiting : List (ℕ × B)) × (d : Viewer B) × (paint
          (tick (decode_frame decode c))
        ≡ (some shown, d))
      × (d.bitmaps ≡ waiting)
      × Perm (shown ∷ waiting) (frame ∷ c.bitmaps)
      × All (λ (other : ℕ × B). shown.0 ≤ other.0) waiting
      × Ascending waiting
      × (paint d ≡ (none, d))

  split_front :
      (xs : List (ℕ × B))
      → 0 < length xs
      → (shown : ℕ × B) × (rest : List (ℕ × B)) × (xs ≡ shown ∷ rest)
  split_front [] some_left = absurd (omega arith)
  split_front (x ∷ xs) some_left = (x, xs, refl)

  -- When the next complete frame can be decoded and the waiting bitmaps are in the order of their
  -- numbers, then after a round of the decoder and of the timer a repaint shows the bitmap with the
  -- least number among the new one and those waiting. The others wait, in order, and the next
  -- repaint shows nothing until the timer ticks again.
  pub paint-decode_frame :
      (decode : Bytes → Option B) (c : Viewer B) (n : ℕ) (rest : List ℕ) (bmp : B)
      → c.frame_num_queue ≡ n ∷ rest
      → decode (active_frame c.active_frames n).chunks ≡ some bmp
      → Ascending c.bitmaps
      → Shows decode c (n, bmp)
  unfolding paint tick decode_frame
  paint-decode_frame decode c n rest bmp next decoded sorted =
      let xs = insert_frame (n, bmp) c.bitmaps in
      let (shown, waiting, front) =
        split_front xs (omega (arith, length-insert_frame (n, bmp) c.bitmaps)) in
      let in_order = subst Ascending front (insert_frame-Ascending (n, bmp) c.bitmaps sorted) in
      let d : Viewer B = record c {
        frame_num_queue = rest;
        active_frames = erase n c.active_frames;
        bitmaps = waiting;
        load_frame = false;
      } in
      (
        shown,
        waiting,
        d,
        rw (next, decoded, front) refl,
        refl,
        subst (λ (ys : List (ℕ × B)). Perm ys ((n, bmp) ∷ c.bitmaps)) front
            (insert_frame-Perm (n, bmp) c.bitmaps),
        in_order.0,
        in_order.1,
        refl,
      )
