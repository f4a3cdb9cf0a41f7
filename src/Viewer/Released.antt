-- ===== src/Viewer/Released.antt =====
-- The window's objects are let go: VideoClient/main.cpp `decoderThread`, `timerThread` and WM_PAINT.
use lllsi.Base.{
  ℕ, Bool-cases, inl, inr, not, subst, ◌+◌, ◌≡◌, refl, sym, ap, ◌∙◌, Bool, true, false, List, [],
  ◌∷◌, length, if◌then◌else◌, none, arith,
}
use lllsi.Queue.Frames.{length-insert_frame}
use lllsi.Viewer.Drawing.{
  Window, one_made, one_gone, new_window, DecodeAnswers, release_stream,
  create_bitmap_from_image_stream, decode_image, queue_image, decoder_round, DrawAnswers,
  display_frame, paint_front, paint_window,
}

-- What the threads and the window do, in any order.
pub data Turn : Type 0 where
  decodes : DecodeAnswers → ℕ → Turn
  ticks : Turn
  paints : DrawAnswers → Turn

abbrev pub take_turn : Turn → Window → Window
take_turn (decodes a frame_number) w = decoder_round a frame_number w
take_turn ticks w = record w { load_frame = true }
take_turn (paints a) w = paint_window a w

abbrev pub take_turns : List Turn → Window → Window
take_turns [] w = w
take_turns (t ∷ ts) w = take_turns ts (take_turn t w)

-- What the program has made and not let go: so many pictures and unfinished paints, the reference on
-- the stream in `pStream`, and nothing else.
record Owes (pictures unfinished : ℕ) (w : Window) : Type 0 where
  images : w.images.made ≡ w.images.gone + pictures
  streams : w.streams.made ≡ w.streams.gone + (if w.p_stream then 1 else 0)
  dcs : w.dcs.made ≡ w.dcs.gone
  h_bitmaps : w.h_bitmaps.made ≡ w.h_bitmaps.gone
  paintings : w.paintings.made ≡ w.paintings.gone + unfinished

-- Between two turns the pictures wait in the queue.
abbrev pub NoLeak : Window → Type 0
NoLeak w =
    (w.images.made ≡ w.images.gone + length w.bitmaps)
    × (w.streams.made ≡ w.streams.gone + (if w.p_stream then 1 else 0))
    × (w.dcs.made ≡ w.dcs.gone)
    × (w.h_bitmaps.made ≡ w.h_bitmaps.gone)
    × (w.paintings.made ≡ w.paintings.gone)

release_stream_lem :
    (w : Window)
    → (n : ℕ) → Owes n 0 w
    → Owes n 0 (release_stream w)
      × ((release_stream w).p_stream ≡ false)
      × ((release_stream w).bitmaps ≡ w.bitmaps)
unfolding release_stream
release_stream_lem w n k = elim (Bool-cases w.p_stream) [
  | inl held ↦ rw held (
    record {
      images = k.images;
      streams =
          omega (arith, k.streams ∙ ap (λ (b : Bool). w.streams.gone + (if b then 1 else 0)) held);
      dcs = k.dcs;
      h_bitmaps = k.h_bitmaps;
      paintings = k.paintings;
    },
    refl,
    refl,
  )
  | inr nothing ↦ rw nothing (
    record {
      images = k.images;
      streams = k.streams ∙ ap (λ (b : Bool). w.streams.gone + (if b then 1 else 0)) nothing;
      dcs = k.dcs;
      h_bitmaps = k.h_bitmaps;
      paintings = k.paintings;
    },
    refl,
    refl,
  )
]

-- The decoder's round once the old stream is given back.
decoded-Owes :
    (made ok : Bool) (image n : ℕ) (w : Window)
    → Owes (length w.bitmaps) 0 w
    → w.p_stream ≡ false
    → (let turned = queue_image n (
          if made
          then create_bitmap_from_image_stream
              (record { stream_made = made; status_ok = ok; image = image })
              (record w { p_stream = true; streams = one_made w.streams })
          else (none, w)) in
        Owes (length turned.bitmaps) 0 turned)
unfolding queue_image create_bitmap_from_image_stream
decoded-Owes false ok image n w k e = k
decoded-Owes true false image n w k e = record {
  images = omega (arith, k.images);
  streams = omega (arith, k.streams ∙ ap (λ (b : Bool). w.streams.gone + (if b then 1 else 0)) e);
  dcs = k.dcs;
  h_bitmaps = k.h_bitmaps;
  paintings = k.paintings;
}
decoded-Owes true true image n w k e = record {
  images = omega (arith, k.images, length-insert_frame (n, image) w.bitmaps);
  streams = omega (arith, k.streams ∙ ap (λ (b : Bool). w.streams.gone + (if b then 1 else 0)) e);
  dcs = k.dcs;
  h_bitmaps = k.h_bitmaps;
  paintings = k.paintings;
}

decoder_round-Owes :
    (a : DecodeAnswers) (n : ℕ) (w : Window)
    → Owes (length w.bitmaps) 0 w
    → Owes (length (decoder_round a n w).bitmaps) 0 (decoder_round a n w)
unfolding decoder_round decode_image
decoder_round-Owes a n w k =
    let (owes, empty, same) = release_stream_lem w (length w.bitmaps) k in
    decoded-Owes a.stream_made a.status_ok a.image n (release_stream w)
      (subst (λ (bs : List (ℕ × ℕ)). Owes (length bs) 0 (release_stream w)) (sym same) owes) empty

-- However far displayFrame comes, it lets go what it made, and leaves the queue.
display_frame-Owes :
    (hdc ok mem h : Bool) (pictures unfinished n : ℕ) (w : Window)
    → Owes pictures unfinished w
    → (let a : DrawAnswers = record {
      hdc = hdc;
      last_status_ok = ok;
      hdc_mem = mem;
      h_bitmap = h;
    } in
        Owes pictures unfinished (display_frame a n w)
        × ((display_frame a n w).bitmaps ≡ w.bitmaps))
unfolding display_frame
display_frame-Owes false ok mem h pictures unfinished n w k = (k, refl)
display_frame-Owes true false mem h pictures unfinished n w k = (k, refl)
display_frame-Owes true true false h pictures unfinished n w k = (k, refl)
display_frame-Owes true true true false pictures unfinished n w k = (
  record {
    images = k.images;
    streams = k.streams;
    dcs = ap (λ (d : ℕ). d + 1) k.dcs;
    h_bitmaps = k.h_bitmaps;
    paintings = k.paintings;
  },
  refl,
)
display_frame-Owes true true true true pictures unfinished n w k = (
  record {
    images = k.images;
    streams = k.streams;
    dcs = ap (λ (d : ℕ). d + 1) k.dcs;
    h_bitmaps = ap (λ (d : ℕ). d + 1) k.h_bitmaps;
    paintings = k.paintings;
  },
  refl,
)

-- The paint is over.
painted :
    (n : ℕ) (w : Window) → Owes n 1 w → Owes n 0 (record w { paintings = one_gone w.paintings })
painted n w k = record {
  images = k.images;
  streams = k.streams;
  dcs = k.dcs;
  h_bitmaps = k.h_bitmaps;
  paintings = omega (arith, k.paintings);
}

-- A paint that has begun, with the queue's contents.
paint_front-Owes :
    (a : DrawAnswers) (bs : List (ℕ × ℕ)) (w : Window)
    → Owes (length w.bitmaps) 1 w
    → w.bitmaps ≡ bs
    → Owes (length (paint_front a bs w).bitmaps) 0 (paint_front a bs w)
unfolding paint_front
paint_front-Owes a [] w k e = painted _ w k
paint_front-Owes a ((n, image) ∷ rest) w k e =
    let taken : Window = record w { bitmaps = rest } in
    let (owes, same) =
      display_frame-Owes a.hdc a.last_status_ok a.hdc_mem a.h_bitmap (length w.bitmaps) 1 n taken
        (record {
          images = k.images;
          streams = k.streams;
          dcs = k.dcs;
          h_bitmaps = k.h_bitmaps;
          paintings = k.paintings;
        }) in
    record {
      images = omega (arith, owes.images, ap length e, ap length same);
      streams = owes.streams;
      dcs = owes.dcs;
      h_bitmaps = owes.h_bitmaps;
      paintings = omega (arith, owes.paintings);
    }

paint_cases :
    (load_frame : Bool) (a : DrawAnswers) (w : Window)
    → Owes (length w.bitmaps) 1 w
    → (let turned =
          if not load_frame
          then record w { paintings = one_gone w.paintings }
          else paint_front a w.bitmaps w in
        Owes (length turned.bitmaps) 0 turned)
paint_cases true a w k = paint_front-Owes a w.bitmaps w k refl
paint_cases false a w k = painted _ w k

paint_window-Owes :
    (a : DrawAnswers) (w : Window)
    → Owes (length w.bitmaps) 0 w
    → Owes (length (paint_window a w).bitmaps) 0 (paint_window a w)
unfolding paint_window
paint_window-Owes a w k =
    paint_cases w.load_frame a (record w { paintings = one_made w.paintings })
      (record {
        images = k.images;
        streams = k.streams;
        dcs = k.dcs;
        h_bitmaps = k.h_bitmaps;
        paintings = omega (arith, k.paintings);
      })

take_turns-Owes :
    (ts : List Turn) (w : Window) → Owes (length w.bitmaps) 0 w → NoLeak (take_turns ts w)
take_turns-Owes [] w k = (k.images, k.streams, k.dcs, k.h_bitmaps, omega (arith, k.paintings))
take_turns-Owes (decodes a n ∷ ts) w k =
    take_turns-Owes ts (decoder_round a n w) (decoder_round-Owes a n w k)
take_turns-Owes (ticks ∷ ts) w k =
    take_turns-Owes ts (record w { load_frame = true })
      (record {
        images = k.images;
        streams = k.streams;
        dcs = k.dcs;
        h_bitmaps = k.h_bitmaps;
        paintings = k.paintings;
      })
take_turns-Owes (paints a ∷ ts) w k =
    take_turns-Owes ts (paint_window a w) (paint_window-Owes a w k)

-- Whatever whole rounds the decoder, the timer and the repaints have, in whatever order and with
-- whatever failures of the calls they make, the program has let go what it made, and nothing twice,
-- but for: the pictures, as many as wait to be shown; and the reference on the stream in `pStream`,
-- if there is one. Drawing contexts, handles of bitmaps and paints are all let go.
pub take_turns-new_window : (ts : List Turn) → NoLeak (take_turns ts new_window)
take_turns-new_window ts =
    take_turns-Owes ts new_window
      (record { images = refl; streams = refl; dcs = refl; h_bitmaps = refl; paintings = refl })
