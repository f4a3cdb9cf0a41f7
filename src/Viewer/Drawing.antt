-- ===== src/Viewer/Drawing.antt =====
-- The objects behind the window: VideoClient/main.cpp `decodeImage`, `createBitmapFromImageStream`,
-- `displayFrame`, the body of `decoderThread`, and WM_PAINT of `WndProc`. Of each kind of object it is
-- counted how many the program has made and how many it has let go; of streams, the references that
-- it got and gave back with `Release`, whatever references a `Bitmap` holds itself. `drawn` holds the
-- numbers of the frames copied to the window.
use lllsi.Base.{
  ℕ, ◌+◌, Bool, true, false, List, [], ◌∷◌, ◌++◌, ◌&&◌, not, if◌then◌else◌, Option, none, some,
}
use lllsi.Queue.Frames.{insert_frame}

pub record Count : Type 0 where
  pub made : ℕ
  pub gone : ℕ

abbrev pub none_yet : Count
none_yet = record { made = 0; gone = 0 }

abbrev pub one_made : Count → Count
one_made c = record c { made = c.made + 1 }

abbrev pub one_gone : Count → Count
one_gone c = record c { gone = c.gone + 1 }

pub record Window : Type 0 where
  pub streams : Count
  pub images : Count
  pub dcs : Count
  pub h_bitmaps : Count
  pub paintings : Count
  pub p_stream : Bool
  pub load_frame : Bool
  pub bitmaps : List (ℕ × ℕ)
  pub drawn : List ℕ

abbrev pub new_window : Window
new_window = record {
  streams = none_yet;
  images = none_yet;
  dcs = none_yet;
  h_bitmaps = none_yet;
  paintings = none_yet;
  p_stream = false;
  load_frame = false;
  bitmaps = [];
  drawn = [];
}

-- What SHCreateMemStream and GDI+ answer: is there a stream, is the picture in it good, and where is
-- the `Bitmap` object.
pub record DecodeAnswers : Type 0 where
  pub stream_made : Bool
  pub status_ok : Bool
  pub image : ℕ

-- The program's reference on the stream in the global `pStream` is given back.
unfoldable pub release_stream : Window → Window
release_stream w =
    let released : Window = if w.p_stream then record w { streams = one_gone w.streams } else w in
    record released { p_stream = false }

unfoldable pub create_bitmap_from_image_stream : DecodeAnswers → Window → Option ℕ × Window
create_bitmap_from_image_stream a w =
    let made : Window = record w { images = one_made w.images } in
    if w.p_stream
    then if a.status_ok
      then (some a.image, made)
      else (none, record made { images = one_gone made.images })
    else (none, w)

unfoldable pub decode_image : DecodeAnswers → Window → Option ℕ × Window
unfolding release_stream create_bitmap_from_image_stream
decode_image a w =
    let released = release_stream w in
    if a.stream_made
    then create_bitmap_from_image_stream a
        (record released { p_stream = true; streams = one_made released.streams })
    else (none, released)

-- A null pointer is not queued.
unfoldable pub queue_image : ℕ → Option ℕ × Window → Window
queue_image frame_number (none, w) = w
queue_image frame_number (some image, w) = record w {
  bitmaps = insert_frame (frame_number, image) w.bitmaps;
}

-- The body of `decoderThread` for a frame number.
unfoldable pub decoder_round : DecodeAnswers → ℕ → Window → Window
unfolding decode_image queue_image
decoder_round a frame_number w = queue_image frame_number (decode_image a w)

-- What `BeginPaint`, `GetLastStatus`, `CreateCompatibleDC` and `GetHBITMAP` answer.
pub record DrawAnswers : Type 0 where
  pub hdc : Bool
  pub last_status_ok : Bool
  pub hdc_mem : Bool
  pub h_bitmap : Bool

unfoldable pub display_frame : DrawAnswers → (frame_number : ℕ) → Window → Window
display_frame a frame_number w =
    if not (a.hdc && a.last_status_ok)
    then w
    else if not a.hdc_mem
    then w
    else (let with_dc : Window = record w { dcs = one_made w.dcs } in
        if not a.h_bitmap
        then record with_dc { dcs = one_gone with_dc.dcs }
        else (let both : Window = record with_dc {
          h_bitmaps = one_made with_dc.h_bitmaps;
          drawn = with_dc.drawn ++ frame_number ∷ [];
        } in
            record both { dcs = one_gone both.dcs; h_bitmaps = one_gone both.h_bitmaps }))

-- Behind `BeginPaint`, with the queue's contents.
unfoldable pub paint_front : DrawAnswers → List (ℕ × ℕ) → Window → Window
unfolding display_frame
paint_front a [] w = record w { paintings = one_gone w.paintings }
paint_front a ((frame_number, image) ∷ rest) w =
    let shown = display_frame a frame_number (record w { bitmaps = rest }) in
    record shown {
      load_frame = false;
      images = one_gone shown.images;
      paintings = one_gone shown.paintings;
    }

unfoldable pub paint_window : DrawAnswers → Window → Window
unfolding paint_front
paint_window a w =
    let begun : Window = record w { paintings = one_made w.paintings } in
    if not w.load_frame
    then record begun { paintings = one_gone begun.paintings }
    else paint_front a begun.bitmaps begun
