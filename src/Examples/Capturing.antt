-- ===== src/Examples/Capturing.antt =====
-- Two captured frames and a failure between them; two encoders.
use lllsi.Base.{ℕ, ◌≡◌, refl, true, false, Bool, List, [], ◌∷◌, some, arith, ok, All}
use lllsi.Video.{
  ImageCodecInfo, CaptureAnswers, VideoCapture, VideoStream, init_stream, get_encoder,
}
use lllsi.Video.Encoder.{Chooses, get_encoder_lem}
use lllsi.Video.Locks.{Readable, destroy_all, init_stream_lem}

abbrev captured_at : ℕ → CaptureAnswers
captured_at h = record {
  blt = true;
  p_stream = some h;
  h_global = some h;
  p_lock = 1000;
  size = 4096;
}

abbrev not_drawn : CaptureAnswers
not_drawn = record { blt = false; p_stream = some 3; h_global = some 3; p_lock = 1000; size = 4096 }

abbrev rounds : List (Bool × CaptureAnswers)
rounds =
    (true, captured_at 41) ∷ (true, not_drawn) ∷ (true, captured_at 42) ∷ (false, not_drawn) ∷ []

abbrev screen : VideoCapture
screen = record { selected = 5; h_bmp = 6; locked = [] }

abbrev after_rounds : VideoStream
after_rounds = init_stream rounds (record { video_capture = screen; stream_container = [] })

two_locks : after_rounds.video_capture.locked ≡ 41 ∷ 42 ∷ []
unfolding init_stream
two_locks = refl

init_stream_lem_example :
    (after_rounds.video_capture.selected ≡ 5)
    × All Readable after_rounds.stream_container
    × (destroy_all after_rounds.stream_container after_rounds.video_capture.locked ≡ [])
init_stream_lem_example =
    init_stream_lem rounds screen
      ((λ e. ground arith), ((λ e. ground arith), ((λ e. ground arith), ((λ e. ground arith), tt))))
      refl

-- "bmp" and "jpeg" for the MIME types.
abbrev codecs : List ImageCodecInfo
codecs =
    record { mime_type = 98 ∷ 109 ∷ 112 ∷ []; clsid = 11 }
    ∷ record { mime_type = 106 ∷ 112 ∷ 101 ∷ 103 ∷ []; clsid = 12 }
    ∷ []

get_encoder_lem_example :
    (c : ℕ) × (get_encoder 2 codecs (106 ∷ 112 ∷ 101 ∷ 103 ∷ []) ≡ ok c)
    × Chooses (106 ∷ 112 ∷ 101 ∷ 103 ∷ []) codecs c
get_encoder_lem_example = get_encoder_lem (106 ∷ 112 ∷ 101 ∷ 103 ∷ []) codecs
