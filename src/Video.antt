-- ===== src/Video.antt =====
-- Capturing the screen: RDIBY/video.h and RDIBY/video.cpp, which VideoHost copies. What GDI, GDI+ and
-- the memory manager answer is an argument.
pub mod Encoder
pub mod Locks
pub mod Rounds
use lllsi.Base.{
  ℕ, zero, suc, ◌+◌, Bool, true, false, List, [], ◌∷◌, ◌++◌, ◌==◌, ◌&&◌, not, length, get_elem?,
  Option, none, some, Result, ok, ◌>>=◌, or_fail, if◌then◌else◌,
}
use lllsi.Base.Error.{out_of_bounds}

-- `NULL` and `CLSID_NULL`.
abbrev pub null : ℕ
null = 0

pub record FrameData : Type 0 where
  pub p_frame : ℕ
  pub h_mem_buf : ℕ
  pub p_stream : Option ℕ
  pub frame_size : ℕ

abbrev pub new_frame : FrameData
new_frame = record { p_frame = null; h_mem_buf = null; p_stream = none; frame_size = 0 }

-- One lock on a block of memory is given back.
abbrev pub global_unlock : ℕ → List ℕ → List ℕ
global_unlock h [] = []
global_unlock h (x ∷ locked) = if x == h then locked else x ∷ global_unlock h locked

-- `~frame_data_t`, on the list of locks held.
unfoldable pub destroy : FrameData → List ℕ → List ℕ
destroy f locked =
    if not (f.h_mem_buf == null) && not (f.p_frame == null)
    then global_unlock f.h_mem_buf locked
    else locked

unfoldable pub reset : FrameData → List ℕ → FrameData × List ℕ
unfolding destroy
reset f locked = (new_frame, destroy f locked)

-- An entry of the list that `GetImageEncoders` fills.
pub record ImageCodecInfo : Type 0 where
  pub mime_type : List ℕ
  pub clsid : ℕ

-- `wcscmp` is 0.
abbrev pub same_string : List ℕ → List ℕ → Bool
same_string [] [] = true
same_string [] (d ∷ ds) = false
same_string (c ∷ cs) [] = false
same_string (c ∷ cs) (d ∷ ds) = (c == d) && same_string cs ds

unfoldable pub encoder_loop : (rounds i : ℕ) → List ImageCodecInfo → List ℕ → Result ℕ
encoder_loop zero i enc encoder_name = ok null
encoder_loop (suc rounds) i enc encoder_name =
    let rest = encoder_loop rounds (i + 1) enc encoder_name in
    or_fail (get_elem? enc i) out_of_bounds >>= λ codec.
    (if same_string codec.mime_type encoder_name then ok codec.clsid else rest)

unfoldable pub get_encoder : (count : ℕ) → List ImageCodecInfo → List ℕ → Result ℕ
unfolding encoder_loop
get_encoder count enc encoder_name = encoder_loop count 0 enc encoder_name

-- The answers in one call of `getCurrentFrame`: whether `BitBlt` succeeds, the stream of `encodeFrame`,
-- the memory behind it, where `GlobalLock` maps it, and its size.
pub record CaptureAnswers : Type 0 where
  pub blt : Bool
  pub p_stream : Option ℕ
  pub h_global : Option ℕ
  pub p_lock : ℕ
  pub size : ℕ

-- The bitmap selected into `hMem`, `hBmp`, and the locks held by the process.
pub record VideoCapture : Type 0 where
  pub selected : ℕ
  pub h_bmp : ℕ
  pub locked : List ℕ

unfoldable pub get_current_frame :
    CaptureAnswers → VideoCapture → FrameData → Bool × VideoCapture × FrameData
get_current_frame a c f =
    let old_bmp = c.selected in
    let drawn : VideoCapture = record c { selected = c.h_bmp } in
    let restored : VideoCapture = record drawn { selected = old_bmp } in
    if not a.blt then (false, restored, f) else (elim a.p_stream [
      | none ↦ (false, restored, f)
      | some stream ↦ elim a.h_global [
        | none ↦ (false, restored, f)
        | some h_mem_buf ↦ if a.p_lock == null then (false, restored, f) else (
          true,
          record restored { locked = c.locked ++ h_mem_buf ∷ [] },
          record {
            p_frame = a.p_lock;
            h_mem_buf = h_mem_buf;
            p_stream = some stream;
            frame_size = a.size;
          },
        )
      ]
    ])

-- `VideoStream`, with the frames in its container.
pub record VideoStream : Type 0 where
  pub video_capture : VideoCapture
  pub stream_container : List FrameData

-- What becomes of a captured frame; one that failed ends with the round.
unfoldable pub take_frame : VideoStream → Bool × VideoCapture × FrameData → VideoStream
unfolding destroy
take_frame v (captured, c, f) =
    if captured
    then record { video_capture = c; stream_container = v.stream_container ++ f ∷ [] }
    else record v { video_capture = record c { locked = destroy f c.locked } }

unfoldable pub stream_round : CaptureAnswers → VideoStream → VideoStream
unfolding get_current_frame take_frame
stream_round a v = take_frame v (get_current_frame a v.video_capture new_frame)

-- The loop, with what `isProgramOn` says and what is answered in each round.
unfoldable pub init_stream : List (Bool × CaptureAnswers) → VideoStream → VideoStream
unfolding stream_round
init_stream [] v = v
init_stream ((program_on, a) ∷ rounds) v =
    if program_on then init_stream rounds (stream_round a v) else v
