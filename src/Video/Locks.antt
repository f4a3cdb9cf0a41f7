-- ===== src/Video/Locks.antt =====
-- The locks on the frames of RDIBY/video.cpp `getCurrentFrame` and `initStream`.
use lllsi.Base.{
  ℕ, ◌≡◌, refl, sym, ap, ◌∙◌, inl, inr, Bool, true, false, List, [], ◌∷◌, ◌++◌, ◌==◌, Option, none,
  some, All, Bool-cases, map, arith, ==_iff, ==_self,
}
use lllsi.Video.{
  null, FrameData, new_frame, destroy, CaptureAnswers, VideoCapture, get_current_frame, VideoStream,
  take_frame, stream_round, init_stream,
}

-- `GlobalLock` fails for a null handle.
abbrev pub Documented : CaptureAnswers → Type 0
Documented a = a.h_global ≡ some null → a.p_lock ≡ null

-- A frame that can be read and whose lock is given back.
abbrev pub Readable : FrameData → Type 0
Readable f = ((f.h_mem_buf == null) ≡ false) × ((f.p_frame == null) ≡ false)

-- What one call leaves: on success a readable frame with one more lock, on failure nothing of it.
data Captures (c : VideoCapture) (f : FrameData) : Bool × VideoCapture × FrameData → Type 0 where
  fails : Captures c f (false, c, f)
  captures :
      (g : FrameData)
      → Readable g
      → Captures c f (true, record c { locked = c.locked ++ g.h_mem_buf ∷ [] }, g)

capture_cases :
    (blt : Bool) (stream h_global : Option ℕ) (lock size : ℕ) (c : VideoCapture) (f : FrameData)
    → (h_global ≡ some null → lock ≡ null)
    → Captures c f (
        get_current_frame
          (record { blt = blt; p_stream = stream; h_global = h_global; p_lock = lock; size = size })
          c
          f)
unfolding get_current_frame
capture_cases false stream h_global lock size c f d = fails
capture_cases true none h_global lock size c f d = fails
capture_cases true (some stream) none lock size c f d = fails
capture_cases true (some stream) (some h) lock size c f d = elim (Bool-cases (lock == null)) [
  | inl unmapped ↦ rw unmapped fails
  | inr mapped ↦
      let valid : (h == null) ≡ false = elim (Bool-cases (h == null)) [
        | inl no_handle ↦ absurd (ground (arith, d (ap some ((==_iff h null).0 no_handle))))
        | inr valid ↦ valid
      ] in
      rw mapped (
        captures
          (record { p_frame = lock; h_mem_buf = h; p_stream = some stream; frame_size = size })
          (valid, mapped))
]

-- The container's frames can be read and hold the only locks, and the bitmap selected is the old one.
pub record Holds (selected : ℕ) (v : VideoStream) : Type 0 where
  pub readable : All Readable v.stream_container
  pub locks : v.video_capture.locked ≡ map (λ (f : FrameData). f.h_mem_buf) v.stream_container
  pub restored : v.video_capture.selected ≡ selected

All-append :
    (fs : List FrameData) (f : FrameData)
    → All Readable fs
    → Readable f
    → All Readable (fs ++ f ∷ [])
All-append [] f l r = (r, tt)
All-append (g ∷ fs) f (q, l) r = (q, All-append fs f l r)

handles-append :
    (fs : List FrameData) (f : FrameData)
    → map (λ (g : FrameData). g.h_mem_buf) (fs ++ f ∷ [])
      ≡ map (λ (g : FrameData). g.h_mem_buf) fs ++ f.h_mem_buf ∷ []
handles-append [] f = refl
handles-append (g ∷ fs) f = ap (◌∷◌ g.h_mem_buf) (handles-append fs f)

take_frame-Holds :
    (selected : ℕ) (v : VideoStream) (r : Bool × VideoCapture × FrameData)
    → Captures v.video_capture new_frame r
    → Holds selected v
    → Holds selected (take_frame v r)
unfolding take_frame destroy
take_frame-Holds selected v _ fails h = h
take_frame-Holds selected v _ (captures g r) h = record {
  readable = All-append v.stream_container g h.readable r;
  locks =
      ap (λ (z : List ℕ). z ++ g.h_mem_buf ∷ []) h.locks
      ∙ sym (handles-append v.stream_container g);
  restored = h.restored;
}

pub stream_round-Holds :
    (selected : ℕ) (a : CaptureAnswers) (v : VideoStream)
    → Documented a
    → Holds selected v
    → Holds selected (stream_round a v)
unfolding stream_round
stream_round-Holds selected a v d h =
    take_frame-Holds selected v _
      (capture_cases a.blt a.p_stream a.h_global a.p_lock a.size v.video_capture new_frame d) h

init_stream-Holds :
    (selected : ℕ) (rounds : List (Bool × CaptureAnswers)) (v : VideoStream)
    → All (λ (round : Bool × CaptureAnswers). Documented round.1) rounds
    → Holds selected v
    → Holds selected (init_stream rounds v)
unfolding init_stream
init_stream-Holds selected [] v d h = h
init_stream-Holds selected ((false, a) ∷ rounds) v d h = h
init_stream-Holds selected ((true, a) ∷ rounds) v (d, ds) h =
    init_stream-Holds selected rounds (stream_round a v) ds (stream_round-Holds selected a v d h)

-- Every frame of the container is let go.
abbrev pub destroy_all : List FrameData → List ℕ → List ℕ
destroy_all [] locked = locked
destroy_all (f ∷ fs) locked = destroy_all fs (destroy f locked)

destroy_all_lem :
    (fs : List FrameData)
    → All Readable fs
    → destroy_all fs (map (λ (f : FrameData). f.h_mem_buf) fs) ≡ []
unfolding destroy
destroy_all_lem [] l = refl
destroy_all_lem (f ∷ fs) ((h, p), l) = rw (h, p, ==_self f.h_mem_buf) (destroy_all_lem fs l)

-- When GlobalLock fails for a null handle: however the calls of a stream's rounds end, the bitmap that
-- was selected is selected again, every frame in the container can be read, and when the frames are
-- let go no lock is left.
pub init_stream_lem :
    (rounds : List (Bool × CaptureAnswers)) (c : VideoCapture)
    → All (λ (round : Bool × CaptureAnswers). Documented round.1) rounds
    → c.locked ≡ []
    → (let v = init_stream rounds (record { video_capture = c; stream_container = [] }) in
        (v.video_capture.selected ≡ c.selected)
        × All Readable v.stream_container
        × (destroy_all v.stream_container v.video_capture.locked ≡ []))
init_stream_lem rounds c d none_held =
    let v : VideoStream = record { video_capture = c; stream_container = [] } in
    let h =
      init_stream-Holds c.selected rounds v d
        (record { readable = tt; locks = none_held; restored = refl }) in
    let after = init_stream rounds v in
    (
      h.restored,
      h.readable,
      ap (destroy_all after.stream_container) h.locks
          ∙ destroy_all_lem after.stream_container h.readable,
    )
