-- ===== src/Video/Rounds.antt =====
-- The rounds of RDIBY/video.cpp `initStream`, one after the other.
use lllsi.Base.{
  ℕ, ◌≡◌, Bool, true, false, List, [], ◌∷◌, ◌++◌, map, refl, sym, append-nil, Option, none, some,
  Bool-cases, inl, inr, ◌==◌,
}
use lllsi.Video.{
  null, CaptureAnswers, VideoStream, FrameData, get_current_frame, take_frame, stream_round,
  init_stream,
}

-- A round of capturing puts the same frames behind those of any stream.
appended :
    (blt : Bool) (stream h_global : Option ℕ) (lock size : ℕ)
    → (g : List FrameData) × ((v : VideoStream)
        → (stream_round
            (record {
              blt = blt;
              p_stream = stream;
              h_global = h_global;
              p_lock = lock;
              size = size;
            })
            v).stream_container
          ≡ v.stream_container ++ g)
unfolding stream_round get_current_frame take_frame
appended false stream h_global lock size = ([], λ v. sym (append-nil _))
appended true none h_global lock size = ([], λ v. sym (append-nil _))
appended true (some s) none lock size = ([], λ v. sym (append-nil _))
appended true (some s) (some h) lock size = elim (Bool-cases (lock == null)) [
  | inl unmapped ↦ ([], λ v. rw unmapped (sym (append-nil _)))
  | inr mapped ↦ (
    record { p_frame = lock; h_mem_buf = h; p_stream = some s; frame_size = size } ∷ [],
    λ v. rw mapped refl,
  )
]

pub stream_round_appends :
    (a : CaptureAnswers)
    → (g : List FrameData) × ((v : VideoStream)
        → (stream_round a v).stream_container ≡ v.stream_container ++ g)
stream_round_appends a = appended a.blt a.p_stream a.h_global a.p_lock a.size

-- Rounds while the program is on.
abbrev pub rounds_of : List CaptureAnswers → List (Bool × CaptureAnswers)
rounds_of = map (λ a. (true, a))

pub init_stream_snoc :
    (answers : List CaptureAnswers) (a : CaptureAnswers) (v : VideoStream)
    → init_stream (rounds_of (answers ++ a ∷ [])) v
      ≡ stream_round a (init_stream (rounds_of answers) v)
unfolding init_stream
init_stream_snoc [] a v = refl
init_stream_snoc (b ∷ answers) a v = init_stream_snoc answers a (stream_round b v)
