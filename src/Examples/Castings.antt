-- ===== src/Examples/Castings.antt =====
-- One frame is captured and sent while another follows.
use lllsi.Base.{ℕ, ◌≡◌, refl, List, [], ◌∷◌, ◌++◌, map, some, true, arith}
use mathlib.Core.List.{flatten}
use lllsi.Packet.{Bytes}
use lllsi.Video.{
  FrameData, CaptureAnswers, init_stream, stream_round, get_current_frame, take_frame,
}
use lllsi.Host.{PacketManager}
use lllsi.Host.Fragments.{Fits}
use lllsi.Host.Sending.{send_frame_lem}
use lllsi.Host.Casting.{
  Cast, outgoing, screen_stream, let_go, Reach, begins, later, captures, sends, answered,
  start_cast,
}
use lllsi.Host.Casting.Carried.{NextSent, payloads, Reach-carried}
use lllsi.Video.Rounds.{rounds_of}

abbrev pixels : FrameData → Bytes
pixels f = f.h_mem_buf ∷ 7 ∷ 8 ∷ []

abbrev captured_at : ℕ → CaptureAnswers
captured_at h = record { blt = true; p_stream = some h; h_global = some h; p_lock = 1000; size = 3 }

abbrev frame_at : ℕ → FrameData
frame_at h = record { p_frame = 1000; h_mem_buf = h; p_stream = some h; frame_size = 3 }

frame_41-Fits : Fits (outgoing pixels (frame_at 41))
unfolding outgoing screen_stream
frame_41-Fits = record { chunk_size = refl; bytes = ground arith }

abbrev after_41 : PacketManager
after_41 =
    (send_frame_lem (outgoing pixels (frame_at 41)) frame_41-Fits 0 (start_cast 5 6).manager
      (omega arith)).0

abbrev one_waits : Cast
one_waits = record {
  video =
      stream_round (captured_at 42)
        (let_go (frame_at 41) [] (stream_round (captured_at 41) (start_cast 5 6).video));
  manager = after_41;
  frame_num = 1;
}

one_frame :
    (stream_round (captured_at 41) (start_cast 5 6).video).stream_container ≡ frame_at 41 ∷ []
unfolding stream_round get_current_frame take_frame
one_frame = refl

one_waits-Reach : Reach pixels (start_cast 5 6) one_waits
one_waits-Reach =
    later
      (later (later begins (captures (captured_at 41) (λ e. ground arith))) (
        sends (frame_at 41) [] after_41 one_frame
          (send_frame_lem (outgoing pixels (frame_at 41)) frame_41-Fits 0 (start_cast 5 6).manager
            (omega arith)).2))
      (captures (captured_at 42) (λ e. ground arith))

Reach-carried_example :
    (taken : List FrameData) × ((init_stream
        (rounds_of (answered one_waits-Reach))
        (start_cast 5 6).video).stream_container
      ≡ taken ++ one_waits.video.stream_container)
    × (payloads one_waits.manager.sent ≡ flatten (map pixels taken))
    × (one_waits.video.video_capture.locked
        ≡ map (λ (f : FrameData). f.h_mem_buf) one_waits.video.stream_container)
    × NextSent pixels one_waits one_waits.video.stream_container
Reach-carried_example = Reach-carried pixels (λ f. ground arith) 5 6 one_waits one_waits-Reach
