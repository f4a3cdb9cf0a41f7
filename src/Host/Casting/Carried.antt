-- ===== src/Host/Casting/Carried.antt =====
-- VideoHost/main.cpp: capturing and sending at once, against capturing all and then sending it.
use mathlib.Core.List.{flatten}
use lllsi.Base.{
  ℕ, ◌+◌, ◌*◌, ◌%◌, ◌≤◌, ◌<◌, ◌≡◌, List, [], ◌∷◌, ◌++◌, length, drop, ok, map, All, arith, refl,
  sym, ap, ◌∙◌, subst, ok-inj, append_assoc, append-nil, ==_self,
}
use lllsi.Packet.{Bytes, dword, sizeof_rtmp_packet}
use lllsi.Video.{FrameData, CaptureAnswers, VideoStream, destroy, stream_round, init_stream}
use lllsi.Video.Rounds.{stream_round_appends, rounds_of, init_stream_snoc}
use lllsi.Video.Locks.{Documented, Readable, Holds, stream_round-Holds}
use lllsi.Host.{PacketManager, send_frame}
use lllsi.Host.Fragments.{payload_bytes, Fits}
use lllsi.Host.Sending.{send_frame_lem}
use lllsi.Host.Casting.{
  Cast, answered, start_cast, let_go, outgoing, screen_stream, captures, sends, Reach, begins,
  later,
}

flatten-map_snoc :
    {A : Type 0} (h : A → Bytes) (xs : List A) (x : A)
    → flatten (map h (xs ++ x ∷ [])) ≡ flatten (map h xs) ++ h x
unfolding flatten
flatten-map_snoc h [] x = append-nil _
flatten-map_snoc h (y ∷ xs) x =
    ap (◌++◌ (h y)) (flatten-map_snoc h xs x) ∙ sym (append_assoc (h y) (flatten (map h xs)) (h x))

-- The payloads of datagrams, one behind the other.
abbrev pub payloads : List Bytes → Bytes
payloads out = flatten (map (drop sizeof_rtmp_packet) out)

payloads-append : (xs ys : List Bytes) → payloads (xs ++ ys) ≡ payloads xs ++ payloads ys
unfolding flatten
payloads-append [] ys = refl
payloads-append (x ∷ xs) ys =
    ap (◌++◌ (drop sizeof_rtmp_packet x)) (payloads-append xs ys)
    ∙ sym (append_assoc (drop sizeof_rtmp_packet x) (payloads xs) (payloads ys))

let_go-Holds :
    (selected : ℕ) (f : FrameData) (rest : List FrameData) (v : VideoStream)
    → v.stream_container ≡ f ∷ rest
    → Holds selected v
    → Holds selected (let_go f rest v)
unfolding let_go destroy
let_go-Holds selected f rest v e h =
    let (r, rs) = subst (All Readable) e h.readable in
    record {
      readable = rs;
      locks =
          ap (destroy f) (h.locks ∙ ap (map (λ (g : FrameData). g.h_mem_buf)) e)
          ∙ (rw (r.0, r.1, ==_self f.h_mem_buf) refl);
      restored = h.restored;
    }

-- When a frame waits, the next round of `sendStream` sends it.
abbrev pub NextSent : (contents : FrameData → Bytes) → Cast → List FrameData → Type 0
NextSent contents c [] = Unit
NextSent contents c (f ∷ rest) =
    (m : PacketManager) × (send_frame (outgoing contents f) c.frame_num c.manager ≡ ok m)

-- The frames fit the sixteen-bit count of packets.
module _ (contents : FrameData → Bytes)
    (small : (f : FrameData) → length (contents f) ≤ 65535 * payload_bytes) where
  outgoing-Fits : (f : FrameData) → Fits (outgoing contents f)
  unfolding outgoing screen_stream
  outgoing-Fits f = record { chunk_size = refl; bytes = small f }

  record Kept (start : Cast) (answers : List CaptureAnswers) (c : Cast) : Type 0 where
    taken : List FrameData
    captured :
        (init_stream (rounds_of answers) start.video).stream_container
        ≡ taken ++ c.video.stream_container
    holds : Holds start.video.video_capture.selected c.video
    carried : payloads c.manager.sent ≡ flatten (map contents taken)
    bounded : c.manager.sequence_number < dword

  captures-Kept :
      (start c : Cast) (answers : List CaptureAnswers) (a : CaptureAnswers)
      → Documented a
      → Kept start answers c
      → Kept start (answers ++ a ∷ []) (record c { video = stream_round a c.video })
  captures-Kept start c answers a documented k =
      let (g, appends) = stream_round_appends a in
      record {
        taken = k.taken;
        captured =
            ap (λ (v : VideoStream). v.stream_container) (init_stream_snoc answers a start.video)
            ∙ appends (init_stream (rounds_of answers) start.video)
            ∙ ap (λ (fs : List FrameData). fs ++ g) k.captured
            ∙ append_assoc k.taken c.video.stream_container g
            ∙ ap (◌++◌ k.taken) (sym (appends c.video));
        holds = stream_round-Holds _ a c.video documented k.holds;
        carried = k.carried;
        bounded = k.bounded;
      }

  sends-Kept :
      (start c : Cast) (answers : List CaptureAnswers) (f : FrameData) (rest : List FrameData)
      (m : PacketManager)
      → c.video.stream_container ≡ f ∷ rest
      → send_frame (outgoing contents f) c.frame_num c.manager ≡ ok m
      → Kept start answers c
      → Kept start answers (record {
        video = let_go f rest c.video;
        manager = m;
        frame_num = (c.frame_num + 1) % dword;
      })
  unfolding let_go outgoing flatten
  sends-Kept start c answers f rest m e run k =
      let (m', out, run', sent, _, _, whole, sequence) =
        send_frame_lem (outgoing contents f) (outgoing-Fits f) c.frame_num c.manager k.bounded in
      let same : m ≡ m' = ok-inj (sym run ∙ run') in
      record {
        taken = k.taken ++ f ∷ [];
        captured = k.captured ∙ ap (◌++◌ k.taken) e ∙ sym (append_assoc k.taken (f ∷ []) rest);
        holds = let_go-Holds _ f rest c.video e k.holds;
        carried =
            ap (λ (n : PacketManager). payloads n.sent) same
            ∙ ap payloads sent
            ∙ payloads-append c.manager.sent out
            ∙ ap (λ (b : Bytes). b ++ payloads out) k.carried
            ∙ ap (◌++◌ (flatten (map contents k.taken))) whole
            ∙ sym (flatten-map_snoc contents k.taken f);
        bounded = omega (arith, sequence, ap (λ (n : PacketManager). n.sequence_number) same);
      }

  Reach-Kept :
      (start c : Cast) (r : Reach contents start c)
      → Kept start [] start
      → Kept start (answered r) c
  Reach-Kept start _ begins k = k
  Reach-Kept start _ (later {c} r (captures a documented)) k =
      captures-Kept start c (answered r) a documented (Reach-Kept start c r k)
  Reach-Kept start _ (later {c} r (sends f rest m e run)) k =
      sends-Kept start c (answered r) f rest m e run (Reach-Kept start c r k)

  next_sent :
      (c : Cast) (fs : List FrameData) → c.manager.sequence_number < dword → NextSent contents c fs
  next_sent c [] bounded = tt
  next_sent c (f ∷ rest) bounded =
      let sent =
        send_frame_lem (outgoing contents f) (outgoing-Fits f) c.frame_num c.manager bounded in
      (sent.0, sent.2)

  -- When a frame has at most 65535 * 4060 bytes and GlobalLock fails for a null handle: however main's
  -- rounds of capturing and the sender's rounds follow each other, the frames that were taken from the
  -- queue and those in it are, in order, the frames that the same captures alone give; the payloads
  -- sent are the bytes of the frames taken, in their order; the locks held are those of the frames in
  -- the queue; and when a frame is in the queue the sender's next round succeeds.
  pub Reach-carried :
      (selected h_bmp : ℕ) (c : Cast) (r : Reach contents (start_cast selected h_bmp) c)
      → (taken : List FrameData) × ((init_stream
            (rounds_of (answered r))
            (start_cast selected h_bmp).video).stream_container
          ≡ taken ++ c.video.stream_container)
        × (payloads c.manager.sent ≡ flatten (map contents taken))
        × (c.video.video_capture.locked
            ≡ map (λ (f : FrameData). f.h_mem_buf) c.video.stream_container)
        × NextSent contents c c.video.stream_container
  unfolding init_stream flatten
  Reach-carried selected h_bmp c r =
      let k = Reach-Kept (start_cast selected h_bmp) c r (record {
        captured = refl;
        taken = [];
        holds = record { readable = tt; locks = refl; restored = refl };
        carried = refl;
        bounded = omega arith;
      }) in
      (
        k.taken,
        k.captured,
        k.carried,
        k.holds.locks,
        next_sent c c.video.stream_container k.bounded,
      )
