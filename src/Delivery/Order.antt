-- ===== src/Delivery/Order.antt =====
-- The packets of one frame taken in, one after the other, in any order.
use mathlib.Core.List.{Mem, Perm, foldr, mem-cons, mem-cons_self, mem-cons_of_mem, not-mem-nil}
use mathlib.Core.List.Perm
use mathlib.Core.Logic.Or
use native.Mathlib.Bridge.{le_prop}
use native.Mathlib.Nat.{ℕ_set}
use lllsi.Base.{
  ℕ, zero, suc, ◌+◌, ◌-◌, ◌*◌, ◌%◌, ◌≤◌, ◌<◌, ◌≡◌, refl, ap, sym, ◌∙◌, ◌⊎◌, inl, inr, false, List,
  [], ◌∷◌, ◌++◌, ◌==◌, leb, Bool-cases, subst, if◌then◌else◌, is_empty, map, length, lookup, some,
  ok, arith,
}
use lllsi.Packet.{Bytes, dword}
use lllsi.Host.{StreamFrame, total_packets}
use lllsi.Host.Fragments.{payload_bytes, Fits, chunk_size_of, fragment, data_offset-lt}
use lllsi.Viewer.{Viewer, FrameBuffer, receive, consume}
use lllsi.Delivery.Buffer.{Agrees, Agrees-with_chunk}
use lllsi.Delivery.Step.{Progress, next_buffer}
use lllsi.Delivery.Turn.{deliver, turn_lem}

-- `m` numbers from `i` on.
unfoldable pub range_from : (i m : ℕ) → List ℕ
range_from i zero = []
range_from i (suc m) = i ∷ range_from (i + 1) m

abbrev pub sum_chunks : ℕ → List ℕ → ℕ
sum_chunks l is = foldr (λ i t. chunk_size_of l i + t) 0 is

pub sum_chunks-perm : (l : ℕ) {xs ys : List ℕ} → Perm xs ys → sum_chunks l xs ≡ sum_chunks l ys
sum_chunks-perm l p = Perm.foldr-eq ℕ_set (λ i t. chunk_size_of l i + t) (λ a b x. omega arith) p 0

-- The chunks from the `i`th on hold what lies behind them.
pub sum_chunks-range_from :
    (l i m : ℕ)
    → l ≤ (i + m) * payload_bytes
    → sum_chunks l (range_from i m) ≡ l - i * payload_bytes
unfolding range_from
sum_chunks-range_from l i zero h = omega arith
sum_chunks-range_from l i (suc m) h = omega (arith, sum_chunks-range_from l (i + 1) m (omega arith))

pub lt_of_mem-range_from : (k i m : ℕ) → Mem k (range_from i m) → k < i + m
unfolding range_from
lt_of_mem-range_from k i zero h = absurd (not-mem-nil h)
lt_of_mem-range_from k i (suc m) h =
    Or.elim le_prop (mem-cons.0 h) (λ e. omega arith)
      (λ r. omega (arith, lt_of_mem-range_from k (i + 1) m r))

pub mem-range_from : (k i m : ℕ) → i ≤ k → k < i + m → Mem k (range_from i m)
unfolding range_from
mem-range_from k i zero lo hi = absurd (omega arith)
mem-range_from k i (suc m) lo hi = elim (Bool-cases (leb k i)) [
  | inl e ↦
      let here : i ≡ k = ground arith in
      subst (λ a. Mem k (a ∷ range_from (i + 1) m)) (sym here) mem-cons_self
  | inr ne ↦ mem-cons_of_mem i (mem-range_from k (i + 1) m (ground arith) (omega arith))
]

-- The frame is announced by the packet that completes it, and by no other.
queue_after :
    (f : StreamFrame) (v : Fits f) (frame_num : ℕ) (is : List ℕ) (t n : ℕ) (q q1 q2 : List ℕ)
    → ((i : ℕ) → Mem i is → i < total_packets f)
    → t + n + sum_chunks (length f.bytes) is ≡ length f.bytes
    → q1 ≡ (if t + n == length f.bytes then q ++ frame_num ∷ [] else q)
    → q2 ≡ (if is_empty is then q1 else q1 ++ frame_num ∷ [])
    → q2 ≡ q ++ frame_num ∷ []
queue_after f v frame_num [] t n q q1 q2 bound whole e1 e2 = ground arith
queue_after f v frame_num (j ∷ js) t n q q1 q2 bound whole e1 e2 =
    ground (arith, data_offset-lt f v j (bound j mem-cons_self))

Agrees-prop : (f : StreamFrame) (fb : FrameBuffer) (j : ℕ) → IsProp (Agrees f fb j)
Agrees-prop f fb j = hlevel

module _ {B : Type 0} (f : StreamFrame) (v : Fits f) (frame_num : ℕ) (hf : frame_num < dword)
    (junk : ℕ → Bytes) (s : ℕ → ℕ) (hs : (i : ℕ) → s i < dword) where
  -- The viewer `c'` has taken in the packets numbered `is`, and `c` none of them.
  pub record TakenIn (is : List ℕ) (t : ℕ) (c c' : Viewer B) : Type 0 where
    pub progress : Progress f frame_num t c'
    pub empty : c'.packet_queue ≡ []
    pub waiting : c'.bitmaps ≡ c.bitmaps
    pub others :
        (g : ℕ) → (frame_num == g) ≡ false → lookup g c'.active_frames ≡ lookup g c.active_frames
    pub stored :
        is_empty is ≡ false
        → lookup frame_num c'.active_frames ≡ some (next_buffer (length f.bytes) frame_num c')
    pub kept_stored :
        lookup frame_num c.active_frames ≡ some (next_buffer (length f.bytes) frame_num c)
        → lookup frame_num c'.active_frames ≡ some (next_buffer (length f.bytes) frame_num c')
    pub kept :
        (j : ℕ)
        → j < length f.bytes
        → Agrees f (next_buffer (length f.bytes) frame_num c) j
        → Agrees f (next_buffer (length f.bytes) frame_num c') j
    pub filled :
        (i j : ℕ)
        → Mem i is
        → j < length f.bytes
        → i * payload_bytes ≤ j
        → j < (i + 1) * payload_bytes
        → Agrees f (next_buffer (length f.bytes) frame_num c') j

  -- One turn, with what is still missing.
  turn-TakenIn :
      (i t : ℕ) (c : Viewer B)
      → i < total_packets f
      → t + chunk_size_of (length f.bytes) i ≤ length f.bytes
      → Progress f frame_num t c
      → c.packet_queue ≡ []
      → (c' : Viewer B) × (consume (receive (junk i) (some (fragment f frame_num (s i) i)) c)
          ≡ ok c')
        × TakenIn (i ∷ []) (t + chunk_size_of (length f.bytes) i) c c'
        × (c'.frame_num_queue ≡ (
            if t + chunk_size_of (length f.bytes) i == length f.bytes
            then c.frame_num_queue ++ frame_num ∷ []
            else c.frame_num_queue))
  turn-TakenIn i t c h fits p e =
      let L = length f.bytes in
      let n = chunk_size_of L i in
      let (c', run, turned) = turn_lem f v frame_num hf i (s i) t (junk i) c (hs i) h p e in
      let whole : (t + n) % dword ≡ t + n = omega (arith, v.bytes) in
      let agrees : (j : ℕ)
          → j < L
          → ((i * payload_bytes ≤ j) × (j < (i + 1) * payload_bytes))
            ⊎ Agrees f (next_buffer L frame_num c) j
          → Agrees f (next_buffer L frame_num c') j =
        λ j hj was.
          subst (λ (b : FrameBuffer). Agrees f b j) (sym turned.copied)
            (Agrees-with_chunk f v frame_num hf i j (next_buffer L frame_num c) h p.sized hj was) in
      (
        c',
        run,
        record {
          progress = record {
            sized = turned.progress.sized;
            expected = turned.progress.expected;
            counted = turned.progress.counted ∙ whole;
          };
          empty = turned.empty;
          waiting = turned.waiting;
          others = turned.others;
          stored = λ _. turned.stored;
          kept_stored = λ _. turned.stored;
          kept = λ j hj a. agrees j hj (inr a);
          filled = λ k j m hj lo hi.
              Or.elim (Agrees-prop f (next_buffer L frame_num c') j) (mem-cons.0 m)
                (λ same. agrees j hj (inl (omega arith, omega arith)))
                (λ none. absurd (not-mem-nil none));
        },
        turned.queued
            ∙ ap
                (λ (k : ℕ).
                  if k == L then c.frame_num_queue ++ frame_num ∷ [] else c.frame_num_queue)
                whole,
      )

  TakenIn-cons :
      (i : ℕ) (is : List ℕ) (t u : ℕ) (c c1 c2 : Viewer B)
      → TakenIn (i ∷ []) t c c1
      → TakenIn is u c1 c2
      → TakenIn (i ∷ is) u c c2
  TakenIn-cons i is t u c c1 c2 first rest = record {
    progress = rest.progress;
    empty = rest.empty;
    waiting = rest.waiting ∙ first.waiting;
    others = λ g ne. rest.others g ne ∙ first.others g ne;
    stored = λ _. rest.kept_stored (first.stored refl);
    kept_stored = λ h. rest.kept_stored (first.kept_stored h);
    kept = λ j hj a. rest.kept j hj (first.kept j hj a);
    filled = λ k j m hj lo hi.
        Or.elim (Agrees-prop f (next_buffer (length f.bytes) frame_num c2) j) (mem-cons.0 m)
          (λ e. rest.kept j hj (first.filled k j (mem-cons.1 (Or.inl e)) hj lo hi))
          (λ r. rest.filled k j r hj lo hi);
  }

  -- From a viewer that misses exactly the packets `is`, to one that announces the frame.
  pub deliver-TakenIn :
      (is : List ℕ) (t : ℕ) (c : Viewer B)
      → ((i : ℕ) → Mem i is → i < total_packets f)
      → t + sum_chunks (length f.bytes) is ≡ length f.bytes
      → Progress f frame_num t c
      → c.packet_queue ≡ []
      → (c' : Viewer B) × (deliver (map (λ i. (junk i, fragment f frame_num (s i) i)) is) c ≡ ok c')
        × TakenIn is (length f.bytes) c c'
        × (c'.frame_num_queue
            ≡ (if is_empty is then c.frame_num_queue else c.frame_num_queue ++ frame_num ∷ []))
  unfolding deliver
  deliver-TakenIn [] t c bound whole p e = (
    c,
    refl,
    record {
      progress = record {
        sized = p.sized;
        expected = p.expected;
        counted = p.counted ∙ omega arith;
      };
      empty = e;
      waiting = refl;
      others = λ g ne. refl;
      stored = λ h. cc;
      kept_stored = λ h. h;
      kept = λ j hj a. a;
      filled = λ i j m hj lo hi. absurd (not-mem-nil m);
    },
    refl,
  )
  deliver-TakenIn (i ∷ is) t c bound whole p e =
      let n = chunk_size_of (length f.bytes) i in
      let (c1, run1, first, q1) = turn-TakenIn i t c (bound i mem-cons_self) (omega arith) p e in
      let (c2, run2, rest, q2) =
        deliver-TakenIn is (t + n) c1 (λ k m. bound k (mem-cons_of_mem i m)) (omega arith)
          first.progress first.empty in
      (
        c2,
        rw run1 run2,
        TakenIn-cons i is (t + n) (length f.bytes) c c1 c2 first rest,
        queue_after f v frame_num is t n c.frame_num_queue c1.frame_num_queue c2.frame_num_queue
            (λ k m. bound k (mem-cons_of_mem i m)) (omega arith) q1 q2,
      )
