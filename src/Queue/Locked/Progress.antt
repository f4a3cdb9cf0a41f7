-- ===== src/Queue/Locked/Progress.antt =====
-- RDIBY/datastructures.h: nobody waits for a critical section that nobody leaves.
use lllsi.Base.{ℕ, ◌<◌, ◌≡◌, refl, false, List, [], ◌∷◌, none, update, ◌==◌, arith}
use lllsi.Queue.{SemaphoreApi}
use lllsi.Threads.Sections.{SectionApi}
use lllsi.Queue.Locked.{
  Pc, idle, push_write, push_leave, pop_read, pop_take, pop_leave, pop_failed, peek_read,
  peek_leave, peek_failed, push_enter, push_release, pop_enter, peek_enter, Memory, Move, writes,
  push_leaves, finds_empty, reads, takes, pop_leaves, pop_throws, peek_empty, peek_reads,
  peek_leaves, peek_throws, System, Step, pick, Reach, start, later,
}
use lllsi.Queue.Locked.Guarded.{inside, Reach-Guarded}

-- What is still to do before the section is left.
abbrev pub to_go : {A : Type 0} → Pc A → ℕ
to_go (push_write _) = 2
to_go push_leave = 1
to_go pop_read = 3
to_go (pop_take _) = 2
to_go (pop_leave _) = 1
to_go pop_failed = 1
to_go peek_read = 2
to_go (peek_leave _) = 1
to_go peek_failed = 1
to_go _ = 0

inside_one : {A : Type 0} (p : Pc A) → 0 < inside p → inside p ≡ 1
inside_one p h = ground arith

module _ (S : SemaphoreApi) (C : SectionApi) {A : Type 0} (insert : A → List A → List A) where
  abbrev Goes : ℕ → Memory S C insert → Pc A → Type 0
  Goes i m p =
      (t : Memory S C insert) × (q : Pc A) × (to_go q < to_go p) × Move S C insert i m p t q

  -- A thread in the section never waits there.
  line_pop : (i : ℕ) (m : Memory S C insert) (xs : List A) → m.shared.queue ≡ xs → Goes i m pop_read
  line_pop i m [] e = (_, _, omega arith, finds_empty e)
  line_pop i m (x ∷ xs) e = (_, _, omega arith, reads e)

  line_peek :
      (i : ℕ) (m : Memory S C insert) (xs : List A) → m.shared.queue ≡ xs → Goes i m peek_read
  line_peek i m [] e = (_, _, omega arith, peek_empty e)
  line_peek i m (x ∷ xs) e = (_, _, omega arith, peek_reads e)

  line_inside : (i : ℕ) (m : Memory S C insert) (p : Pc A) → 0 < inside p → Goes i m p
  line_inside i m (push_write item) h = (_, _, omega arith, writes)
  line_inside i m push_leave h = (_, _, omega arith, push_leaves)
  line_inside i m pop_read h = line_pop i m m.shared.queue refl
  line_inside i m (pop_take item) h = (_, _, omega arith, takes)
  line_inside i m (pop_leave item) h = (_, _, omega arith, pop_leaves)
  line_inside i m pop_failed h = (_, _, omega arith, pop_throws)
  line_inside i m peek_read h = line_peek i m m.shared.queue refl
  line_inside i m (peek_leave item) h = (_, _, omega arith, peek_leaves)
  line_inside i m peek_failed h = (_, _, omega arith, peek_throws)
  line_inside i m idle h = absurd (omega arith)
  line_inside i m (push_enter item) h = absurd (omega arith)
  line_inside i m push_release h = absurd (omega arith)
  line_inside i m pop_enter h = absurd (omega arith)
  line_inside i m peek_enter h = absurd (omega arith)

  -- Only the `n` threads are ever in the section.
  inside_below :
      {n : ℕ} {s : System S C insert} → Reach S C insert n s → (j : ℕ) → 0 < inside (s.pc j) → j < n
  inside_below start j h = absurd (omega arith)
  inside_below (later r (pick i lt mv)) j h = ground (arith, inside_below r j)

  abbrev pub Unblocks : ℕ → System S C insert → (j : ℕ) → Type 0
  Unblocks n s j =
      (t : Memory S C insert) × (q : Pc A) × (to_go q < to_go (s.pc j))
      × Step S C insert n s (record { memory = t; pc = update s.pc j q })

  -- When a thread has to wait for the critical section, however the lines of `n` threads interleaved
  -- before, another thread is in it, and that one can go on at once and is then nearer to leaving.
  pub Reach-Unblocks :
      {n : ℕ} {s : System S C insert} (i : ℕ)
      → Reach S C insert n s
      → C.enter_section i s.memory.access ≡ none
      → (j : ℕ) × ((i == j) ≡ false) × (inside (s.pc j) ≡ 1) × Unblocks n s j
  Reach-Unblocks {n} {s} i r waits =
      let (j, other, deep) = C.enter-waits i s.memory.access waits in
      let owned = (Reach-Guarded S C insert r).owns j in
      let (t, q, nearer, mv) = line_inside j s.memory (s.pc j) (omega (arith, owned)) in
      (
        j,
        other,
        inside_one (s.pc j) (omega (arith, owned)),
        (t, q, nearer, pick j (inside_below r j (omega (arith, owned))) mv),
      )
