-- ===== src/Queue/Locked/Atomic.antt =====
-- RDIBY/datastructures.h: with the critical section, the lines of `Push` and `Pop` act like the steps
-- of Queue/Interleaving, where a section is one step.
use lllsi.Base.{
  ℕ, suc, ◌+◌, ◌<◌, ◌≡◌, refl, sym, ap, ◌∙◌, Bool, List, [], ◌∷◌, length, ok, update, update_other,
  ◌==◌, Bool-cases, inl, inr, arith, if◌then◌else◌, total, total-update, total-zero, le-total,
  subst, ◌>>=◌,
}
use lllsi.Queue.{SemaphoreApi, ThreadSafeQueue, dequeue, uncons, taken}
use lllsi.Queue.Interleaving.{Machine, Reachable, Reachable-Backed, after, enqueues, dequeues}
use lllsi.Queue.Interleaving as Coarse
use lllsi.Threads.Sections.{SectionApi}
use lllsi.Queue.Locked.{
  Pc, idle, push_enter, push_write, push_leave, push_release, pop_enter, pop_read, pop_take,
  pop_leave, pop_failed, peek_enter, peek_read, peek_leave, peek_failed, Memory, Move, pushes,
  push_enters, writes, push_leaves, releases, waits, pop_enters, finds_empty, reads, takes,
  pop_leaves, pop_throws, peeks, peek_enters, peek_empty, peek_reads, peek_leaves, peek_throws,
  System, pick, Reach, start, later, remove_front, rest_of,
}
use lllsi.Queue.Locked.Guarded.{Reach-Guarded}

-- A thread between the write of `Push` and its release, and one between the wait of `Pop` and the
-- removal.
abbrev pub is_pushing : {A : Type 0} → Pc A → ℕ
is_pushing push_leave = 1
is_pushing push_release = 1
is_pushing _ = 0

abbrev pub is_popping : {A : Type 0} → Pc A → ℕ
is_popping pop_enter = 1
is_popping pop_read = 1
is_popping (pop_take _) = 1
is_popping pop_failed = 1
is_popping _ = 0

module _ (S : SemaphoreApi) (C : SectionApi) {A : Type 0} (insert : A → List A → List A) where
  abbrev machine : ThreadSafeQueue S A → ℕ → ℕ → Machine S insert
  machine q i o = record { shared = q; pushing = i; popping = o }

  -- What the state is for someone who sees only whole sections.
  abbrev pub atomic : (n : ℕ) → System S C insert → Machine S insert
  atomic n s = machine s.memory.shared (total is_pushing n s.pc) (total is_popping n s.pc)

  counted :
      {q : ThreadSafeQueue S A} {i o j k : ℕ}
      → i ≡ j
      → o ≡ k
      → Reachable S insert (machine q i o)
      → Reachable S insert (machine q j k)
  counted {q} {i} {o} {j} {k} e f r =
      subst (λ (x : ℕ). Reachable S insert (machine q j x)) f
        (subst (λ (x : ℕ). Reachable S insert (machine q x o)) e r)

  dequeue_front :
      (q : ThreadSafeQueue S A) (item : A) (rest : List A)
      → q.queue ≡ item ∷ rest
      → dequeue S q ≡ ok (item, remove_front S C insert q)
  dequeue_front q item rest e =
      ap (λ (xs : List A). uncons S xs >>= λ (split : A × List A). ok (taken S q split)) e
      ∙ ap (λ (xs : List A). ok (taken S q (item, rest_of xs))) (sym e)

  module _ (n : ℕ) (s : System S C insert) (i : ℕ) (lt : i < n)
      (r : Reachable S insert (atomic n s)) where
    exchange :
        (w : Pc A → ℕ) {p : Pc A} (q : Pc A)
        → s.pc i ≡ p
        → total w n (update s.pc i q) + w p ≡ total w n s.pc + w q
    exchange w q e = omega (arith, total-update w n s.pc i q lt, ap w e)

    -- A line that shows nothing.
    silent :
        {p : Pc A} (q : Pc A)
        → s.pc i ≡ p
        → is_pushing q ≡ is_pushing p
        → is_popping q ≡ is_popping p
        → Reachable S insert (
            machine s.memory.shared
              (total is_pushing n (update s.pc i q))
              (total is_popping n (update s.pc i q)))
    silent {p} q e f g =
        counted (omega (arith, total-update is_pushing n s.pc i q lt, f, ap is_pushing e))
          (omega (arith, total-update is_popping n s.pc i q lt, g, ap is_popping e)) r

    simulate :
        {p q : Pc A} {t : Memory S C insert}
        → s.pc i ≡ p
        → (p ≡ pop_failed → ⊥)
        → ((item : A) → p ≡ pop_take item → (rest : List A) × (s.memory.shared.queue ≡ item ∷ rest))
        → Move S C insert i s.memory p t q
        → Reachable S insert (atomic n (record { memory = t; pc = update s.pc i q }))
    simulate e f g (writes {item}) =
        counted (omega (arith, exchange is_pushing push_leave e))
          (omega (arith, exchange is_popping push_leave e)) (after r (enqueues item))
    simulate e f g releases = counted refl (omega (arith, exchange is_popping idle e)) (
        after
          (counted {j = suc (total is_pushing n (update s.pc i idle))}
            (omega (arith, exchange is_pushing idle e)) refl r)
          Coarse.releases)
    simulate e f g (waits h) =
        counted (omega (arith, exchange is_pushing pop_enter e))
          (omega (arith, exchange is_popping pop_enter e)) (after r (Coarse.waits h))
    simulate e f g (takes {item}) =
        let (rest, front) = g item refl in
        counted (omega (arith, exchange is_pushing (pop_leave item) e)) refl (
          after
            (counted {k = suc (total is_popping n (update s.pc i (pop_leave item)))} refl
              (omega (arith, exchange is_popping (pop_leave item) e)) r)
            (dequeues (dequeue_front s.memory.shared item rest front)))
    simulate e f g pop_throws = absurd (f refl)
    simulate e f g (pushes item) = silent (push_enter item) e refl refl
    simulate e f g (push_enters h) = silent (push_write _) e refl refl
    simulate e f g push_leaves = silent push_release e refl refl
    simulate e f g (pop_enters h) = silent pop_read e refl refl
    simulate e f g (finds_empty h) = silent pop_failed e refl refl
    simulate e f g (reads h) = silent (pop_take _) e refl refl
    simulate e f g pop_leaves = silent idle e refl refl
    simulate e f g peeks = silent peek_enter e refl refl
    simulate e f g (peek_enters h) = silent peek_read e refl refl
    simulate e f g (peek_empty h) = silent peek_failed e refl refl
    simulate e f g (peek_reads h) = silent (peek_leave _) e refl refl
    simulate e f g peek_leaves = silent idle e refl refl
    simulate e f g peek_throws = silent idle e refl refl

  module _ (length-insert : (a : A) (xs : List A) → length (insert a xs) ≡ suc (length xs)) where
    never_empty :
        (n : ℕ) (s : System S C insert) (i : ℕ)
        → i < n
        → Reachable S insert (atomic n s)
        → s.pc i ≡ pop_read
        → s.memory.shared.queue ≡ []
        → ⊥
    never_empty n s i lt r e nothing = omega (
      arith,
      Reachable-Backed S insert length-insert r,
      le-total is_popping n s.pc i lt,
      ap is_popping e,
      ap length nothing,
    )

    not_failed :
        (n : ℕ) (s : System S C insert) (i : ℕ) {p q : Pc A} {t : Memory S C insert}
        → i < n
        → Reachable S insert (atomic n s)
        → s.pc i ≡ p
        → Move S C insert i s.memory p t q
        → q ≡ pop_failed
        → ⊥
    not_failed n s i lt r e (finds_empty h) f = never_empty n s i lt r e h
    not_failed n s i lt r e _ f = cc

    -- However the lines of `n` threads that push, pop and peek interleave, if a new item makes the
    -- container longer by one, then the state is one that whole critical sections and calls of the
    -- semaphore, each as one step, lead to; and no thread is about to throw "empty queue" in `Pop`.
    pub Reach-Reachable :
        (n : ℕ) {s : System S C insert}
        → Reach S C insert n s
        → Reachable S insert (atomic n s) × ((i : ℕ) → s.pc i ≡ pop_failed → ⊥)
    Reach-Reachable n start = (
      counted (sym (total-zero is_pushing n idle refl)) (sym (total-zero is_popping n idle refl))
          Coarse.start,
      λ i h. cc,
    )
    Reach-Reachable n (later {s} before (pick i {m} {p} lt mv)) =
        let (r, fine) = Reach-Reachable n before in
        (
          simulate n s i lt r refl (fine i) ((Reach-Guarded S C insert before).front i) mv,
          λ j h. elim (Bool-cases (i == j)) [
            | inl here ↦
                not_failed n s i lt r refl mv
                  (sym (ap (λ (b : Bool). if b then p else s.pc j) here) ∙ h)
            | inr other ↦ fine j (sym (update_other s.pc i j p other) ∙ h)
          ],
        )
