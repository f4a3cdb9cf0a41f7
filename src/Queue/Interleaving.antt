-- ===== src/Queue/Interleaving.antt =====
-- RDIBY/datastructures.h: any number of threads push and pop; the critical sections and the calls of
-- the semaphore interleave.
use lllsi.Base.{
  le_or_lt, Option, ok-inj, ok_err, ◌>>=◌, ℕ, suc, ◌+◌, ◌≤◌, ◌<◌, ◌≡◌, refl, sym, ap, subst, ◌∙◌,
  inl, inr, List, [], ◌∷◌, length, some, none, ok, arith,
}
use lllsi.Queue.{
  SemaphoreApi, ThreadSafeQueue, max_int, new_queue, waited, uncons, taken, enqueue, release,
  wait_item, dequeue, infinite,
}

module _ (S : SemaphoreApi) {A : Type 0} (insert : A → List A → List A) where
  -- `pushing` threads stand between the critical section of `Push` and the release, `popping` ones
  -- between the wait of `Pop` and its critical section.
  pub record Machine : Type 0 where
    pub shared : ThreadSafeQueue S A
    pub pushing : ℕ
    pub popping : ℕ

  pub data Step : Machine → Machine → Type 0 where
    enqueues :
        {q : ThreadSafeQueue S A} {i o : ℕ} (item : A)
        → Step
            (record { shared = q; pushing = i; popping = o })
            (record { shared = enqueue S insert item q; pushing = suc i; popping = o })
    releases :
        {q : ThreadSafeQueue S A} {i o : ℕ}
        → Step
            (record { shared = q; pushing = suc i; popping = o })
            (record { shared = release S q; pushing = i; popping = o })
    waits :
        {q r : ThreadSafeQueue S A} {i o : ℕ}
        → wait_item S infinite q ≡ ok r
        → Step
            (record { shared = q; pushing = i; popping = o })
            (record { shared = r; pushing = i; popping = suc o })
    dequeues :
        {q r : ThreadSafeQueue S A} {i o : ℕ} {item : A}
        → dequeue S q ≡ ok (item, r)
        → Step
            (record { shared = q; pushing = i; popping = suc o })
            (record { shared = r; pushing = i; popping = o })

  pub data Reachable : Machine → Type 0 where
    start : Reachable (record { shared = new_queue S; pushing = 0; popping = 0 })
    after : {m n : Machine} → Reachable m → Step m n → Reachable n

  -- Every permit stands for an item: those given out, those on their way in and those on their way
  -- out come to no more than the items.
  abbrev pub Backed : Machine → Type 0
  Backed m = S.count m.shared.queue_semaphore + m.pushing + m.popping ≤ length m.shared.queue

  -- The maximum of the semaphore never changes.
  abbrev Capped : Machine → Type 0
  Capped m = S.maximum m.shared.queue_semaphore ≡ max_int

  count-release-le : (s : S.Semaphore) → S.count (S.release_semaphore s).1 ≤ S.count s + 1
  count-release-le s = elim (le_or_lt (S.maximum s) (S.count s)) [
    | inl full ↦ omega (arith, (S.release-full s full).1)
    | inr below ↦ omega (arith, (S.release-below s below).1)
  ]

  abbrev pub Took : ThreadSafeQueue S A → ThreadSafeQueue S A → Type 0
  Took q r =
      (S.count q.queue_semaphore ≡ S.count r.queue_semaphore + 1)
      × (S.maximum r.queue_semaphore ≡ S.maximum q.queue_semaphore)
      × (r.queue ≡ q.queue)

  pub waited_lem :
      (q r : ThreadSafeQueue S A) (o : Option S.Semaphore)
      → S.wait q.queue_semaphore ≡ o
      → waited S infinite q o ≡ ok r
      → Took q r
  waited_lem q r none e h = absurd (ok_err h)
  waited_lem q r (some s) e h =
      subst (Took q) (ok-inj h)
        ((S.wait-some q.queue_semaphore s e).0, (S.wait-some q.queue_semaphore s e).1, refl)

  taken_lem :
      (q r : ThreadSafeQueue S A) (item : A) (xs : List A)
      → q.queue ≡ xs
      → (uncons S xs >>= λ (t : A × List A). ok (taken S q t)) ≡ ok (item, r)
      → (q.queue ≡ item ∷ r.queue) × (r.queue_semaphore ≡ q.queue_semaphore)
  taken_lem q r item [] e h = absurd (ok_err h)
  taken_lem q r item (x ∷ xs) e h = (
    e ∙ ap (λ (p : A × ThreadSafeQueue S A). p.0 ∷ p.1.queue) (ok-inj h),
    ap (λ (p : A × ThreadSafeQueue S A). p.1.queue_semaphore) (sym (ok-inj h)),
  )

  pub dequeue_lem :
      (q r : ThreadSafeQueue S A) (item : A)
      → dequeue S q ≡ ok (item, r)
      → (q.queue ≡ item ∷ r.queue) × (r.queue_semaphore ≡ q.queue_semaphore)
  dequeue_lem q r item h = taken_lem q r item q.queue refl h

  Step-Backed :
      ((a : A) (xs : List A) → length (insert a xs) ≡ suc (length xs))
      → {m n : Machine} → Step m n
      → Backed m
      → Backed n
  Step-Backed length-insert (enqueues {q} {i} {o} item) b =
      omega (arith, length-insert item q.queue)
  Step-Backed length-insert (releases {q} {i} {o}) b =
      omega (arith, count-release-le q.queue_semaphore)
  Step-Backed length-insert (waits {q} {r} {i} {o} h) b =
      let (counted, _, kept) = waited_lem q r (S.wait q.queue_semaphore) refl h in
      omega (arith, counted, ap length kept)
  Step-Backed length-insert (dequeues {q} {r} {i} {o} {item} h) b =
      let (split, same) = dequeue_lem q r item h in omega (arith, ap length split, ap S.count same)

  pub Reachable-Backed :
      ((a : A) (xs : List A) → length (insert a xs) ≡ suc (length xs))
      → {m : Machine} → Reachable m
      → Backed m
  Reachable-Backed length-insert start = omega (arith, S.count-create 0 max_int (omega arith))
  Reachable-Backed length-insert (after before step) =
      Step-Backed length-insert step (Reachable-Backed length-insert before)

  uncons-nonempty :
      (q : ThreadSafeQueue S A) (xs : List A)
      → 0 < length xs
      → (p : A × List A) × ((uncons S xs >>= λ (t : A × List A). ok (taken S q t))
          ≡ ok (taken S q p))
  uncons-nonempty q [] h = absurd (omega arith)
  uncons-nonempty q (x ∷ xs) h = ((x, xs), refl)

  -- However the pushes and pops of any number of threads interleave, if a new item makes the
  -- container longer by one, then a thread whose wait in `Pop` is over finds an item: no `Pop` ends
  -- in "empty queue".
  pub dequeue-Reachable :
      ((a : A) (xs : List A) → length (insert a xs) ≡ suc (length xs))
      → {m : Machine} → Reachable m
      → 0 < m.popping
      → (p : A × ThreadSafeQueue S A) × (dequeue S m.shared ≡ ok p)
  dequeue-Reachable length-insert {m} reached waiting =
      let (p, found) =
        uncons-nonempty m.shared m.shared.queue
          (omega (arith, Reachable-Backed length-insert reached)) in
      (taken S m.shared p, found)
