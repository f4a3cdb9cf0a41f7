-- ===== src/Queue/Order.antt =====
-- RDIBY/datastructures.h: in what order the items that were pushed are popped.
use lllsi.Base.{
  ℕ, zero, suc, ◌+◌, ◌≤◌, ◌<◌, ◌≡◌, refl, ap, ◌∙◌, List, [], ◌∷◌, length, none, some, Option,
  Result, ok, ◌>>=◌, if◌then◌else◌, arith, Bool,
}
use lllsi.Queue.{
  SemaphoreApi, ThreadSafeQueue, max_int, new_queue, push, pop, Timeout, waited, uncons, taken,
}

module _ (S : SemaphoreApi) {A : Type 0} (insert : A → List A → List A) where
  -- No thread is inside an operation: each item has its permit.
  pub record Settled (q : ThreadSafeQueue S A) : Type 0 where
    pub permits : S.count q.queue_semaphore ≡ length q.queue
    pub capped : S.maximum q.queue_semaphore ≡ max_int

  pub new_queue-Settled : Settled (new_queue S)
  new_queue-Settled = record {
    permits = S.count-create 0 max_int (omega arith);
    capped = S.maximum-create 0 max_int;
  }

  pub push-Settled :
      ((a : A) (xs : List A) → length (insert a xs) ≡ suc (length xs))
      → (a : A) (q : ThreadSafeQueue S A) → length q.queue < max_int
      → Settled q
      → (((push S insert a q).0 ≡ 0) × ((push S insert a q).1.queue ≡ insert a q.queue))
        × Settled (push S insert a q).1
  unfolding push
  push-Settled length-insert a q room s =
      let (succeeded, counted) =
        S.release-below q.queue_semaphore (omega (arith, s.permits, s.capped)) in
      (
        (
          ap
              (λ (b : Bool).
                if b then 0 else S.get_last_error (S.release_semaphore q.queue_semaphore).1)
              succeeded,
          refl,
        ),
        record {
          permits = omega (arith, counted, s.permits, length-insert a q.queue);
          capped = S.maximum-release q.queue_semaphore ∙ s.capped;
        },
      )

  abbrev Popped : Timeout → ThreadSafeQueue S A → A → List A → Type 0
  Popped t q a xs = (r : ThreadSafeQueue S A) × (pop S t q ≡ ok (a, r)) × (r.queue ≡ xs) × Settled r

  popped_lem :
      (t : Timeout) (q : ThreadSafeQueue S A) (o : Option S.Semaphore) (a : A) (xs : List A)
      → Settled q
      → q.queue ≡ a ∷ xs
      → S.wait q.queue_semaphore ≡ o
      → Popped t q a xs
  unfolding pop
  popped_lem t q none a xs s split waited_none =
      absurd (omega (arith, ap length split, s.permits, S.wait-none q.queue_semaphore waited_none))
  popped_lem t q (some p) a xs s split waited_some =
      let (counted, same) = S.wait-some q.queue_semaphore p waited_some in
      (
        record { queue = xs; queue_semaphore = p },
        ap
              (λ (o : Option S.Semaphore). waited S t q o >>= λ (r : ThreadSafeQueue S A).
                (uncons S r.queue >>= λ (u : A × List A). ok (taken S r u)))
              waited_some
            ∙ ap
                (λ (ys : List A). uncons S ys >>= λ (u : A × List A).
                  ok (u.0, record { queue = u.1; queue_semaphore = p }))
                split,
        refl,
        record {
          permits = omega (arith, ap length split, s.permits, counted);
          capped = same ∙ s.capped;
        },
      )

  pub pop-Settled :
      (t : Timeout) (q : ThreadSafeQueue S A) (a : A) (xs : List A)
      → Settled q
      → q.queue ≡ a ∷ xs
      → Popped t q a xs
  pop-Settled t q a xs s split = popped_lem t q (S.wait q.queue_semaphore) a xs s split refl

  -- A producer pushes all of a list, a consumer pops a number of items.
  abbrev pub push_all : List A → ThreadSafeQueue S A → ThreadSafeQueue S A
  push_all [] q = q
  push_all (a ∷ xs) q = push_all xs (push S insert a q).1

  abbrev pub pop_all : Timeout → ℕ → ThreadSafeQueue S A → Result (List A)
  pop_all t zero q = ok []
  pop_all t (suc n) q = pop S t q >>= λ (p : A × ThreadSafeQueue S A).
      (pop_all t n p.1 >>= λ (xs : List A). ok (p.0 ∷ xs))

  abbrev pub insert_all : List A → List A → List A
  insert_all [] q = q
  insert_all (a ∷ xs) q = insert_all xs (insert a q)

  pop_all_lem :
      (t : Timeout) (xs : List A) (q : ThreadSafeQueue S A)
      → Settled q
      → q.queue ≡ xs
      → pop_all t (length xs) q ≡ ok xs
  pop_all_lem t [] q s e = refl
  pop_all_lem t (a ∷ xs) q s e =
      let (r, popped, rest, s') = pop-Settled t q a xs s e in
      ap
        (λ (z : Result (A × ThreadSafeQueue S A)). z >>= λ (p : A × ThreadSafeQueue S A).
          (pop_all t (length xs) p.1 >>= λ (ys : List A). ok (p.0 ∷ ys)))
        popped
      ∙ ap (λ (z : Result (List A)). z >>= λ (ys : List A). ok (a ∷ ys))
          (pop_all_lem t xs r s' rest)

  push_all_lem :
      ((a : A) (xs : List A) → length (insert a xs) ≡ suc (length xs))
      → (xs : List A) (q : ThreadSafeQueue S A) → length q.queue + length xs ≤ max_int
      → Settled q
      → ((push_all xs q).queue ≡ insert_all xs q.queue) × Settled (push_all xs q)
  push_all_lem length-insert [] q room s = (refl, s)
  push_all_lem length-insert (a ∷ xs) q room s =
      let ((code, queued), s') = push-Settled length-insert a q (omega arith) s in
      let (filled, settled) =
        push_all_lem length-insert xs (push S insert a q).1
          (omega (arith, ap length queued, length-insert a q.queue)) s' in
      (filled ∙ ap (insert_all xs) queued, settled)

  length-insert_all :
      ((a : A) (xs : List A) → length (insert a xs) ≡ suc (length xs))
      → (xs q : List A) → length (insert_all xs q) ≡ length q + length xs
  length-insert_all length-insert [] q = omega arith
  length-insert_all length-insert (a ∷ xs) q =
      omega (arith, length-insert_all length-insert xs (insert a q), length-insert a q)

  pub pop_all-push_all :
      ((a : A) (xs : List A) → length (insert a xs) ≡ suc (length xs))
      → (t : Timeout) (xs : List A) → length xs ≤ max_int
      → pop_all t (length xs) (push_all xs (new_queue S)) ≡ ok (insert_all xs [])
  pop_all-push_all length-insert t xs room =
      let (filled, settled) =
        push_all_lem length-insert xs (new_queue S) (omega arith) new_queue-Settled in
      ap (λ (n : ℕ). pop_all t n (push_all xs (new_queue S)))
        (omega (arith, length-insert_all length-insert xs []))
      ∙ pop_all_lem t (insert_all xs []) (push_all xs (new_queue S)) settled filled
