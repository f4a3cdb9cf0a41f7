-- ===== src/Queue/Service.antt =====
-- RDIBY/datastructures.h: what a consumer gets from the two queues, and what `Clear` leaves behind.
use lllsi.Base.{
  ℕ, suc, ◌≤◌, ◌<◌, ◌≡◌, refl, sym, ap, ◌∙◌, List, [], ◌∷◌, ◌++◌, length, ok, err, length-append,
  append_assoc, append-nil, subst, arith, Option, some, none,
}
use lllsi.Queue.{
  SemaphoreApi, ThreadSafeQueue, max_int, new_queue, pop, Timeout, insert_back, clear,
}
use lllsi.Queue.Frames.{
  insert_frame, Ascending, length-insert_frame, insert_frame-Ascending, insert_frame-Perm,
}
use lllsi.Queue.Order.{Settled, push_all, pop_all, insert_all, pop_all-push_all}
use lllsi.Base.Error.{empty_queue}
use mathlib.Core.List.Perm
use mathlib.Core.List.{Perm}

module _ (S : SemaphoreApi) where
  module _ {A : Type 0} where
    length-insert_back : (a : A) (xs : List A) → length (insert_back a xs) ≡ suc (length xs)
    length-insert_back a xs = omega (arith, length-append xs (a ∷ []))

    insert_all_back : (xs q : List A) → insert_all S insert_back xs q ≡ q ++ xs
    insert_all_back [] q = sym (append-nil q)
    insert_all_back (a ∷ xs) q = insert_all_back xs (q ++ a ∷ []) ∙ append_assoc q (a ∷ []) xs

    -- `ThreadSafeQueue`: at most MAXINT items that are pushed on a new queue are popped in the order
    -- in which they were pushed, each of them once, and no push or pop fails.
    pub pop_all-insert_back :
        (t : Timeout) (xs : List A)
        → length xs ≤ max_int
        → pop_all S insert_back t (length xs) (push_all S insert_back xs (new_queue S)) ≡ ok xs
    pop_all-insert_back t xs room =
        pop_all-push_all S insert_back length-insert_back t xs room ∙ ap ok (insert_all_back xs [])

    waited_clear :
        (t : Timeout) (q : ThreadSafeQueue S A) (o : Option S.Semaphore)
        → 0 < S.count q.queue_semaphore
        → S.wait q.queue_semaphore ≡ o
        → pop S t (clear S q) ≡ err empty_queue
    unfolding pop clear
    waited_clear t q none h e = absurd (omega (arith, S.wait-none q.queue_semaphore e))
    waited_clear t q (some p) h e = rw e refl

    -- `Clear` forgets the semaphore: on a queue that held an item and that no thread is using, the
    -- `Pop` after a `Clear` does not wait for the next item but throws "empty queue".
    pub pop-clear :
        (insert : A → List A → List A) (t : Timeout) (q : ThreadSafeQueue S A)
        → Settled S insert q
        → 0 < length q.queue
        → pop S t (clear S q) ≡ err empty_queue
    pop-clear insert t q s nonempty =
        waited_clear t q (S.wait q.queue_semaphore) (omega (arith, s.permits)) refl

  module _ {B : Type 0} where
    middle-Perm : (a : ℕ × B) (xs q : List (ℕ × B)) → Perm (xs ++ a ∷ q) (a ∷ (xs ++ q))
    middle-Perm a [] q = Perm.refl (a ∷ q)
    middle-Perm a (x ∷ xs) q =
        Perm.trans (Perm.cons x (middle-Perm a xs q)) (Perm.swap a x (xs ++ q))

    insert_all_frame :
        (xs q : List (ℕ × B))
        → Ascending q
        → Ascending (insert_all S insert_frame xs q)
          × Perm (insert_all S insert_frame xs q) (xs ++ q)
    insert_all_frame [] q s = (s, Perm.refl q)
    insert_all_frame (a ∷ xs) q s =
        let (sorted, same) =
          insert_all_frame xs (insert_frame a q) (insert_frame-Ascending a q s) in
        (
          sorted,
          Perm.trans same
              (Perm.trans (Perm.append_left xs (insert_frame-Perm a q)) (middle-Perm a xs q)),
        )

    abbrev pub ServedInOrder : Timeout → List (ℕ × B) → Type 0
    ServedInOrder t xs =
        (ys : List (ℕ × B)) × (pop_all S insert_frame t (length xs)
            (push_all S insert_frame xs (new_queue S))
          ≡ ok ys)
        × Ascending ys
        × Perm ys xs

    -- `ThreadSafePrioQueue` of the viewer: at most MAXINT frames that are pushed on a new queue in
    -- any order are all popped, each of them once, in ascending order of their numbers.
    pub pop_all-insert_frame :
        (t : Timeout) (xs : List (ℕ × B)) → length xs ≤ max_int → ServedInOrder t xs
    pop_all-insert_frame t xs room =
        let (sorted, same) = insert_all_frame xs [] tt in
        (
          insert_all S insert_frame xs [],
          pop_all-push_all S insert_frame length-insert_frame t xs room,
          sorted,
          subst (Perm _) (append-nil xs) same,
        )
