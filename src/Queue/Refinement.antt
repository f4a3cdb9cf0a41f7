-- ===== src/Queue/Refinement.antt =====
-- RDIBY/datastructures.h ThreadSafeQueue against a queue whose operations are atomic.
use lllsi.Base.{
  ◌+◌, ◌≤◌, ◌≡◌, refl, sym, ap, subst, ◌∙◌, List, [], ◌∷◌, ◌++◌, append_assoc, length, arith,
  length-append,
}
use lllsi.Queue.{SemaphoreApi, insert_back}
use lllsi.Queue.Interleaving.{
  Machine, Reachable, start, after, enqueues, releases, waits, dequeues, dequeue_lem, waited_lem,
  Reachable-Backed,
}

-- What a thread sees of a step.
pub data Event (A : Type 0) : Type 0 where
  put get : A → Event A

module _ {A : Type 0} where
  -- The abstract queue: what its histories are, and what is in it then.
  pub data FifoRun : List (Event A) → List A → Type 0 where
    empty : FifoRun [] []
    puts :
        (events : List (Event A)) (contents : List A) (item : A)
        → FifoRun events contents
        → FifoRun (events ++ put item ∷ []) (contents ++ item ∷ [])
    gets :
        (events : List (Event A)) (contents : List A) (item : A)
        → FifoRun events (item ∷ contents)
        → FifoRun (events ++ get item ∷ []) contents

  abbrev pub inputs : List (Event A) → List A
  inputs [] = []
  inputs (put item ∷ events) = item ∷ inputs events
  inputs (get item ∷ events) = inputs events

  abbrev pub outputs : List (Event A) → List A
  outputs [] = []
  outputs (put item ∷ events) = outputs events
  outputs (get item ∷ events) = item ∷ outputs events

  inputs-put :
      (events : List (Event A)) (item : A)
      → inputs (events ++ put item ∷ []) ≡ inputs events ++ item ∷ []
  inputs-put [] item = refl
  inputs-put (put a ∷ events) item = ap (◌∷◌ a) (inputs-put events item)
  inputs-put (get a ∷ events) item = inputs-put events item

  inputs-get :
      (events : List (Event A)) (item : A) → inputs (events ++ get item ∷ []) ≡ inputs events
  inputs-get [] item = refl
  inputs-get (put a ∷ events) item = ap (◌∷◌ a) (inputs-get events item)
  inputs-get (get a ∷ events) item = inputs-get events item

  outputs-put :
      (events : List (Event A)) (item : A) → outputs (events ++ put item ∷ []) ≡ outputs events
  outputs-put [] item = refl
  outputs-put (put a ∷ events) item = outputs-put events item
  outputs-put (get a ∷ events) item = ap (◌∷◌ a) (outputs-put events item)

  outputs-get :
      (events : List (Event A)) (item : A)
      → outputs (events ++ get item ∷ []) ≡ outputs events ++ item ∷ []
  outputs-get [] item = refl
  outputs-get (put a ∷ events) item = outputs-get events item
  outputs-get (get a ∷ events) item = ap (◌∷◌ a) (outputs-get events item)

  -- The abstract queue is first in, first out.
  inputs-FifoRun :
      {events : List (Event A)} {contents : List A}
      → FifoRun events contents
      → inputs events ≡ outputs events ++ contents
  inputs-FifoRun empty = refl
  inputs-FifoRun (puts events contents item run) =
      inputs-put events item
      ∙ ap (λ (z : List A). z ++ item ∷ []) (inputs-FifoRun run)
      ∙ append_assoc (outputs events) contents (item ∷ [])
      ∙ ap (λ (z : List A). z ++ (contents ++ item ∷ [])) (sym (outputs-put events item))
  inputs-FifoRun (gets events contents item run) =
      inputs-get events item
      ∙ inputs-FifoRun run
      ∙ sym (append_assoc (outputs events) (item ∷ []) contents)
      ∙ ap (λ (z : List A). z ++ contents) (sym (outputs-get events item))

module _ (S : SemaphoreApi) (A : Type 0) where
  -- A new item goes behind the others.
  abbrev pub back : A → List A → List A
  back item q = insert_back item q

  -- What the steps to a state show: the semaphore's calls nothing.
  abbrev pub history : {m : Machine S back} → Reachable S back m → List (Event A)
  history start = []
  history (after before (enqueues item)) = history before ++ put item ∷ []
  history (after before releases) = history before
  history (after before (waits h)) = history before
  history (after before (dequeues {q} {r} {i} {o} {item} h)) = history before ++ get item ∷ []

  history-FifoRun :
      {m : Machine S back} (r : Reachable S back m) → FifoRun (history r) m.shared.queue
  history-FifoRun start = empty
  history-FifoRun (after before (enqueues {q} {i} {o} item)) =
      puts (history before) q.queue item (history-FifoRun before)
  history-FifoRun (after before releases) = history-FifoRun before
  history-FifoRun (after before (waits {q} {r} {i} {o} h)) =
      let (counted, capped, kept) = waited_lem S back q r (S.wait q.queue_semaphore) refl h in
      subst (FifoRun (history before)) (sym kept) (history-FifoRun before)
  history-FifoRun (after before (dequeues {q} {r} {i} {o} {item} h)) =
      gets (history before) r.queue item (
        subst (FifoRun (history before)) (dequeue_lem S back q r item h).0 (history-FifoRun before))

  -- However the critical sections and semaphore calls of any number of threads interleave, the items
  -- put and got so far are a history of the atomic first-in, first-out queue with the container's
  -- contents: those that went in are those that came out and then those that are there, in order. And
  -- every permit, given or on its way, stands for an item of them.
  pub history-Reachable :
      {m : Machine S back} (r : Reachable S back m)
      → FifoRun (history r) m.shared.queue
        × (inputs (history r) ≡ outputs (history r) ++ m.shared.queue)
        × (S.count m.shared.queue_semaphore + m.pushing + m.popping ≤ length m.shared.queue)
  history-Reachable r =
      let run = history-FifoRun r in
      (
        run,
        inputs-FifoRun run,
        Reachable-Backed S back (λ a xs. omega (arith, length-append xs (a ∷ []))) r,
      )
