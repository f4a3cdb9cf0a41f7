-- ===== src/Queue.antt =====
-- The queues between threads: RDIBY/datastructures.h, ThreadSafeQueue and ThreadSafePrioQueue.
-- The two classes are the same text over `std::queue` and `std::priority_queue`; here the container
-- is a list whose front is the next item, and `insert` says where a new item goes.
-- A critical section is one step. The kernel's semaphore is a parameter, with its documented laws.
pub mod Interleaving
pub mod Order
pub mod Frames
pub mod Service
pub mod Refinement
pub mod Locked
use lllsi.Base.{
  ℕ, ◌+◌, ◌-◌, ◌%◌, ◌^◌, ◌≤◌, ◌<◌, ◌≡◌, Bool, true, false, List, [], ◌∷◌, ◌++◌, ltb, if◌then◌else◌,
  length, is_empty, Option, none, some, Result, ok, err, ◌>>=◌, Error,
}
use lllsi.Base.Error.{semaphore_timed_out, empty_queue, blocked}
use lllsi.Packet.{dword}

-- What the kernel offers: `CreateSemaphore`, `ReleaseSemaphore` by 1 and a wait. `wait` answers
-- nothing when the count is 0, `release` fails at the maximum.
pub record SemaphoreApi : Type 1 where
  pub Semaphore : Type 0
  pub create_semaphore : (initial maximum : ℕ) → Semaphore
  pub release_semaphore : Semaphore → Bool × Semaphore
  pub wait : Semaphore → Option Semaphore
  pub get_last_error : Semaphore → ℕ
  pub count : Semaphore → ℕ
  pub maximum : Semaphore → ℕ
  pub count-create : (i m : ℕ) → i ≤ m → count (create_semaphore i m) ≡ i
  pub maximum-create : (i m : ℕ) → maximum (create_semaphore i m) ≡ m
  pub release-below :
      (s : Semaphore)
      → count s < maximum s
      → ((release_semaphore s).0 ≡ true) × (count (release_semaphore s).1 ≡ count s + 1)
  pub release-full :
      (s : Semaphore)
      → maximum s ≤ count s
      → ((release_semaphore s).0 ≡ false) × (count (release_semaphore s).1 ≡ count s)
  pub maximum-release : (s : Semaphore) → maximum (release_semaphore s).1 ≡ maximum s
  pub wait-none : (s : Semaphore) → wait s ≡ none → count s ≡ 0
  pub wait-some :
      (s t : Semaphore) → wait s ≡ some t → (count s ≡ count t + 1) × (maximum t ≡ maximum s)

-- `MAXINT`.
abbrev pub max_int : ℕ
max_int = 2 ^ 31 - 1

-- The member `timeout`: INFINITE in RDIBY, 3 milliseconds in RDIBYClient.
pub data Timeout : Type 0 where
  infinite : Timeout
  milliseconds : ℕ → Timeout

-- What a wait that gets no permit ends in.
abbrev pub wait_failure : Timeout → Error
wait_failure infinite = blocked
wait_failure (milliseconds n) = semaphore_timed_out

-- `std::queue` adds at the end.
abbrev pub insert_back : {A : Type 0} → A → List A → List A
insert_back item q = q ++ item ∷ []

-- `CompareNumBmpPairs`: is the first of lower priority?
abbrev pub compare_num_bmp_pairs : {B : Type 0} → ℕ × B → ℕ × B → Bool
compare_num_bmp_pairs a b = ltb b.0 a.0

-- `std::priority_queue` has an item in front to which no other is preferred. Among equal items the
-- library may choose; here the older one is served first.
abbrev pub insert_ordered : {A : Type 0} → (comp : A → A → Bool) → A → List A → List A
insert_ordered comp item [] = item ∷ []
insert_ordered comp item (x ∷ xs) =
    if comp x item then item ∷ x ∷ xs else x ∷ insert_ordered comp item xs

module _ (S : SemaphoreApi) where
  pub record ThreadSafeQueue (A : Type 0) : Type 0 where
    pub queue : List A
    pub queue_semaphore : S.Semaphore

  module _ {A : Type 0} where
    abbrev pub new_queue : ThreadSafeQueue A
    new_queue = record { queue = []; queue_semaphore = S.create_semaphore 0 max_int }

    -- `Push`: the critical section, then the release.
    abbrev pub enqueue : (insert : A → List A → List A) → A → ThreadSafeQueue A → ThreadSafeQueue A
    enqueue insert item q = record q { queue = insert item q.queue }

    abbrev pub release : ThreadSafeQueue A → ThreadSafeQueue A
    release q = record q { queue_semaphore = (S.release_semaphore q.queue_semaphore).1 }

    abbrev pub release_result : ThreadSafeQueue A → ℕ
    release_result q =
        if (S.release_semaphore q.queue_semaphore).0
        then 0
        else S.get_last_error (S.release_semaphore q.queue_semaphore).1

    unfoldable pub push :
        (insert : A → List A → List A) → A → ThreadSafeQueue A → ℕ × ThreadSafeQueue A
    push insert item q = let q' = enqueue insert item q in (release_result q', release q')

    -- `Pop`: the wait, then the critical section.
    abbrev pub waited :
        Timeout → ThreadSafeQueue A → Option S.Semaphore → Result (ThreadSafeQueue A)
    waited timeout q none = err (wait_failure timeout)
    waited timeout q (some s) = ok (record q { queue_semaphore = s })

    abbrev pub wait_item : Timeout → ThreadSafeQueue A → Result (ThreadSafeQueue A)
    wait_item timeout q = waited timeout q (S.wait q.queue_semaphore)

    abbrev pub uncons : List A → Result (A × List A)
    uncons [] = err empty_queue
    uncons (item ∷ rest) = ok (item, rest)

    abbrev pub taken : ThreadSafeQueue A → A × List A → A × ThreadSafeQueue A
    taken q split = (split.0, record q { queue = split.1 })

    abbrev pub dequeue : ThreadSafeQueue A → Result (A × ThreadSafeQueue A)
    dequeue q = do split ← uncons q.queue; ok (taken q split)

    unfoldable pub pop : Timeout → ThreadSafeQueue A → Result (A × ThreadSafeQueue A)
    pop timeout q = wait_item timeout q >>= dequeue

    unfoldable pub peek : ThreadSafeQueue A → Result A
    peek q = do split ← uncons q.queue; ok split.0

    abbrev pub no_items : ThreadSafeQueue A → Bool
    no_items q = is_empty q.queue

    unfoldable pub size : ThreadSafeQueue A → ℕ
    size q = length q.queue % dword

    -- `Clear` leaves the semaphore alone.
    unfoldable pub clear : ThreadSafeQueue A → ThreadSafeQueue A
    clear q = record q { queue = [] }

    -- `ThreadSafePrioQueue`.
    abbrev pub prio_push : (comp : A → A → Bool) → A → ThreadSafeQueue A → ℕ × ThreadSafeQueue A
    prio_push comp = push (insert_ordered comp)

    abbrev pub prio_pop : Timeout → ThreadSafeQueue A → Result (A × ThreadSafeQueue A)
    prio_pop = pop

    abbrev pub prio_peek : ThreadSafeQueue A → Result A
    prio_peek = peek

    abbrev pub prio_clear : ThreadSafeQueue A → ThreadSafeQueue A
    prio_clear = clear
