-- ===== src/Examples/Queues.antt =====
-- The queues over a semaphore that is a counter.
use lllsi.Base.{
  ℕ, zero, suc, ◌+◌, ◌++◌, ◌≤◌, ◌<◌, ◌≡◌, refl, ap, Bool, true, false, List, [], ◌∷◌, ltb,
  if◌then◌else◌, Option, none, some, err, Bool-cases, subst, inl, inr, arith,
}
use lllsi.Base.Error.{empty_queue}
use lllsi.Queue.{SemaphoreApi, ThreadSafeQueue, insert_back, pop, clear, infinite}
use lllsi.Queue.Refinement.{FifoRun, history, inputs, outputs, back, history-Reachable}
use lllsi.Queue.Interleaving.{Machine, Reachable, start, after, enqueues, releases, waits, dequeues}
use lllsi.Queue.Service.{pop_all-insert_frame, pop-clear, ServedInOrder}

abbrev pub count_down : ℕ × ℕ → Option (ℕ × ℕ)
count_down (zero, m) = none
count_down (suc n, m) = some (n, m)

pub count_down-none : (s : ℕ × ℕ) → count_down s ≡ none → s.0 ≡ 0
count_down-none (zero, m) h = refl
count_down-none (suc n, m) h = cc

pub count_down-some : (s t : ℕ × ℕ) → count_down s ≡ some t → (s.0 ≡ t.0 + 1) × (t.1 ≡ s.1)
count_down-some (zero, m) t h = cc
count_down-some (suc n, m) t h =
    subst (λ (r : ℕ × ℕ). (suc n ≡ r.0 + 1) × (r.1 ≡ m))
      (ap (λ (o : Option (ℕ × ℕ)). elim o [ none ↦ (n, m) | some r ↦ r ]) h) (omega arith, refl)

abbrev pub count_up : ℕ × ℕ → Bool × (ℕ × ℕ)
count_up (n, m) = if ltb n m then (true, (n + 1, m)) else (false, (n, m))

pub count_up-below :
    (s : ℕ × ℕ) → s.0 < s.1 → ((count_up s).0 ≡ true) × ((count_up s).1.0 ≡ s.0 + 1)
count_up-below (n, m) h = elim (Bool-cases (ltb n m)) [
  | inl b ↦ rw b (refl, refl)
  | inr b ↦ absurd (ground arith)
]

pub count_up-full : (s : ℕ × ℕ) → s.1 ≤ s.0 → ((count_up s).0 ≡ false) × ((count_up s).1.0 ≡ s.0)
count_up-full (n, m) h = elim (Bool-cases (ltb n m)) [
  | inl b ↦ absurd (ground arith)
  | inr b ↦ rw b (refl, refl)
]

pub count_up-maximum : (s : ℕ × ℕ) → (count_up s).1.1 ≡ s.1
count_up-maximum (n, m) = elim (Bool-cases (ltb n m)) [ inl b ↦ rw b refl | inr b ↦ rw b refl ]

abbrev pub counting : SemaphoreApi
counting = record {
  Semaphore = ℕ × ℕ;
  create_semaphore = λ i m. (i, m);
  release_semaphore = count_up;
  wait = count_down;
  get_last_error = λ s. 298;
  count = λ s. s.0;
  maximum = λ s. s.1;
  count-create = λ i m h. refl;
  maximum-create = λ i m. refl;
  release-below = count_up-below;
  release-full = count_up-full;
  maximum-release = count_up-maximum;
  wait-none = count_down-none;
  wait-some = count_down-some;
}

abbrev frames : List (ℕ × ℕ)
frames = (7, 70) ∷ (3, 30) ∷ (5, 50) ∷ []

pop_all-insert_frame_example : ServedInOrder counting infinite frames
pop_all-insert_frame_example = pop_all-insert_frame counting infinite frames (omega arith)

abbrev one_item : ThreadSafeQueue counting ℕ
one_item = record { queue = 4 ∷ []; queue_semaphore = (1, 2147483647) }

pop-clear_example : pop counting infinite (clear counting one_item) ≡ err empty_queue
pop-clear_example =
    pop-clear counting insert_back infinite one_item (record { permits = refl; capped = refl })
      (omega arith)

-- One thread pushes an item, another waits for it.
abbrev one_waiting : Machine counting {A = ℕ} insert_back
one_waiting = record {
  shared = record { queue = 4 ∷ []; queue_semaphore = (0, 2147483647) };
  pushing = 0;
  popping = 1;
}

one_waiting-Reachable : Reachable counting {A = ℕ} insert_back one_waiting
one_waiting-Reachable = after (after (after start (enqueues 4)) releases) (waits refl)

-- The item is taken while another comes.
abbrev one_served : Machine counting (back counting ℕ)
one_served = record {
  shared = record { queue = 5 ∷ []; queue_semaphore = (0, 2147483647) };
  pushing = 1;
  popping = 0;
}

one_served-Reachable : Reachable counting (back counting ℕ) one_served
one_served-Reachable = after (after one_waiting-Reachable (enqueues 5)) (dequeues refl)

history-Reachable_example :
    FifoRun (history counting ℕ one_served-Reachable) (5 ∷ [])
    × (inputs (history counting ℕ one_served-Reachable)
        ≡ outputs (history counting ℕ one_served-Reachable) ++ 5 ∷ [])
    × (0 + 1 + 0 ≤ 1)
history-Reachable_example = history-Reachable counting ℕ one_served-Reachable
