-- ===== src/Examples/Locks.antt =====
-- A critical section that is its owner and how often it has entered, and two threads on a queue.
use lllsi.Base.{
  ℕ, zero, suc, ◌+◌, ◌-◌, ◌<◌, ◌≡◌, refl, ap, false, List, [], ◌∷◌, Option, some, none, ◌==◌,
  if◌then◌else◌, arith, length-append,
}
use lllsi.Queue.Interleaving.{Reachable}
use lllsi.Queue.Refinement.{back}
use lllsi.Threads.Sections.{SectionApi}
use lllsi.Threads.Waiting.{enters, ConditionVariable, new_variable, Runs, none_yet, then_move}
use lllsi.Threads.Waiting.{inside as waiting_room}
use lllsi.Threads.Slept.{LeavesSoon, Runs-Balanced}
use lllsi.Queue.Locked.{
  System, Reach, start, later, pick, pushes, push_enters, writes, push_leaves, releases, waits,
  pop_enters, reads, pop_take, pop_failed,
}
use lllsi.Queue.Locked.Guarded.{inside, Reach-alone}
use lllsi.Queue.Locked.Atomic.{atomic, Reach-Reachable}
use lllsi.Queue.Locked.Progress.{Unblocks, Reach-Unblocks}
use lllsi.Examples.Queues.{counting}

abbrev owned_enter : ℕ → ℕ × ℕ → Option (ℕ × ℕ)
owned_enter i (o, zero) = some (i, 1)
owned_enter i (o, suc d) = if o == i then some (o, suc (suc d)) else none

abbrev owned_try : ℕ × ℕ → Option (ℕ × ℕ) → ℕ × (ℕ × ℕ)
owned_try s none = (0, s)
owned_try s (some t) = (1, t)

abbrev owned_depth : ℕ × ℕ → ℕ → ℕ
owned_depth (o, d) j = if o == j then d else 0

owned_free :
    (i j : ℕ) (s t : ℕ × ℕ)
    → owned_enter i s ≡ some t
    → (i == j) ≡ false
    → (owned_depth s j ≡ 0) × (owned_depth t j ≡ 0)
owned_free i j (o, zero) t e other = ground arith
owned_free i j (o, suc d) t e other = ground arith

owned_own : (i : ℕ) (s t : ℕ × ℕ) → owned_enter i s ≡ some t → owned_depth t i ≡ owned_depth s i + 1
owned_own i (o, zero) t e = ground arith
owned_own i (o, suc d) t e = ground arith

owned_waits :
    (i : ℕ) (s : ℕ × ℕ)
    → owned_enter i s ≡ none
    → (j : ℕ) × ((i == j) ≡ false) × (0 < owned_depth s j)
owned_waits i (o, zero) e = cc
owned_waits i (o, suc d) e = (o, ground arith, ground arith)

owned_leave_own :
    (i : ℕ) (s : ℕ × ℕ) → 0 < owned_depth s i → owned_depth (s.0, s.1 - 1) i + 1 ≡ owned_depth s i
owned_leave_own i (o, d) h = ground arith

owned_leave_others :
    (i j : ℕ) (s : ℕ × ℕ)
    → 0 < owned_depth s i
    → (i == j) ≡ false
    → owned_depth (s.0, s.1 - 1) j ≡ owned_depth s j
owned_leave_others i j (o, d) h other = ground arith

owned_try_works :
    (i : ℕ) (s t : ℕ × ℕ) → owned_enter i s ≡ some t → owned_try s (owned_enter i s) ≡ (1, t)
owned_try_works i s t e = ap (owned_try s) e

owned_try_fails :
    (i : ℕ) (s : ℕ × ℕ) → owned_enter i s ≡ none → owned_try s (owned_enter i s) ≡ (0, s)
owned_try_fails i s e = ap (owned_try s) e

owning : SectionApi
owning = record {
  Section = ℕ × ℕ;
  initialize = (0, 0);
  enter_section = owned_enter;
  try_enter_section = λ i s. owned_try s (owned_enter i s);
  leave_section = λ i s. (s.0, s.1 - 1);
  depth = owned_depth;
  depth-initialize = λ i. ground arith;
  enter-free = owned_free;
  enter-own = owned_own;
  enter-waits = owned_waits;
  try-works = owned_try_works;
  try-fails = owned_try_fails;
  leave-own = owned_leave_own;
  leave-others = owned_leave_others;
}

-- Thread 0 has put the 5 in and is still in the section; thread 1 stands before it.
busy : (s : System counting owning (back counting ℕ)) × Reach counting owning (back counting ℕ) 2 s
unfolding owning
busy = (
  _,
  later
      (later
        (later (later start (pick 0 (omega arith) (pushes 5)))
          (pick 0 (omega arith) (push_enters refl)))
        (pick 0 (omega arith) writes))
      (pick 1 (omega arith) (pushes 6)),
)

-- And then it took it out again, up to `front`.
taking :
    (s : System counting owning (back counting ℕ)) × Reach counting owning (back counting ℕ) 2 s
unfolding owning busy
taking = (
  _,
  later
      (later
        (later
          (later (later busy.1 (pick 0 (omega arith) push_leaves)) (pick 0 (omega arith) releases))
          (pick 0 (omega arith) (waits refl)))
        (pick 0 (omega arith) (pop_enters refl)))
      (pick 0 (omega arith) (reads refl)),
)

Reach-alone_example :
    ((i j : ℕ) → inside (taking.0.pc i) ≡ 1 → inside (taking.0.pc j) ≡ 1 → i ≡ j)
    × ((i : ℕ) (item : ℕ)
        → taking.0.pc i ≡ pop_take item
        → (rest : List ℕ) × (taking.0.memory.shared.queue ≡ item ∷ rest))
Reach-alone_example = Reach-alone counting owning (back counting ℕ) taking.1

Reach-Reachable_example :
    Reachable counting (back counting ℕ) (atomic counting owning (back counting ℕ) 2 taking.0)
    × ((i : ℕ) → taking.0.pc i ≡ pop_failed → ⊥)
Reach-Reachable_example =
    Reach-Reachable counting owning (back counting ℕ)
      (λ a xs. omega (arith, length-append xs (a ∷ []))) 2 taking.1

Reach-Unblocks_example :
    (j : ℕ) × ((1 == j) ≡ false)
    × (inside (busy.0.pc j) ≡ 1)
    × Unblocks counting owning (back counting ℕ) 2 busy.0 j
unfolding busy owning
Reach-Unblocks_example = Reach-Unblocks counting owning (back counting ℕ) 1 busy.1 refl

-- Thread 0 has entered the section of a condition variable.
in_sleep : (v : ConditionVariable owning) × Runs owning (new_variable owning) v
unfolding owning
in_sleep = (_, then_move 0 none_yet (enters refl))

Runs-Balanced_example :
    ((j : ℕ) → owning.depth in_sleep.0.cs j ≡ waiting_room (in_sleep.0.pc j))
    × (owning.enter_section 1 in_sleep.0.cs ≡ none
        → (j : ℕ) × ((1 == j) ≡ false) × LeavesSoon owning in_sleep.0 j)
unfolding owning
Runs-Balanced_example = Runs-Balanced owning 1 in_sleep.1
