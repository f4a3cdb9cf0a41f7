-- ===== src/Threads/Slept.antt =====
-- RDIBY/concurrency.cpp `ConditionVariable::sleep`: who owns the section.
use lllsi.Base.{ℕ, ◌<◌, ◌≡◌, refl, false, none, ◌==◌, Bool-cases, inl, inr, arith}
use lllsi.Threads.Sections.{SectionApi}
use lllsi.Threads.Waiting.{
  Pc, outside, entered, asleep, returned, inside, Move, enters, sleeps, wakes, ends,
  ConditionVariable, new_variable, moved, Runs, none_yet, then_move,
}

module _ (C : SectionApi) where
  -- In RDIBY/concurrency.cpp the section is owned just by the thread that stands in it.
  abbrev Balanced : ConditionVariable C → Type 0
  Balanced v = (j : ℕ) → C.depth v.cs j ≡ inside (v.pc j)

  Move-Balanced :
      (v : ConditionVariable C) (i : ℕ) {x : C.Section} {p q : Pc}
      → Balanced v
      → v.pc i ≡ p
      → Move C i v.cs p x q
      → Balanced (moved C i x q v)
  Move-Balanced v i g e (enters {x} h) j = elim (Bool-cases (i == j)) [
    | inl here ↦ ground (arith, C.enter-own i v.cs x h, g i)
    | inr other ↦ ground (arith, C.enter-free i j v.cs x h other, g j)
  ]
  Move-Balanced v i g e sleeps j = elim (Bool-cases (i == j)) [
    | inl here ↦ ground (arith, C.leave-own i v.cs, g i)
    | inr other ↦ ground (arith, C.leave-others i j v.cs, g i, g j)
  ]
  Move-Balanced v i g e (wakes {x} h) j = elim (Bool-cases (i == j)) [
    | inl here ↦ ground (arith, C.enter-own i v.cs x h, g i)
    | inr other ↦ ground (arith, C.enter-free i j v.cs x h other, g j)
  ]
  Move-Balanced v i g e ends j = elim (Bool-cases (i == j)) [
    | inl here ↦ ground (arith, C.leave-own i v.cs, g i)
    | inr other ↦ ground (arith, C.leave-others i j v.cs, g i, g j)
  ]

  Runs-owned : {v : ConditionVariable C} → Runs C (new_variable C) v → Balanced v
  Runs-owned none_yet = C.depth-initialize
  Runs-owned (then_move {w} i r mv) = Move-Balanced w i (Runs-owned r) refl mv

  abbrev pub LeavesSoon : ConditionVariable C → ℕ → Type 0
  LeavesSoon v j =
      (inside (v.pc j) ≡ 1)
      × (x : C.Section) × (q : Pc) × (inside q ≡ 0)
      × Move C j v.cs (v.pc j) x q

  leaves_soon :
      (j : ℕ) (cs : C.Section) (p : Pc)
      → 0 < inside p
      → (inside p ≡ 1) × (x : C.Section) × (q : Pc) × (inside q ≡ 0) × Move C j cs p x q
  leaves_soon j cs entered h = (refl, _, _, refl, sleeps)
  leaves_soon j cs returned h = (refl, _, _, refl, ends)
  leaves_soon j cs outside h = absurd (omega arith)
  leaves_soon j cs asleep h = absurd (omega arith)

  -- With `sleep` of RDIBY/concurrency.cpp, however the threads that call it interleave, a thread is in
  -- the section just while it stands in it; and who has to wait for it waits for another thread that
  -- leaves the section with its next move.
  pub Runs-Balanced :
      {v : ConditionVariable C} (i : ℕ)
      → Runs C (new_variable C) v
      → ((j : ℕ) → C.depth v.cs j ≡ inside (v.pc j))
        × (C.enter_section i v.cs ≡ none → (j : ℕ) × ((i == j) ≡ false) × LeavesSoon v j)
  Runs-Balanced {v} i r = (
    Runs-owned r,
    λ waits.
        (let (j, other, deep) = C.enter-waits i v.cs waits in
          (j, other, leaves_soon j v.cs (v.pc j) (omega (arith, Runs-owned r j)))),
  )
