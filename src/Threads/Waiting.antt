-- ===== src/Threads/Waiting.antt =====
-- Condition variables: RDIBY/concurrency.cpp `ConditionVariable`, with the section that its constructor
-- initialises.
-- `SleepConditionVariableCS` leaves the section and sleeps, and enters it again before it returns;
-- it may return at any time, woken or not.
use lllsi.Base.{ℕ, ◌≡◌, some, update}
use lllsi.Threads.Sections.{SectionApi, new_section, enter_cs, release_cs}

-- Where a thread stands in `sleep`.
pub data Pc : Type 0 where
  outside : Pc
  entered : Pc  -- behind `cs.enter()`
  asleep : Pc  -- in `SleepConditionVariableCS`
  returned : Pc  -- behind it

-- In the section.
abbrev pub inside : Pc → ℕ
inside entered = 1
inside returned = 1
inside _ = 0

module _ (C : SectionApi) where
  -- `this->cs.release()`.
  abbrev pub sleep_end : (thread : ℕ) → C.Section → C.Section
  sleep_end i cs = release_cs C i cs

  pub data Move (i : ℕ) (cs : C.Section) : Pc → C.Section → Pc → Type 0 where
    enters : {x : C.Section} → enter_cs C i cs ≡ some x → Move i cs outside x entered
    sleeps : Move i cs entered (C.leave_section i cs) asleep
    wakes : {x : C.Section} → C.enter_section i cs ≡ some x → Move i cs asleep x returned
    ends : Move i cs returned (sleep_end i cs) outside

  -- One variable, and the threads that call `sleep` on it.
  pub record ConditionVariable : Type 0 where
    pub cs : C.Section
    pub pc : ℕ → Pc

  abbrev pub new_variable : ConditionVariable
  new_variable = record { cs = new_section C; pc = λ _. outside }

  abbrev pub moved : ℕ → C.Section → Pc → ConditionVariable → ConditionVariable
  moved i x q v = record { cs = x; pc = update v.pc i q }

  pub data Runs (v : ConditionVariable) : ConditionVariable → Type 0 where
    none_yet : Runs v v
    then_move :
        {w : ConditionVariable} (i : ℕ) {x : C.Section} {q : Pc}
        → Runs v w
        → Move i w.cs (w.pc i) x q
        → Runs v (moved i x q w)
