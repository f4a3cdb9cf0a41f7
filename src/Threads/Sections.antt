-- ===== src/Threads/Sections.antt =====
-- Critical sections: RDIBY/concurrency.cpp `CriticalSection`.
use lllsi.Base.{ℕ, ◌+◌, ◌<◌, ◌≡◌, false, ◌==◌, Option, none, some}

-- What Windows offers: a section that one thread at a time owns, as often as it has entered.
-- `enter` answers nothing as long as the call waits.
pub record SectionApi : Type 1 where
  pub Section : Type 0
  pub initialize : Section
  pub enter_section : (thread : ℕ) → Section → Option Section
  pub try_enter_section : (thread : ℕ) → Section → ℕ × Section
  pub leave_section : (thread : ℕ) → Section → Section
  pub depth : Section → (thread : ℕ) → ℕ
  pub depth-initialize : (i : ℕ) → depth initialize i ≡ 0
  pub enter-free :
      (i j : ℕ) (s t : Section)
      → enter_section i s ≡ some t
      → (i == j) ≡ false
      → (depth s j ≡ 0) × (depth t j ≡ 0)
  pub enter-own : (i : ℕ) (s t : Section) → enter_section i s ≡ some t → depth t i ≡ depth s i + 1
  pub enter-waits :
      (i : ℕ) (s : Section)
      → enter_section i s ≡ none
      → (j : ℕ) × ((i == j) ≡ false) × (0 < depth s j)
  pub try-works :
      (i : ℕ) (s t : Section) → enter_section i s ≡ some t → try_enter_section i s ≡ (1, t)
  pub try-fails : (i : ℕ) (s : Section) → enter_section i s ≡ none → try_enter_section i s ≡ (0, s)
  pub leave-own :
      (i : ℕ) (s : Section) → 0 < depth s i → depth (leave_section i s) i + 1 ≡ depth s i
  pub leave-others :
      (i j : ℕ) (s : Section)
      → 0 < depth s i
      → (i == j) ≡ false
      → depth (leave_section i s) j ≡ depth s j

-- The class forwards to the section it holds.
module _ (C : SectionApi) where
  abbrev pub new_section : C.Section
  new_section = C.initialize

  -- `enter`.
  abbrev pub enter_cs : ℕ → C.Section → Option C.Section
  enter_cs thread cs = C.enter_section thread cs

  abbrev pub try_entry : ℕ → C.Section → ℕ × C.Section
  try_entry thread cs = C.try_enter_section thread cs

  -- `release`.
  abbrev pub release_cs : ℕ → C.Section → C.Section
  release_cs thread cs = C.leave_section thread cs
