-- ===== src/Base/Families.antt =====
-- What every thread has, as a function of its number: a change for one thread, and sums over the
-- first threads.
use Prim.Native.Nat.{ℕ, zero, suc, ◌+◌, ◌≤◌, ◌<◌}
use mathlib.Core.Path.{◌≡◌, refl}
use mathlib.Core.Bool.{false}
use mathlib.Core.Logic.{inl, inr}
use native.Mathlib.Omega.{arith}
use lllsi.Base.Tests.{◌==◌, if◌then◌else◌, le_or_lt}

abbrev pub update {ℓ} : {A : Type ℓ} → (ℕ → A) → ℕ → A → ℕ → A
update f i a j = if i == j then a else f j

module _ {ℓ} {A : Type ℓ} where
  pub update_self : (f : ℕ → A) (i : ℕ) (a : A) → update f i a i ≡ a
  update_self f i a = ground arith

  pub update_other : (f : ℕ → A) (i j : ℕ) (a : A) → (i == j) ≡ false → update f i a j ≡ f j
  update_other f i j a other = rw other refl

  unfoldable pub total : (A → ℕ) → ℕ → (ℕ → A) → ℕ
  total w zero f = 0
  total w (suc n) f = total w n f + w (f n)

  total-update_beyond :
      (w : A → ℕ) (n : ℕ) (f : ℕ → A) (i : ℕ) (a : A)
      → n ≤ i
      → total w n (update f i a) ≡ total w n f
  unfolding total
  total-update_beyond w zero f i a h = refl
  total-update_beyond w (suc n) f i a h = ground (arith, total-update_beyond w n f i a)

  -- One thread's share is exchanged.
  pub total-update :
      (w : A → ℕ) (n : ℕ) (f : ℕ → A) (i : ℕ) (a : A)
      → i < n
      → total w n (update f i a) + w (f i) ≡ total w n f + w a
  unfolding total
  total-update w zero f i a h = absurd (omega arith)
  total-update w (suc n) f i a h = elim (le_or_lt n i) [
    | inl last ↦ ground (arith, total-update_beyond w n f i a)
    | inr below ↦ ground (arith, total-update w n f i a)
  ]

  pub total-zero : (w : A → ℕ) (n : ℕ) (a : A) → w a ≡ 0 → total w n (λ _. a) ≡ 0
  unfolding total
  total-zero w zero a h = refl
  total-zero w (suc n) a h = omega (arith, total-zero w n a h, h)

  pub le-total : (w : A → ℕ) (n : ℕ) (f : ℕ → A) (i : ℕ) → i < n → w (f i) ≤ total w n f
  unfolding total
  le-total w zero f i h = absurd (omega arith)
  le-total w (suc n) f i h = elim (le_or_lt n i) [
    | inl last ↦ ground arith
    | inr below ↦ omega (arith, le-total w n f i below)
  ]
