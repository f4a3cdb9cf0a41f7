-- ===== src/Base/Results.antt =====
-- The outcome of a C++ call: a value, an exception, or a fault of the memory model.
use mathlib.Core.Path.{◌≡◌, refl, ap, ◌∙◌}
use mathlib.Core.Bool.{Bool}
use mathlib.Core.Option.{Option, none, some}
use lllsi.Base.Tests.{if◌then◌else◌}

-- `semaphore_timed_out` and `empty_queue` are the queue's `runtime_error`s, `out_of_range` is what
-- `vector::at` throws; `blocked` is a wait that no other step ends.
-- `null_pointer` and `out_of_bounds` are undefined behaviour.
pub data Error : Type 0 where
  divide_by_zero semaphore_timed_out empty_queue out_of_range blocked null_pointer out_of_bounds :
      Error

pub data Result {ℓ} (A : Type ℓ) : Type ℓ where
  ok : A → Result A
  err : Error → Result A

abbrev pub or_fail {ℓ} : {A : Type ℓ} → Option A → Error → Result A
or_fail (some found) reason = ok found
or_fail none reason = err reason

abbrev pub guard : (holds : Bool) → Error → Result (Unit {0})
guard holds reason = if holds then ok tt else err reason

infixl 5 ◌>>=◌
abbrev pub ◌>>=◌ {ℓ κ} : {A : Type ℓ} {B : Type κ} → Result A → (A → Result B) → Result B
err reason >>= next = err reason
ok value >>= next = next value

infixl 5 ◌>>◌
abbrev pub ◌>>◌ {ℓ} : {B : Type ℓ} → Result (Unit {0}) → Result B → Result B
first >> next = first >>= λ _. next

module _ {ℓ} {A : Type ℓ} where
  pub ok-inj : {x y : A} → ok x ≡ ok y → x ≡ y
  ok-inj {x} h = ap (λ (r : Result A). elim r [ ok value ↦ value | err reason ↦ x ]) h

  pub ok_err : {x : A} {e : Error} → err e ≡ ok x → ⊥
  ok_err h = cc

-- A step that succeeds hands its value on.
pub bind_eq {ℓ κ} :
    {A : Type ℓ} {B : Type κ} {m : Result A} {a : A} {r : Result B} (f : A → Result B)
    → m ≡ ok a
    → f a ≡ r
    → (m >>= f) ≡ r
bind_eq f first next = ap (λ m. m >>= f) first ∙ next

pub bind_eq_err {ℓ κ} :
    {A : Type ℓ} {B : Type κ} {m : Result A} {e : Error} (f : A → Result B)
    → m ≡ err e
    → (m >>= f) ≡ err e
bind_eq_err f fails = ap (λ m. m >>= f) fails

-- Where a chain succeeds, its first step did.
pub bind_inv {ℓ κ} :
    {A : Type ℓ} {B : Type κ} {b : B} (m : Result A) (f : A → Result B)
    → (m >>= f) ≡ ok b
    → (a : A) × (m ≡ ok a) × (f a ≡ ok b)
bind_inv (ok a) f h = (a, refl, h)
bind_inv (err e) f h = absurd (ok_err h)
