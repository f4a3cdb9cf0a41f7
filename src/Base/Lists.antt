-- ===== src/Base/Lists.antt =====
-- Lists measured and indexed by native numbers, and a write of a block into a buffer.
use Prim.Native.Nat.{ℕ, zero, suc, ◌+◌, ◌-◌, ◌≤◌, ◌<◌, min}
use mathlib.Core.Path.{◌≡◌, refl, ap, sym, ◌∙◌}
use mathlib.Core.Logic.{◌⊎◌, inl, inr}
use mathlib.Core.Bool.{Bool, true, false}
use mathlib.Core.List.{List, [], ◌∷◌, ◌++◌}
use mathlib.Core.Option.{Option, none, some}
use native.Mathlib.Omega.{arith}
use lllsi.Base.Tests.{leb}

module _ {ℓ} {A : Type ℓ} where
  abbrev pub length : List A → ℕ
  length [] = 0
  length (x ∷ xs) = suc (length xs)

  abbrev pub get_elem? : List A → ℕ → Option A
  get_elem? [] i = none
  get_elem? (x ∷ xs) zero = some x
  get_elem? (x ∷ xs) (suc i) = get_elem? xs i

  abbrev pub get_or : List A → ℕ → A → A
  get_or [] i d = d
  get_or (x ∷ xs) zero d = x
  get_or (x ∷ xs) (suc i) d = get_or xs i d

  abbrev pub take : ℕ → List A → List A
  take zero xs = []
  take (suc n) [] = []
  take (suc n) (x ∷ xs) = x ∷ take n xs

  abbrev pub drop : ℕ → List A → List A
  drop zero xs = xs
  drop (suc n) [] = []
  drop (suc n) (x ∷ xs) = drop n xs

  abbrev pub replicate : ℕ → A → List A
  replicate zero a = []
  replicate (suc n) a = a ∷ replicate n a

  abbrev pub is_empty : List A → Bool
  is_empty [] = true
  is_empty (x ∷ xs) = false

  -- The block `ys` written over `xs` from position `o` on; what would lie past the end is dropped.
  unfoldable pub overwrite : List A → ℕ → List A → List A
  overwrite [] o ys = []
  overwrite (x ∷ xs) zero [] = x ∷ xs
  overwrite (x ∷ xs) zero (y ∷ ys) = y ∷ overwrite xs zero ys
  overwrite (x ∷ xs) (suc o) ys = x ∷ overwrite xs o ys

module _ {ℓ} {A : Type ℓ} where
  pub length-append : (xs ys : List A) → length (xs ++ ys) ≡ length xs + length ys
  length-append [] ys = omega arith
  length-append (x ∷ xs) ys = omega (arith, length-append xs ys)

  pub length-take : (n : ℕ) (xs : List A) → length (take n xs) ≡ min n (length xs)
  length-take zero xs = omega arith
  length-take (suc n) [] = omega arith
  length-take (suc n) (x ∷ xs) = omega (arith, length-take n xs)

  pub length-drop : (n : ℕ) (xs : List A) → length (drop n xs) ≡ length xs - n
  length-drop zero xs = omega arith
  length-drop (suc n) [] = omega arith
  length-drop (suc n) (x ∷ xs) = omega (arith, length-drop n xs)

  pub length-replicate : (n : ℕ) (a : A) → length (replicate n a) ≡ n
  length-replicate zero a = refl
  length-replicate (suc n) a = ap suc (length-replicate n a)

  pub get_elem?-replicate : (n i : ℕ) (a : A) → i < n → get_elem? (replicate n a) i ≡ some a
  get_elem?-replicate zero i a h = absurd (omega arith)
  get_elem?-replicate (suc n) zero a h = refl
  get_elem?-replicate (suc n) (suc i) a h = get_elem?-replicate n i a (omega arith)

  pub take-append : (n : ℕ) (xs ys : List A) → length xs ≡ n → take n (xs ++ ys) ≡ xs
  take-append zero [] ys e = refl
  take-append zero (x ∷ xs) ys e = absurd (omega arith)
  take-append (suc n) [] ys e = absurd (omega arith)
  take-append (suc n) (x ∷ xs) ys e = ap (◌∷◌ x) (take-append n xs ys (omega arith))

  pub drop-append : (n : ℕ) (xs ys : List A) → length xs ≡ n → drop n (xs ++ ys) ≡ ys
  drop-append zero [] ys e = refl
  drop-append zero (x ∷ xs) ys e = absurd (omega arith)
  drop-append (suc n) [] ys e = absurd (omega arith)
  drop-append (suc n) (x ∷ xs) ys e = drop-append n xs ys (omega arith)

  pub get_elem?-take :
      (n : ℕ) (xs : List A) (i : ℕ) → i < n → get_elem? (take n xs) i ≡ get_elem? xs i
  get_elem?-take zero xs i h = absurd (omega arith)
  get_elem?-take (suc n) [] i h = refl
  get_elem?-take (suc n) (x ∷ xs) zero h = refl
  get_elem?-take (suc n) (x ∷ xs) (suc i) h = get_elem?-take n xs i (omega arith)

  pub get_elem?-drop :
      (n : ℕ) (xs : List A) (i j : ℕ) → j ≡ n + i → get_elem? (drop n xs) i ≡ get_elem? xs j
  get_elem?-drop zero xs i j e = ap (get_elem? xs) (omega arith)
  get_elem?-drop (suc n) [] i j e = refl
  get_elem?-drop (suc n) (x ∷ xs) i zero e = absurd (omega arith)
  get_elem?-drop (suc n) (x ∷ xs) i (suc j) e = get_elem?-drop n xs i j (omega arith)

  pub get_elem?-none : (xs : List A) (i : ℕ) → length xs ≤ i → get_elem? xs i ≡ none
  get_elem?-none [] i h = refl
  get_elem?-none (x ∷ xs) zero h = absurd (omega arith)
  get_elem?-none (x ∷ xs) (suc i) h = get_elem?-none xs i (omega arith)

  -- Two lists with the same entry at each position are equal.
  pub eq_of_get_elem? : (xs ys : List A) → ((i : ℕ) → get_elem? xs i ≡ get_elem? ys i) → xs ≡ ys
  eq_of_get_elem? [] [] h = refl
  eq_of_get_elem? [] (y ∷ ys) h = cc (h zero)
  eq_of_get_elem? (x ∷ xs) [] h = cc (h zero)
  eq_of_get_elem? (x ∷ xs) (y ∷ ys) h = cc (h zero, eq_of_get_elem? xs ys (λ i. h (suc i)))

  pub length-overwrite :
      (xs : List A) (o : ℕ) (ys : List A) → length (overwrite xs o ys) ≡ length xs
  unfolding overwrite
  length-overwrite [] o ys = refl
  length-overwrite (x ∷ xs) zero [] = refl
  length-overwrite (x ∷ xs) zero (y ∷ ys) = ap suc (length-overwrite xs zero ys)
  length-overwrite (x ∷ xs) (suc o) ys = ap suc (length-overwrite xs o ys)

  -- A block as long as the buffer replaces it.
  pub overwrite_whole : (xs ys : List A) → length xs ≡ length ys → overwrite xs zero ys ≡ ys
  unfolding overwrite
  overwrite_whole [] [] e = refl
  overwrite_whole [] (y ∷ ys) e = absurd (omega arith)
  overwrite_whole (x ∷ xs) [] e = absurd (omega arith)
  overwrite_whole (x ∷ xs) (y ∷ ys) e = ap (◌∷◌ y) (overwrite_whole xs ys (omega arith))

  -- Inside the block the new bytes are read.
  pub get_elem?-overwrite_in :
      (xs : List A) (o : ℕ) (ys : List A) (k j : ℕ)
      → j ≡ o + k
      → k < length ys
      → j < length xs
      → get_elem? (overwrite xs o ys) j ≡ get_elem? ys k
  unfolding overwrite
  get_elem?-overwrite_in [] o ys k j e h l = absurd (omega arith)
  get_elem?-overwrite_in (x ∷ xs) zero [] k j e h l = absurd (omega arith)
  get_elem?-overwrite_in (x ∷ xs) zero (y ∷ ys) zero zero e h l = refl
  get_elem?-overwrite_in (x ∷ xs) zero (y ∷ ys) zero (suc j) e h l = absurd (omega arith)
  get_elem?-overwrite_in (x ∷ xs) zero (y ∷ ys) (suc k) zero e h l = absurd (omega arith)
  get_elem?-overwrite_in (x ∷ xs) zero (y ∷ ys) (suc k) (suc j) e h l =
      get_elem?-overwrite_in xs zero ys k j (omega arith) (omega arith) (omega arith)
  get_elem?-overwrite_in (x ∷ xs) (suc o) ys k zero e h l = absurd (omega arith)
  get_elem?-overwrite_in (x ∷ xs) (suc o) ys k (suc j) e h l =
      get_elem?-overwrite_in xs o ys k j (omega arith) h (omega arith)

  -- Before and behind it nothing changes.
  pub get_elem?-overwrite_out :
      (xs : List A) (o : ℕ) (ys : List A) (j : ℕ)
      → (leb o j ≡ false → get_elem? (overwrite xs o ys) j ≡ get_elem? xs j)
        × (o + length ys ≤ j → get_elem? (overwrite xs o ys) j ≡ get_elem? xs j)
  unfolding overwrite
  get_elem?-overwrite_out [] o ys j = (λ _. refl, λ _. refl)
  get_elem?-overwrite_out (x ∷ xs) zero [] j = (λ _. refl, λ _. refl)
  get_elem?-overwrite_out (x ∷ xs) zero (y ∷ ys) zero =
      (λ h. ground arith, λ h. absurd (omega arith))
  get_elem?-overwrite_out (x ∷ xs) zero (y ∷ ys) (suc j) =
      (λ h. ground arith, λ h. (get_elem?-overwrite_out xs zero ys j).1 (omega arith))
  get_elem?-overwrite_out (x ∷ xs) (suc o) ys zero = (λ _. refl, λ h. refl)
  get_elem?-overwrite_out (x ∷ xs) (suc o) ys (suc j) = (
    λ h. (get_elem?-overwrite_out xs o ys j).0 (ground arith),
    λ h. (get_elem?-overwrite_out xs o ys j).1 (omega arith),
  )

  pub take-append-drop : (n : ℕ) (xs : List A) → take n xs ++ drop n xs ≡ xs
  take-append-drop zero xs = refl
  take-append-drop (suc n) [] = refl
  take-append-drop (suc n) (x ∷ xs) = ap (◌∷◌ x) (take-append-drop n xs)

  pub drop-drop : (m n k : ℕ) (xs : List A) → k ≡ n + m → drop m (drop n xs) ≡ drop k xs
  drop-drop m zero k xs e = ap (λ (t : ℕ). drop t xs) (omega arith)
  drop-drop zero (suc n) zero [] e = refl
  drop-drop zero (suc n) (suc k) [] e = refl
  drop-drop (suc m) (suc n) zero [] e = refl
  drop-drop (suc m) (suc n) (suc k) [] e = refl
  drop-drop m (suc n) zero (x ∷ xs) e = absurd (omega arith)
  drop-drop m (suc n) (suc k) (x ∷ xs) e = drop-drop m n k xs (omega arith)

  pub drop_past : (n : ℕ) (xs : List A) → length xs ≤ n → drop n xs ≡ []
  drop_past zero [] h = refl
  drop_past zero (x ∷ xs) h = absurd (omega arith)
  drop_past (suc n) [] h = refl
  drop_past (suc n) (x ∷ xs) h = drop_past n xs (omega arith)

  -- Two cuts that are equal, or that both lie past the end, leave the same.
  pub drop_eq :
      (m n : ℕ) (xs : List A)
      → (m ≡ n) ⊎ ((length xs ≤ m) × (length xs ≤ n))
      → drop m xs ≡ drop n xs
  drop_eq m n xs (inl e) = ap (λ (t : ℕ). drop t xs) e
  drop_eq m n xs (inr (h, k)) = drop_past m xs h ∙ sym (drop_past n xs k)

  -- A buffer filled from `xs`, with what `junk` held behind it.
  pub take_fill :
      (n : ℕ) (xs junk : List A)
      → length xs ≤ n
      → take n (xs ++ junk) ≡ xs ++ take (n - length xs) junk
  take_fill n [] junk h = ap (λ (t : ℕ). take t junk) (omega arith)
  take_fill zero (x ∷ xs) junk h = absurd (omega arith)
  take_fill (suc n) (x ∷ xs) junk h =
      ap (◌∷◌ x)
        (take_fill n xs junk (omega arith) ∙ ap (λ (t : ℕ). xs ++ take t junk) (omega arith))

-- `P` holds of every entry.
abbrev pub All {ℓ κ} : {A : Type ℓ} → (A → Type κ) → List A → Type κ
All P [] = Unit
All P (x ∷ xs) = P x × All P xs

-- One among others.
pub All-middle {ℓ κ} :
    {A : Type ℓ} (P : A → Type κ) (before : List A) (v : A) (after : List A)
    → All P (before ++ v ∷ after)
    → P v
All-middle P [] v after l = l.0
All-middle P (w ∷ before) v after l = All-middle P before v after l.1
