-- ===== src/Queue/Frames.antt =====
-- RDIBY/datastructures.h: the order of the viewer's queue of decoded frames.
use lllsi.Base.{
  ℕ, suc, ◌≤◌, ◌≡◌, refl, inl, inr, List, [], ◌∷◌, length, ltb, arith, Bool-cases, All,
}
use lllsi.Queue.{insert_ordered, compare_num_bmp_pairs}
use mathlib.Core.List.Perm
use mathlib.Core.List.{Perm}

module _ {B : Type 0} where
  abbrev pub insert_frame : ℕ × B → List (ℕ × B) → List (ℕ × B)
  insert_frame = insert_ordered compare_num_bmp_pairs

  pub length-insert_frame :
      (a : ℕ × B) (xs : List (ℕ × B)) → length (insert_frame a xs) ≡ suc (length xs)
  length-insert_frame a [] = refl
  length-insert_frame a (x ∷ xs) = elim (Bool-cases (ltb a.0 x.0)) [
    | inl before ↦ rw before (omega arith)
    | inr behind ↦ rw behind (omega (arith, length-insert_frame a xs))
  ]

  -- The frames come in ascending order of their numbers.
  abbrev pub Ascending : List (ℕ × B) → Type 0
  Ascending [] = Unit {0}
  Ascending (x ∷ xs) = All (λ (y : ℕ × B). x.0 ≤ y.0) xs × Ascending xs

  All-insert_frame :
      (P : ℕ × B → Type 0) (a : ℕ × B) (xs : List (ℕ × B))
      → P a
      → All P xs
      → All P (insert_frame a xs)
  All-insert_frame P a [] p ps = (p, tt)
  All-insert_frame P a (x ∷ xs) p ps = elim (Bool-cases (ltb a.0 x.0)) [
    | inl before ↦ rw before (p, ps)
    | inr behind ↦ rw behind (ps.0, All-insert_frame P a xs p ps.1)
  ]

  All-le :
      (n m : ℕ) (xs : List (ℕ × B))
      → n ≤ m
      → All (λ (y : ℕ × B). m ≤ y.0) xs
      → All (λ (y : ℕ × B). n ≤ y.0) xs
  All-le n m [] h ps = tt
  All-le n m (x ∷ xs) h ps = (omega (arith, ps.0), All-le n m xs h ps.1)

  pub insert_frame-Ascending :
      (a : ℕ × B) (xs : List (ℕ × B)) → Ascending xs → Ascending (insert_frame a xs)
  insert_frame-Ascending a [] s = (tt, tt)
  insert_frame-Ascending a (x ∷ xs) s = elim (Bool-cases (ltb a.0 x.0)) [
    | inl before ↦ rw before ((ground arith, All-le a.0 x.0 xs (ground arith) s.0), s)
    | inr behind ↦
        rw behind (All-insert_frame _ a xs (ground arith) s.0, insert_frame-Ascending a xs s.1)
  ]

  pub insert_frame-Perm : (a : ℕ × B) (xs : List (ℕ × B)) → Perm (insert_frame a xs) (a ∷ xs)
  insert_frame-Perm a [] = Perm.refl (a ∷ [])
  insert_frame-Perm a (x ∷ xs) = elim (Bool-cases (ltb a.0 x.0)) [
    | inl before ↦ rw before (Perm.refl (a ∷ x ∷ xs))
    | inr behind ↦ rw behind (Perm.trans (Perm.cons x (insert_frame-Perm a xs)) (Perm.swap a x xs))
  ]
