-- ===== src/Handshake/Fields.antt =====
-- The fields of `first_server_client_interaction` in memory.
use lllsi.Base.{
  ℕ, zero, suc, ◌+◌, ◌≤◌, ◌<◌, ◌≡◌, refl, ap, ◌∙◌, [], ◌∷◌, ◌++◌, length, take, replicate,
  overwrite, All, ok, Result, ◌>>=◌, arith, length-overwrite,
}
use lllsi.Packet.{Bytes}
use lllsi.Room.Server.{c_string, first_client_interaction}

-- A write behind the first part, and one inside it.
overwrite_behind :
    (o j : ℕ) (xs zs ys : Bytes)
    → o ≡ length xs + j
    → overwrite (xs ++ zs) o ys ≡ xs ++ overwrite zs j ys
unfolding overwrite
overwrite_behind o j [] zs ys e = ap (λ (k : ℕ). overwrite zs k ys) (omega arith)
overwrite_behind zero j (x ∷ xs) zs ys e = absurd (omega arith)
overwrite_behind (suc o) j (x ∷ xs) zs ys e =
    ap (◌∷◌ x) (overwrite_behind o j xs zs ys (omega arith))

overwrite_front :
    (xs zs ys : Bytes) → length ys ≤ length xs → overwrite (xs ++ zs) 0 ys ≡ overwrite xs 0 ys ++ zs
unfolding overwrite
overwrite_front [] [] [] h = refl
overwrite_front [] (z ∷ zs) [] h = refl
overwrite_front [] zs (y ∷ ys) h = absurd (omega arith)
overwrite_front (x ∷ xs) zs [] h = refl
overwrite_front (x ∷ xs) zs (y ∷ ys) h = ap (◌∷◌ y) (overwrite_front xs zs ys (omega arith))

-- Zeros over zeros.
overwrite-replicate :
    (n m : ℕ) → overwrite (replicate n 0) 0 (replicate m 0) ≡ replicate n (let z : ℕ = 0 in z)
unfolding overwrite
overwrite-replicate zero m = refl
overwrite-replicate (suc n) zero = refl
overwrite-replicate (suc n) (suc m) = ap (◌∷◌ 0) (overwrite-replicate n m)

take-replicate : (n m : ℕ) → (k : ℕ) × (take n (replicate m 0) ≡ replicate k (let z : ℕ = 0 in z))
take-replicate zero m = (0, refl)
take-replicate (suc n) zero = (0, refl)
take-replicate (suc n) (suc m) = let (k, e) = take-replicate n m in (suc k, ap (◌∷◌ 0) e)

-- Whatever part of the server's empty struct came in.
pub first_client_interaction-replicate :
    (n : ℕ) → first_client_interaction (replicate n 0) ≡ replicate 52 0
first_client_interaction-replicate n =
    let (k, e) = take-replicate 52 n in
    ap (overwrite (replicate 52 0) 0) e ∙ overwrite-replicate 52 k

-- A field of 16 zeros with a name in it.
abbrev pub field : Bytes → Bytes
field name = overwrite (replicate 16 0) 0 name

pub length-field : (name : Bytes) → length (field name) ≡ 16
length-field name = length-overwrite (replicate 16 0) 0 name

-- The struct by its fields.
abbrev pub fields : (room name password tail : Bytes) → Bytes
fields room name password tail = room ++ (name ++ (password ++ tail))

module _ (a b c t ys : Bytes) (ha : length a ≡ 16) (hb : length b ≡ 16) (hc : length c ≡ 16) where
  pub write_first :
      length ys ≤ 16 → overwrite (fields a b c t) 0 ys ≡ fields (overwrite a 0 ys) b c t
  write_first h = overwrite_front a (b ++ (c ++ t)) ys (omega arith)

  pub write_second :
      length ys ≤ 16 → overwrite (fields a b c t) 16 ys ≡ fields a (overwrite b 0 ys) c t
  write_second h =
      overwrite_behind 16 0 a (b ++ (c ++ t)) ys (omega arith)
      ∙ ap (λ (z : Bytes). a ++ z) (overwrite_front b (c ++ t) ys (omega arith))

  pub write_third :
      length ys ≤ 16 → overwrite (fields a b c t) 32 ys ≡ fields a b (overwrite c 0 ys) t
  write_third h =
      overwrite_behind 32 16 a (b ++ (c ++ t)) ys (omega arith)
      ∙ ap (λ (z : Bytes). a ++ z)
          (overwrite_behind 16 0 b (c ++ t) ys (omega arith)
            ∙ ap (λ (z : Bytes). b ++ z) (overwrite_front c t ys (omega arith)))

  pub write_tail :
      (o j : ℕ) → o ≡ 48 + j → overwrite (fields a b c t) o ys ≡ fields a b c (overwrite t j ys)
  write_tail o j e =
      overwrite_behind o (32 + j) a (b ++ (c ++ t)) ys (omega arith)
      ∙ ap (λ (z : Bytes). a ++ z)
          (overwrite_behind (32 + j) (16 + j) b (c ++ t) ys (omega arith)
            ∙ ap (λ (z : Bytes). b ++ z) (overwrite_behind (16 + j) j c t ys (omega arith)))

-- No character of a name is 0.
abbrev pub Text : Bytes → Type 0
Text = All (λ (c : ℕ). 0 < c)

-- A name that leaves room for a 0 is read back, whatever follows.
pub c_string-overwrite :
    (n : ℕ) (name rest : Bytes)
    → length name < n
    → Text name
    → c_string (overwrite (replicate n 0) 0 name ++ rest) ≡ ok name
unfolding overwrite
c_string-overwrite zero name rest h v = absurd (omega arith)
c_string-overwrite (suc n) [] rest h v = refl
c_string-overwrite (suc n) (zero ∷ name) rest h v = absurd (omega (arith, v.0))
c_string-overwrite (suc n) (suc c ∷ name) rest h v =
    ap (λ (r : Result Bytes). r >>= λ (tail : Bytes). ok (suc c ∷ tail))
      (c_string-overwrite n name rest (omega arith) v.1)

-- A text runs on into what follows it.
pub c_string-append :
    (name rest tail : Bytes)
    → Text name
    → c_string rest ≡ ok tail
    → c_string (name ++ rest) ≡ ok (name ++ tail)
c_string-append [] rest tail v e = e
c_string-append (zero ∷ name) rest tail v e = absurd (omega (arith, v.0))
c_string-append (suc c ∷ name) rest tail v e =
    ap (λ (r : Result Bytes). r >>= λ (t : Bytes). ok (suc c ∷ t))
      (c_string-append name rest tail v.1 e)
