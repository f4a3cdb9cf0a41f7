-- ===== src/Video/Encoder.antt =====
-- Which encoder RDIBY/video.cpp `getEncoder` chooses.
use lllsi.Base.{
  ℕ, suc, ◌+◌, ◌≡◌, refl, ap, ◌∙◌, inl, inr, true, false, List, [], ◌∷◌, ◌++◌, length, get_elem?,
  ok, bind_eq, or_fail, All, Bool-cases, arith, some,
}
use lllsi.Base.Error.{out_of_bounds}
use lllsi.Video.{null, ImageCodecInfo, same_string, encoder_loop, get_encoder}

module _ (name : List ℕ) where
  -- None of the codecs has that MIME type.
  abbrev pub Lacks : List ImageCodecInfo → Type 0
  Lacks codecs = All (λ (codec : ImageCodecInfo). same_string codec.mime_type name ≡ false) codecs

  -- The first codec of that MIME type, or none.
  pub data Chooses : List ImageCodecInfo → ℕ → Type 0 where
    nothing : {codecs : List ImageCodecInfo} → Lacks codecs → Chooses codecs null
    first :
        (before : List ImageCodecInfo) (codec : ImageCodecInfo) (after : List ImageCodecInfo)
        → Lacks before
        → same_string codec.mime_type name ≡ true
        → Chooses (before ++ codec ∷ after) codec.clsid

  Chooses-cons :
      (codec : ImageCodecInfo) (codecs : List ImageCodecInfo) (c : ℕ)
      → same_string codec.mime_type name ≡ false
      → Chooses codecs c
      → Chooses (codec ∷ codecs) c
  Chooses-cons codec codecs c e (nothing l) = nothing (e, l)
  Chooses-cons codec codecs c e (first before found after l same) =
      first (codec ∷ before) found after (e, l) same

  encoder_loop_lem :
      (i : ℕ) (enc codecs : List ImageCodecInfo)
      → ((k : ℕ) → get_elem? enc (i + k) ≡ get_elem? codecs k)
      → (c : ℕ) × (encoder_loop (length codecs) i enc name ≡ ok c) × Chooses codecs c
  unfolding encoder_loop
  encoder_loop_lem i enc [] at = (null, refl, nothing tt)
  encoder_loop_lem i enc (codec ∷ codecs) at =
      let here : get_elem? enc i ≡ some codec = ap (get_elem? enc) (omega arith) ∙ at 0 in
      let there : (k : ℕ) → get_elem? enc ((i + 1) + k) ≡ get_elem? codecs k =
        λ k. ap (get_elem? enc) (omega arith) ∙ at (suc k) in
      let (c, found, chosen) = encoder_loop_lem (i + 1) enc codecs there in
      elim (Bool-cases (same_string codec.mime_type name)) [
        | inl same ↦ (
          codec.clsid,
          bind_eq _ (ap (λ o. or_fail o out_of_bounds) here) (rw same refl),
          first [] codec codecs tt same,
        )
        | inr other ↦ (
          c,
          bind_eq _ (ap (λ o. or_fail o out_of_bounds) here) (rw other found),
          Chooses-cons codec codecs c other chosen,
        )
      ]

  -- For the codecs that are installed, getEncoder reads no entry behind the last, and answers the first
  -- codec with the MIME type asked for, or CLSID_NULL if there is none.
  pub get_encoder_lem :
      (codecs : List ImageCodecInfo)
      → (c : ℕ) × (get_encoder (length codecs) codecs name ≡ ok c) × Chooses codecs c
  unfolding get_encoder
  get_encoder_lem codecs =
      encoder_loop_lem 0 codecs codecs (λ k. ap (get_elem? codecs) (omega arith))
