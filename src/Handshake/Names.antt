-- ===== src/Handshake/Names.antt =====
-- What the server, RDIBY/server.cpp `clientHandlerFunc`, makes of what the client sent.
use lllsi.Base.{
  ℕ, ◌%◌, ◌≤◌, ◌≡◌, refl, ap, ◌∙◌, false, [], ◌∷◌, ◌++◌, ◌||◌, length, replicate, overwrite, some,
  ltb, arith, length-append, length-overwrite, length-replicate,
}
use lllsi.Packet.{Bytes}
use lllsi.Room.Server.{first_client_interaction}
use lllsi.Handshake.{Client, bool_byte, write_name, first_server_interaction}
use lllsi.Handshake.Fields.{
  field, fields, length-field, write_first, write_second, write_third, write_tail,
  first_client_interaction-replicate,
}

abbrev pub tail_bytes : Client → Bytes
tail_bytes c =
    (length c.name % 256)
    ∷ (length c.room_name % 256)
    ∷ (length c.room_password % 256)
    ∷ bool_byte c.is_host
    ∷ []

abbrev pub sent_struct : Client → Bytes
sent_struct c = fields (field c.room_name) (field c.name) (field c.room_password) (tail_bytes c)

pub length-sent_struct : (c : Client) → length (sent_struct c) ≡ 52
length-sent_struct c = omega (
  arith,
  length-append (field c.room_name) (field c.name ++ (field c.room_password ++ tail_bytes c)),
  length-append (field c.name) (field c.room_password ++ tail_bytes c),
  length-append (field c.room_password) (tail_bytes c),
  length-field c.room_name,
  length-field c.name,
  length-field c.room_password,
)

-- The names are no longer than their fields.
abbrev pub NamesFit : Client → Type 0
NamesFit c = (length c.name ≤ 16) × (length c.room_name ≤ 16) × (length c.room_password ≤ 16)

-- Each name goes into its own field, and its length into its own byte.
module _ (a b c t name : Bytes) (ha : length a ≡ 16) (hb : length b ≡ 16) (hc : length c ≡ 16)
    (short : length name ≤ 16) where
  abbrev len : Bytes
  len = (length name % 256) ∷ []

  write_name_room :
      write_name 0 49 name (fields a b c t) ≡ fields (overwrite a 0 name) b c (overwrite t 1 len)
  unfolding write_name
  write_name_room =
      ap (λ (z : Bytes). overwrite z 49 len) (write_first a b c t name ha hb hc short)
      ∙ write_tail (overwrite a 0 name) b c t len (length-overwrite a 0 name ∙ ha) hb hc 49 1 refl

  write_name_user :
      write_name 16 48 name (fields a b c t) ≡ fields a (overwrite b 0 name) c (overwrite t 0 len)
  unfolding write_name
  write_name_user =
      ap (λ (z : Bytes). overwrite z 48 len) (write_second a b c t name ha hb hc short)
      ∙ write_tail a (overwrite b 0 name) c t len ha (length-overwrite b 0 name ∙ hb) hc 48 0 refl

  write_name_password :
      write_name 32 50 name (fields a b c t) ≡ fields a b (overwrite c 0 name) (overwrite t 2 len)
  unfolding write_name
  write_name_password =
      ap (λ (z : Bytes). overwrite z 50 len) (write_third a b c t name ha hb hc short)
      ∙ write_tail a b (overwrite c 0 name) t len ha hb (length-overwrite c 0 name ∙ hc) 50 2 refl

named_struct :
    (n : ℕ) (c : Client)
    → NamesFit c
    → write_name 32 50 c.room_password (
        write_name 0 49 c.room_name
          (write_name 16 48 c.name (first_client_interaction (replicate n 0))))
      ≡ fields (field c.room_name) (field c.name) (field c.room_password) (
          (length c.name % 256)
          ∷ (length c.room_name % 256)
          ∷ (length c.room_password % 256)
          ∷ 0
          ∷ [])
unfolding overwrite
named_struct n c (fit_name, fit_room, fit_password) =
    let zeros : Bytes = replicate 16 0 in
    let l = length-replicate {A = ℕ} 16 0 in
    let name = length-field c.name in
    let room = length-field c.room_name in
    ap
      (λ (z : Bytes).
        write_name 32 50 c.room_password (write_name 0 49 c.room_name (write_name 16 48 c.name z)))
      (first_client_interaction-replicate n)
    ∙ ap (λ (z : Bytes). write_name 32 50 c.room_password (write_name 0 49 c.room_name z))
        (write_name_user zeros zeros zeros (replicate 4 0) c.name l l l fit_name)
    ∙ ap (write_name 32 50 c.room_password)
        (write_name_room zeros (field c.name) zeros _ c.room_name l name l fit_room)
    ∙ write_name_password (field c.room_name) (field c.name) zeros _ c.room_password room name l
        fit_password

pub first_server_interaction_lem :
    (n : ℕ) (c : Client)
    → NamesFit c
    → first_server_interaction (replicate n 0) c ≡ some (sent_struct c)
unfolding first_server_interaction overwrite
first_server_interaction_lem n c fit =
    let short : (ltb 16 (length c.name)
          || (ltb 16 (length c.room_name) || ltb 16 (length c.room_password)))
        ≡ false =
      ground arith in
    let bit = bool_byte c.is_host ∷ [] in
    let written =
      ap (λ (z : Bytes). overwrite z 51 bit) (named_struct n c fit)
      ∙ write_tail (field c.room_name) (field c.name) (field c.room_password) _ bit
          (length-field c.room_name) (length-field c.name) (length-field c.room_password) 51 3
          refl in
    rw short (ap some written)
