-- ===== src/Handshake/Greeting.antt =====
-- What RDIBY/server.cpp `clientHandlerFunc` reads from the struct that RDIBY/client.cpp
-- `firstServerInteraction` sends.
use lllsi.Base.{
  ℕ, ◌<◌, ◌≡◌, refl, sym, ap, ◌∙◌, [], ◌++◌, length, take, drop, replicate, overwrite, some, ok,
  bind_eq, if◌then◌else◌, arith, not, take-append, drop-append, drop-drop, append-nil,
  overwrite_whole, length-replicate, Bool-cases, inl, inr,
}
use lllsi.Packet.{Bytes}
use lllsi.Room.{Sap, ServerManager, room_client}
use lllsi.Room.Server.{
  c_string, first_client_interaction, room_name_of, client_name_of, room_password_of, is_host_of,
  is_zero,
}
use lllsi.Room.Handler.{arrive, enter, open_room, join_room}
use lllsi.Handshake.{Client, first_server_interaction}
use lllsi.Handshake.Fields.{Text, field, length-field, c_string-overwrite, c_string-append}
use lllsi.Handshake.Names.{
  NamesFit, tail_bytes, sent_struct, length-sent_struct, first_server_interaction_lem,
}

first_client_interaction_whole :
    (received : Bytes) → length received ≡ 52 → first_client_interaction received ≡ received
first_client_interaction_whole received e =
    ap (λ (z : Bytes). overwrite (replicate 52 0) 0 z)
      (ap (take 52) (sym (append-nil received)) ∙ take-append 52 received [] e)
    ∙ overwrite_whole (replicate 52 0) received (length-replicate 52 (let z : ℕ = 0 in z) ∙ sym e)

-- The names are texts that leave room for a 0.
abbrev pub NamesEnd : Client → Type 0
NamesEnd c =
    (length c.name < 16)
    × (length c.room_name < 16)
    × (length c.room_password < 16)
    × Text c.name
    × Text c.room_name
    × Text c.room_password

pub NamesEnd-NamesFit : (c : Client) → NamesEnd c → NamesFit c
NamesEnd-NamesFit c (short, short_room, short_password, _, _, _) =
    (omega arith, omega arith, omega arith)

module _ (c : Client) where
  behind_room : drop 16 (sent_struct c) ≡ field c.name ++ (field c.room_password ++ tail_bytes c)
  behind_room = drop-append 16 (field c.room_name) _ (length-field c.room_name)

  behind_name : drop 32 (sent_struct c) ≡ field c.room_password ++ tail_bytes c
  behind_name =
      sym (drop-drop 16 16 32 (sent_struct c) refl)
      ∙ ap (drop 16) behind_room
      ∙ drop-append 16 (field c.name) _ (length-field c.name)

  is_host_of-sent_struct : is_host_of (sent_struct c) ≡ c.is_host
  is_host_of-sent_struct =
      ap (λ (z : Bytes). not (is_zero z))
        (sym (drop-drop 19 32 51 (sent_struct c) refl)
          ∙ ap (drop 19) behind_name
          ∙ sym (drop-drop 3 16 19 (field c.room_password ++ tail_bytes c) refl)
          ∙ ap (drop 3) (drop-append 16 (field c.room_password) _ (length-field c.room_password)))
      ∙ elim (Bool-cases c.is_host) [ inl host ↦ rw host refl | inr member ↦ rw member refl ]

  client_name_of-sent_struct : client_name_of (sent_struct c) ≡ field c.name
  client_name_of-sent_struct =
      ap (take 16) behind_room ∙ take-append 16 (field c.name) _ (length-field c.name)

-- The server comes to the same room with the same password, and keeps the name.
abbrev pub Understood : (Bytes → ℕ) → ℕ → Client → ℕ → Sap → ServerManager → Type 0
Understood hasher n c h sap s =
    let arrived = arrive h (room_client sap (field c.name) c.is_host) s in
    (sent : Bytes) × (first_server_interaction (replicate n 0) c ≡ some sent)
    × (length sent ≡ 52)
    × (c_string (field c.name) ≡ ok c.name)
    × (enter hasher h sap sent s ≡ (
        if c.is_host
        then open_room h sap (hasher c.room_name) (hasher c.room_password) arrived
        else join_room h sap (hasher c.room_name) (hasher c.room_password) arrived))

-- A client whose names are texts of fewer than 16 characters sends 52 bytes from which the server reads
-- the same room name, password and host flag and opens or joins that room, and which hold its name up
-- to the first 0.
pub enter-first_server_interaction :
    (hasher : Bytes → ℕ) (n : ℕ) (c : Client) (h : ℕ) (sap : Sap) (s : ServerManager)
    → NamesEnd c
    → Understood hasher n c h sap s
unfolding enter
enter-first_server_interaction hasher n c h sap s
      (short, short_room, short_password, t, t_room, t_password) =
    let fit = NamesEnd-NamesFit c (short, short_room, short_password, t, t_room, t_password) in
    let sent = sent_struct c in
    let room =
      c_string-overwrite 16 c.room_name (field c.name ++ (field c.room_password ++ tail_bytes c))
        short_room t_room in
    let password =
      ap c_string (behind_name c)
      ∙ c_string-overwrite 16 c.room_password (tail_bytes c) short_password t_password in
    let name =
      ap c_string (sym (append-nil (field c.name))) ∙ c_string-overwrite 16 c.name [] short t in
    let read = first_client_interaction_whole sent (length-sent_struct c) in
    (
      sent,
      first_server_interaction_lem n c fit,
      length-sent_struct c,
      name,
      bind_eq _ (ap c_string read ∙ room) (
          bind_eq _ (ap (λ (z : Bytes). room_password_of z) read ∙ password)
            (rw (read, is_host_of-sent_struct c, client_name_of-sent_struct c) refl)),
    )

-- The client sends a room name of exactly 16 characters, but the server reads it with the client's
-- name, a text of fewer than 16 characters, run on behind it.
pub room_name_of-first_server_interaction :
    (n : ℕ) (c : Client)
    → NamesFit c
    → length c.room_name ≡ 16
    → length c.name < 16
    → Text c.room_name
    → Text c.name
    → (sent : Bytes) × (first_server_interaction (replicate n 0) c ≡ some sent)
      × (room_name_of (first_client_interaction sent) ≡ ok (c.room_name ++ c.name))
room_name_of-first_server_interaction n c fit full short t_room t = (
  sent_struct c,
  first_server_interaction_lem n c fit,
  ap c_string (first_client_interaction_whole (sent_struct c) (length-sent_struct c))
      ∙ ap
          (λ (z : Bytes). c_string (z ++ (field c.name ++ (field c.room_password ++ tail_bytes c))))
          (overwrite_whole (replicate 16 0) c.room_name
            (length-replicate 16 (let z : ℕ = 0 in z) ∙ sym full))
      ∙ c_string-append c.room_name _ c.name t_room
          (c_string-overwrite 16 c.name (field c.room_password ++ tail_bytes c) short t),
)
