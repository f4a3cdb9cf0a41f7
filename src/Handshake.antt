-- ===== src/Handshake.antt =====
-- The client's side of the first exchange with the server: RDIBY/client.cpp
-- `firstServerInteraction`; Room/Server and Room/Handler have the server's side.
pub mod Fields
pub mod Names
pub mod Greeting
use lllsi.Base.{
  ℕ, ◌%◌, Bool, List, [], ◌∷◌, ◌||◌, ltb, if◌then◌else◌, length, overwrite, Option, none, some,
}
use lllsi.Packet.{Bytes}
use lllsi.Room.Server.{first_client_interaction}

pub record Client : Type 0 where
  pub name : Bytes
  pub room_name : Bytes
  pub room_password : Bytes
  pub is_host : Bool

-- A `bool` in the struct.
abbrev pub bool_byte : Bool → ℕ
bool_byte b = if b then 1 else 0

-- A name copied into its field, and its length into the byte for it.
unfoldable pub write_name : (field length_byte : ℕ) → Bytes → Bytes → Bytes
write_name field length_byte name fsi =
    overwrite (overwrite fsi field name) length_byte ((length name % 256) ∷ [])

-- The struct that is sent, made over what the server sent before; nothing if a name is too long. Both
-- sides read what comes in over zeros.
unfoldable pub first_server_interaction : (greeting : Bytes) → Client → Option Bytes
unfolding write_name
first_server_interaction greeting c =
    let fsi = first_client_interaction greeting in
    let named = write_name 16 48 c.name fsi in
    let roomed = write_name 0 49 c.room_name named in
    let secret = write_name 32 50 c.room_password roomed in
    if ltb 16 (length c.name) || (ltb 16 (length c.room_name) || ltb 16 (length c.room_password))
    then none
    else some (overwrite secret 51 (bool_byte c.is_host ∷ []))
