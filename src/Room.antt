-- ===== src/Room.antt =====
-- The rooms of the server: RDIBY/room.h and RDIBY/room.cpp.
-- A `RoomClient` and a host's `Room` live in the handler thread that made them, so a pointer to one
-- is that thread's number; 0 is `nullptr`.
pub mod Server
pub mod Handler
pub mod Introduction
pub mod Entry
pub mod Faults
pub mod Restart
pub mod Leaving
pub mod System
use lllsi.Base.{
  ℕ, zero, suc, ◌+◌, ◌%◌, Bool, true, false, List, [], ◌∷◌, ◌++◌, ◌==◌, ◌||◌, if◌then◌else◌, length,
  get_elem?, take, drop, Option, none, some, Result, ok, err, ◌>>=◌, or_fail, Map, lookup, emplace,
  assign, erase,
}
use lllsi.Base.Error.{null_pointer, out_of_range}
use lllsi.Packet.{Bytes, dword}
use lllsi.Threads.{ThreadManager}

-- A `SocketAddrPair`, with the bytes of the address.
abbrev pub Sap : Type 0
Sap = ℕ × Bytes

pub record RoomClient : Type 0 where
  pub sap : Sap
  pub name : Bytes
  pub is_host : Bool
  pub is_leaving : Bool

abbrev pub room_client : Sap → Bytes → Bool → RoomClient
room_client sap name is_host = record {
  sap = sap;
  name = name;
  is_host = is_host;
  is_leaving = false;
}

-- The record of a room; the class is `Room`.
pub record ServerRoom : Type 0 where
  pub room_vector : List ℕ
  pub host : ℕ
  pub room_id : ℕ
  pub room_password : ℕ

pub record ServerRoomMsg : Type 0 where
  pub msg_type : ℕ
  pub sock_addr4 : Bytes

-- `ServerManager` with what it reaches. `sent` holds the messages handed to `send` by socket, in
-- order; `closed` the sockets that were closed.
pub record ServerManager : Type 0 where
  pub room_map : Map ℕ
  pub rooms : Map ServerRoom
  pub clients : Map RoomClient
  pub threads : ThreadManager
  pub sent : List (ℕ × ServerRoomMsg)
  pub closed : List ℕ

-- Reading through a pointer to an object that lives or not.
abbrev pub deref {ℓ} : {V : Type ℓ} → ℕ → Map V → Result V
deref zero m = err null_pointer
deref (suc p) m = or_fail (lookup (suc p) m) null_pointer

abbrev pub or_null : Option ℕ → ℕ
or_null none = 0
or_null (some p) = p

-- `roomMap[roomID]`, which puts a null pointer there for an unknown identifier.
unfoldable pub get_room_ptr : ℕ → ServerManager → ℕ × ServerManager
get_room_ptr room_id s =
    (or_null (lookup room_id s.room_map), record s { room_map = emplace room_id 0 s.room_map })

unfoldable pub create_new_room : ℕ → ℕ → ServerManager → Bool × ServerManager
create_new_room room_id ptr_room s =
    (true, record s { room_map = emplace room_id ptr_room s.room_map })

unfoldable pub delete_room : ℕ → ServerManager → Bool × ServerManager
delete_room room_id s = (true, record s { room_map = erase room_id s.room_map })

unfoldable pub get_room_size : ServerRoom → ℕ
get_room_size room = (length room.room_vector + (if room.host == 0 then 0 else 1)) % dword

unfoldable pub add_client_to_room : ℕ → ℕ → ServerManager → Result (Bool × ServerManager)
unfolding get_room_ptr
add_client_to_room room_id client s =
    let (ptr_room, s') = get_room_ptr room_id s in
    if (client == 0) || (ptr_room == 0)
    then ok (false, s')
    else (deref ptr_room s'.rooms >>= λ room.
        (let room' : ServerRoom = record room { room_vector = room.room_vector ++ client ∷ [] } in
          ok (true, record s' { rooms = assign ptr_room room' s'.rooms })))

-- The loop with `rounds` rounds to go: `at` throws behind the end.
unfoldable pub remove_loop : (rounds i client : ℕ) → List ℕ → Result (List ℕ)
remove_loop zero i client room_vector = ok room_vector
remove_loop (suc rounds) i client room_vector = do
  member ← or_fail (get_elem? room_vector i) out_of_range
  remove_loop rounds (i + 1) client
      (if member == client then take i room_vector ++ drop (i + 1) room_vector else room_vector)

unfoldable pub remove_client_from_room : ℕ → ℕ → ServerManager → Result (Bool × ServerManager)
unfolding get_room_ptr get_room_size
remove_client_from_room room_id client s =
    let (ptr_room, s') = get_room_ptr room_id s in
    deref ptr_room s'.rooms >>= λ room.
    (remove_loop (get_room_size room) 0 client room.room_vector >>= λ room_vector.
    (let room' : ServerRoom = record room { room_vector = room_vector } in
      ok (true, record s' { rooms = assign ptr_room room' s'.rooms })))
