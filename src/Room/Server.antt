-- ===== src/Room/Server.antt =====
-- The server's side of a client: RDIBY/server.cpp `endRoom`, `clientHandlerFunc`.
use lllsi.Base.{
  ℕ, zero, suc, Bool, true, false, List, [], ◌∷◌, ◌++◌, ◌==◌, not, take, drop, replicate, Result,
  ok, err, ◌>>=◌, assign, overwrite,
}
use lllsi.Base.Error.{out_of_bounds}
use lllsi.Packet.{Bytes}
use lllsi.Room.{Sap, RoomClient, ServerRoomMsg, ServerManager, deref, get_room_ptr, delete_room}

abbrev pub leave_msg : ℕ
leave_msg = 1

abbrev pub start_punch_msg : ℕ
start_punch_msg = 3

-- `{ 0 }` with the type filled in: the address is 16 zero bytes.
abbrev pub bare_msg : ℕ → ServerRoomMsg
bare_msg msg_type = record { msg_type = msg_type; sock_addr4 = replicate 16 0 }

abbrev pub punch_msg : Bytes → ServerRoomMsg
punch_msg addr = record { msg_type = start_punch_msg; sock_addr4 = addr }

abbrev pub send_msg : ℕ → ServerRoomMsg → ServerManager → ServerManager
send_msg sock msg s = record s { sent = s.sent ++ (sock, msg) ∷ [] }

abbrev pub set_leaving : ℕ → RoomClient → ServerManager → ServerManager
set_leaving p client s = record s {
  clients = assign p (record client { is_leaving = true }) s.clients;
}

-- The host gets every client's address.
unfoldable pub tell_host : (host_sock : ℕ) → List ℕ → ServerManager → Result ServerManager
tell_host host_sock [] s = ok s
tell_host host_sock (p ∷ ps) s = do
  client ← deref p s.clients
  tell_host host_sock ps (send_msg host_sock (punch_msg client.sap.1) s)

-- Every client gets the host's address, then its own.
unfoldable pub tell_clients : (host_addr : Bytes) → List ℕ → ServerManager → Result ServerManager
tell_clients host_addr [] s = ok s
tell_clients host_addr (p ∷ ps) s = do
  client ← deref p s.clients
  let left = set_leaving p client s
  let told = send_msg client.sap.0 (punch_msg host_addr) left
  tell_clients host_addr ps (send_msg client.sap.0 (punch_msg client.sap.1) told)

unfoldable pub send_off : List ℕ → ServerManager → Result ServerManager
send_off [] s = ok s
send_off (p ∷ ps) s = do
  client ← deref p s.clients
  send_off ps (send_msg client.sap.0 (bare_msg leave_msg) s)

-- The block under `if (startStreaming)`.
unfoldable pub introduce :
    (start_streaming : Bool) → Sap → List ℕ → ServerManager → Result ServerManager
unfolding tell_host tell_clients
introduce false host_sap clients s = ok s
introduce true host_sap clients s = do
  told ← tell_host host_sap.0 clients (send_msg host_sap.0 (punch_msg host_sap.1) s)
  tell_clients host_sap.1 clients told

unfoldable pub end_room : ℕ → Bool → ServerManager → Result ServerManager
unfolding get_room_ptr delete_room introduce send_off
end_room room_id start_streaming s0 = do
  let (room_ptr, s) = get_room_ptr room_id s0
  room ← deref room_ptr s.rooms
  host ← deref room.host s.clients
  introduced ← introduce start_streaming host.sap room.room_vector s
  sent_off ← send_off room.room_vector introduced
  host_now ← deref room.host sent_off.clients
  let gone = send_msg host.sap.0 (bare_msg leave_msg) (set_leaving room.host host_now sent_off)
  ok (delete_room room_id gone).1

-- The bytes before the first 0; behind the struct lies memory that is not ours.
abbrev pub c_string : Bytes → Result Bytes
c_string [] = err out_of_bounds
c_string (zero ∷ rest) = ok []
c_string (suc c ∷ rest) = do tail ← c_string rest; ok (suc c ∷ tail)

-- `first_server_client_interaction`: three names of 16 bytes, their lengths, and `isHost`.
abbrev pub sizeof_first_interaction : ℕ
sizeof_first_interaction = 52

-- `firstClientInteraction`: what came in, at most the struct's size, over zeros.
abbrev pub first_client_interaction : Bytes → Bytes
first_client_interaction received =
    overwrite (replicate sizeof_first_interaction 0) 0 (take sizeof_first_interaction received)

abbrev pub room_name_of : Bytes → Result Bytes
room_name_of id_data = c_string id_data

abbrev pub client_name_of : Bytes → Bytes
client_name_of id_data = take 16 (drop 16 id_data)

abbrev pub room_password_of : Bytes → Result Bytes
room_password_of id_data = c_string (drop 32 id_data)

abbrev pub is_zero : Bytes → Bool
is_zero [] = true
is_zero (b ∷ bs) = b == 0

abbrev pub is_host_of : Bytes → Bool
is_host_of id_data = not (is_zero (drop 51 id_data))
