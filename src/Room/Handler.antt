-- ===== src/Room/Handler.antt =====
-- The thread that serves one client: RDIBY/server.cpp `clientHandlerFunc`.
-- `hasher` is `std::hash<std::string>`. The empty struct that `firstClientInteraction` sends before
-- it reads is not recorded: `sent` holds room messages.
use lllsi.Base.{
  ℕ, ◌%◌, Bool, true, false, List, [], ◌∷◌, ◌++◌, ◌==◌, if◌then◌else◌, Option, none, some, Result,
  ok, ◌>>=◌, assign, erase,
}
use lllsi.Packet.{Bytes, dword}
use lllsi.Threads.{kill_thread}
use lllsi.Room.{
  Sap, RoomClient, room_client, ServerRoom, ServerRoomMsg, ServerManager, deref, get_room_ptr,
  create_new_room, add_client_to_room, remove_client_from_room,
}
use lllsi.Room.Server.{
  leave_msg, start_punch_msg, end_room, first_client_interaction, room_name_of, room_password_of,
  client_name_of, is_host_of,
}

-- `Room()`.
abbrev pub default_room : ServerRoom
default_room = record { room_vector = []; host = 0; room_id = 0; room_password = 0 }

-- The thread's own objects end with it.
abbrev pub unwind : ℕ → ServerManager → ServerManager
unwind h s = record s { clients = erase h s.clients; rooms = erase h s.rooms }

-- What the source does when a client may not join.
unfoldable pub refuse : ℕ → Sap → ServerManager → Result (Option ℕ × ServerManager)
refuse h sap s = do
  threads ← kill_thread (sap.0 % dword) s.threads
  ok (none, unwind h (record s { threads = threads; closed = s.closed ++ sap.0 ∷ [] }))

abbrev pub host_room : (h room_id room_pass_hash : ℕ) → ServerRoom
host_room h room_id room_pass_hash = record {
  room_vector = [];
  host = h;
  room_id = room_id;
  room_password = room_pass_hash;
}

unfoldable pub open_room :
    (h : ℕ) → Sap → (room_id room_pass_hash : ℕ) → ServerManager → Result (Option ℕ × ServerManager)
unfolding create_new_room refuse
open_room h sap room_id room_pass_hash s =
    let room = host_room h room_id room_pass_hash in
    let (c_res, s') = create_new_room room_id h (record s { rooms = assign h room s.rooms }) in
    if c_res then ok (some room_id, s') else refuse h sap s'

unfoldable pub join_room :
    (h : ℕ) → Sap → (room_id room_pass_hash : ℕ) → ServerManager → Result (Option ℕ × ServerManager)
unfolding get_room_ptr add_client_to_room refuse
join_room h sap room_id room_pass_hash s =
    let (ptr_room, s') = get_room_ptr room_id s in
    if ptr_room == 0
    then refuse h sap s'
    else (deref ptr_room s'.rooms >>= λ room.
        (if room.room_password == room_pass_hash
          then (add_client_to_room room_id h s' >>= λ added. ok (some room_id, added.1))
          else refuse h sap s'))

abbrev pub arrive : ℕ → RoomClient → ServerManager → ServerManager
arrive h client s = record s {
  clients = assign h client s.clients;
  rooms = assign h default_room s.rooms;
}

module _ (hasher : Bytes → ℕ) where
  -- Up to the loop: in which room the client is, if it may stay.
  unfoldable pub enter :
      ℕ → Sap → (received : Bytes) → ServerManager → Result (Option ℕ × ServerManager)
  unfolding open_room join_room
  enter h sap received s = do
    let id_data = first_client_interaction received
    room_name ← room_name_of id_data
    room_pass ← room_password_of id_data
    let arrived = arrive h (room_client sap (client_name_of id_data) (is_host_of id_data)) s
    if is_host_of id_data
        then open_room h sap (hasher room_name) (hasher room_pass) arrived
        else join_room h sap (hasher room_name) (hasher room_pass) arrived

-- A client leaves: a host ends the room.
unfoldable pub depart : ℕ → RoomClient → (room_id : ℕ) → ServerManager → Result ServerManager
unfolding end_room remove_client_from_room
depart h client room_id s =
    if client.is_host
    then end_room room_id false s
    else (remove_client_from_room room_id h s >>= λ removed. ok removed.1)

-- One round of the loop, with what `recvData` returned and what is then in the buffer. The first
-- component says whether the loop goes on.
unfoldable pub handle_message :
    ℕ → (room_id recv_res : ℕ) → ServerRoomMsg → ServerManager → Result (Bool × ServerManager)
unfolding depart end_room
handle_message h room_id recv_res msg_buffer s = deref h s.clients >>= λ client.
    (if recv_res == 0
      then (if client.is_leaving
          then ok (false, s)
          else (depart h client room_id s >>= λ gone.
              ok (false, record gone { closed = gone.closed ++ client.sap.0 ∷ [] })))
      else (if msg_buffer.msg_type == leave_msg
          then (depart h client room_id s >>= λ gone. ok (false, gone))
          else (if msg_buffer.msg_type == start_punch_msg
              then (if client.is_host
                  then (end_room room_id true s >>= λ started. ok (true, started))
                  else ok (true, s))
              else ok (true, s))))

-- Behind the loop.
unfoldable pub finish : ℕ → Sap → ServerManager → Result ServerManager
finish h sap s = do
  threads ← kill_thread (sap.0 % dword) s.threads
  ok (unwind h (record s { threads = threads }))

-- The loop over what the client sends; it waits for more when the list is used up.
unfoldable pub client_loop :
    ℕ → Sap → (room_id : ℕ) → List (ℕ × ServerRoomMsg) → ServerManager → Result ServerManager
unfolding handle_message finish
client_loop h sap room_id [] s = ok s
client_loop h sap room_id (m ∷ ms) s = handle_message h room_id m.0 m.1 s >>= λ handled.
    (if handled.0 then client_loop h sap room_id ms handled.1 else finish h sap handled.1)

module _ (hasher : Bytes → ℕ) where
  unfoldable pub client_handler_func :
      ℕ → Sap → (received : Bytes) → List (ℕ × ServerRoomMsg) → ServerManager → Result ServerManager
  unfolding enter client_loop
  client_handler_func h sap received messages s = enter hasher h sap received s >>= λ entered.
      (elim entered.0 [
        | none ↦ ok entered.1
        | some room_id ↦ client_loop h sap room_id messages entered.1
      ])
