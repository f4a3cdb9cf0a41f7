-- ===== src/Examples/Crowds.antt =====
-- A host and a guest, each with its thread on the server.
use lllsi.Base.{
  ℕ, ◌≡◌, refl, false, List, [], ◌∷◌, ◌++◌, replicate, some, none, ok, err, Error, lookup, emplace,
  assign, overwrite, arith,
}
use lllsi.Packet.{Bytes}
use lllsi.Threads.{ConThread, create_new_thread}
use lllsi.Room.{Sap, room_client, deref, create_new_room, get_room_ptr, add_client_to_room}
use lllsi.Room.Server.{bare_msg, leave_msg}
use lllsi.Room.Handler.{handle_message, enter, open_room, join_room}
use lllsi.Room.Introduction.{Ended}
use lllsi.Room.System.{System, Serial, start, later, enters}
use lllsi.Room.System.Open.{IsSound}
use lllsi.Room.System.Invariant.{Serial-IsSound, end_room-Serial, hang_up-Serial}
use lllsi.Examples.Rooms.{host_sap, guest_sap}
use lllsi.Examples.Greetings.{by_length}

-- The room "den", a client's name, the password "pw", and whether it is the host.
abbrev greeting : (letter host : ℕ) → Bytes
greeting letter host =
    100 ∷ 101 ∷ 110 ∷ replicate 13 0
    ++ (letter ∷ replicate 15 0 ++ (112 ∷ 119 ∷ replicate 14 0 ++ 3 ∷ 1 ∷ 2 ∷ host ∷ []))

abbrev con_thread : ConThread
con_thread = record { stop_event = 9; thread = none }

crowd : (s : System) × Serial by_length s
unfolding enter open_room join_room create_new_room get_room_ptr add_client_to_room
    create_new_thread lookup emplace assign overwrite
crowd = (
  _,
  later (later start (enters 0 host_sap con_thread 8 (greeting 97 1) 3 _ refl refl))
      (enters 1 guest_sap con_thread 7 (greeting 98 0) 3 _ refl refl),
)

den_known : lookup 3 crowd.0.server.room_map ≡ some 1
unfolding crowd lookup
den_known = refl

guest_found :
    deref 2 crowd.0.server.clients ≡ ok (room_client guest_sap (98 ∷ replicate 15 0) false)
unfolding crowd lookup
guest_found = refl

Serial-IsSound_example : IsSound crowd.0.server crowd.0.job
Serial-IsSound_example = Serial-IsSound crowd.1

end_room-Serial_example : (host : Sap) × (bs : List Sap) × Ended crowd.0.server 3 false host bs
end_room-Serial_example = end_room-Serial 3 0 false crowd.1 den_known

hang_up-Serial_example :
    (e : Error) × (handle_message 2 3 0 (bare_msg leave_msg) crowd.0.server ≡ err e)
unfolding crowd
hang_up-Serial_example =
    hang_up-Serial 2 3 guest_sap (room_client guest_sap (98 ∷ replicate 15 0) false)
      (bare_msg leave_msg) crowd.1 (omega arith, (omega arith, tt)) refl guest_found refl refl
