-- ===== src/Examples/Rooms.antt =====
-- A room of the server with one host and one member.
use lllsi.Base.{◌≡◌, refl, true, false, [], ◌∷◌, replicate, some, none, lookup, inr}
use lllsi.Room.{Sap, room_client, ServerManager}
use lllsi.Room.Server.{bare_msg, start_punch_msg, leave_msg}
use lllsi.Room.Restart.{Restarted, handle_message-handle_message}
use lllsi.Room.System.Overlap.{Overlapped, send_off-finish}
use lllsi.Room.Leaving.{HungUp, handle_message-end_room}
use lllsi.Room.Introduction.{OpenRoom, Ended, end_room_lem}
use lllsi.Room.Faults.{Haunted, Usurped, join_room-Haunted, open_room-Usurped}

abbrev pub host_sap : Sap
host_sap = (100, replicate 16 1)

abbrev pub guest_sap : Sap
guest_sap = (200, replicate 16 2)

abbrev pub late_sap : Sap
late_sap = (300, replicate 16 3)

-- Handler 1 serves the host, 2 a member, 3 a client that is not in a room yet.
abbrev pub busy_server : ServerManager
busy_server = record {
  room_map = (5, 1) ∷ [];
  rooms = (1, record { room_vector = 2 ∷ []; host = 1; room_id = 5; room_password = 77 }) ∷ [];
  clients =
      (1, room_client host_sap [] true)
      ∷ (2, room_client guest_sap [] false)
      ∷ (3, room_client late_sap [] false)
      ∷ [];
  threads = record {
    thread_map =
        (300, record { stop_event = 9; thread = some 8 })
        ∷ (200, record { stop_event = 10; thread = some 7 })
        ∷ [];
    signalled = [];
  };
  sent = [];
  closed = [];
}

pub busy_room : OpenRoom busy_server 5 1 host_sap (guest_sap ∷ [])
unfolding lookup
busy_room = record {
  room = record { room_vector = 2 ∷ []; host = 1; room_id = 5; room_password = 77 };
  mapped = refl;
  kept = refl;
  host_lives = (room_client host_sap [] true, refl, refl);
  members_live = ((room_client guest_sap [] false, refl, refl), tt);
}

room_6_missing : lookup 6 busy_server.room_map ≡ none
unfolding lookup
room_6_missing = refl

late_thread :
    lookup 300 busy_server.threads.thread_map ≡ some (record { stop_event = 9; thread = some 8 })
unfolding lookup
late_thread = refl

end_room_lem_example : Ended busy_server 5 true host_sap (guest_sap ∷ [])
end_room_lem_example = end_room_lem busy_server 5 1 true host_sap (guest_sap ∷ []) busy_room

guest_thread :
    lookup 200 busy_server.threads.thread_map ≡ some (record { stop_event = 10; thread = some 7 })
unfolding lookup
guest_thread = refl

handle_message-handle_message_example :
    Restarted busy_server 5 1 4 4 (bare_msg start_punch_msg) (bare_msg leave_msg)
unfolding busy_room lookup
handle_message-handle_message_example =
    handle_message-handle_message busy_server 5 1 4 4 host_sap (guest_sap ∷ [])
      (room_client host_sap [] true) (bare_msg start_punch_msg) (bare_msg leave_msg) busy_room
      (refl, tt) refl refl refl refl refl (inr refl)

send_off-finish_example : Overlapped busy_server 5 2 host_sap guest_sap (2 ∷ []) (bare_msg 0)
unfolding busy_room
send_off-finish_example =
    send_off-finish busy_server 5 1 2 host_sap guest_sap (guest_sap ∷ [])
      (record { stop_event = 10; thread = some 7 }) [] [] (bare_msg 0) busy_room refl guest_thread

join_room-Haunted_example : Haunted busy_server 3 4 late_sap (400, replicate 16 4) 6 77 88 true
join_room-Haunted_example =
    join_room-Haunted busy_server 3 4 late_sap (400, replicate 16 4) 6 77 88 true
      (record { stop_event = 9; thread = some 8 }) room_6_missing late_thread

open_room-Usurped_example : Usurped busy_server 3 late_sap 5 0 1 host_sap (guest_sap ∷ [])
open_room-Usurped_example =
    open_room-Usurped busy_server 3 late_sap 5 0 1 host_sap (guest_sap ∷ []) busy_room refl

handle_message-end_room_example : HungUp busy_server 5 2 false (bare_msg 0)
unfolding busy_room lookup
handle_message-end_room_example =
    handle_message-end_room busy_server 5 1 2 (room_client guest_sap [] false) host_sap
      (guest_sap ∷ []) [] [] (bare_msg 0) busy_room refl refl refl refl refl false
