-- ===== src/Room/Restart.antt =====
-- RDIBY/server.cpp `clientHandlerFunc`: the host's loop goes on after START_PUNCH.
use lllsi.Base.{
  ℕ, ◌≡◌, refl, sym, ap, ◌∙◌, Bool, true, false, List, ◌==◌, ==_self, if◌then◌else◌, none, ok, err,
  ok-inj, bind_eq, bind_eq_err, lookup, lookup-erase, ◌⊎◌, inl, inr,
}
use lllsi.Base.Error.{null_pointer}
use lllsi.Room.{
  Sap, RoomClient, ServerRoomMsg, ServerManager, deref, or_null, get_room_ptr, delete_room,
}
use lllsi.Room.Server.{leave_msg, start_punch_msg}
use lllsi.Room.Handler.{depart, handle_message}
use lllsi.Room.Introduction.{OpenRoom, deref-assign}
use lllsi.Room.Leaving.{ended_state, end_room_eq}
use lllsi.Room.Faults.{end_room_missing}
use lllsi.Room.System.Frame.{Misses, introduce-Spares}

-- A host whose room is gone asks for a start or for its end.
ask_again :
    (t : ServerManager) (room_id h recv_res : ℕ) (c : RoomClient) (msg : ServerRoomMsg)
    → deref h t.clients ≡ ok c
    → c.is_host ≡ true
    → (recv_res == 0) ≡ false
    → lookup room_id t.room_map ≡ none
    → (msg.msg_type ≡ start_punch_msg) ⊎ (msg.msg_type ≡ leave_msg)
    → handle_message h room_id recv_res msg t ≡ err null_pointer
unfolding handle_message depart
ask_again t room_id h recv_res c msg found hosts received gone (inl starts) = bind_eq _ found (
    rw received
      (rw starts (rw hosts (bind_eq_err _ (end_room_missing t room_id true (ap or_null gone))))))
ask_again t room_id h recv_res c msg found hosts received gone (inr leaves) = bind_eq _ found (
    rw received
      (rw leaves (rw hosts (bind_eq_err _ (end_room_missing t room_id false (ap or_null gone))))))

abbrev pub Restarted :
    ServerManager → (room_id h recv_res recv_again : ℕ) → (first again : ServerRoomMsg) → Type 0
Restarted s room_id h recv_res recv_again first again =
    (t : ServerManager) × (handle_message h room_id recv_res first s ≡ ok (true, t))
    × (handle_message h room_id recv_again again t ≡ err null_pointer)

-- When the host of an open room, which is not among the members, sends START_PUNCH, its handler's
-- loop goes on. If the next message that it receives is START_PUNCH or LEAVE, with nothing else
-- happening on the server in between, the handler reads through a null pointer.
pub handle_message-handle_message :
    (s : ServerManager) (room_id p recv_res recv_again : ℕ) (host : Sap) (bs : List Sap)
    (c : RoomClient) (first again : ServerRoomMsg) (o : OpenRoom s room_id p host bs)
    → Misses o.room.host o.room.room_vector
    → deref o.room.host s.clients ≡ ok c
    → c.is_host ≡ true
    → (recv_res == 0) ≡ false
    → (recv_again == 0) ≡ false
    → first.msg_type ≡ start_punch_msg
    → (again.msg_type ≡ start_punch_msg) ⊎ (again.msg_type ≡ leave_msg)
    → Restarted s room_id o.room.host recv_res recv_again first again
unfolding handle_message get_room_ptr delete_room
handle_message-handle_message s room_id p recv_res recv_again host bs c first again o apart found
      hosts received received_again starts asks =
    let (t, d, told, ended, kept, still) = end_room_eq s room_id p true host bs o in
    let u = ended_state room_id o.room host d bs t in
    let spares =
      introduce-Spares true host o.room.room_vector bs (get_room_ptr room_id s).1 t o.members_live
        told in
    let same : d ≡ c = ok-inj (sym still ∙ spares.others o.room.host c apart found) in
    let left : RoomClient = record d { is_leaving = true } in
    let there : deref o.room.host u.clients ≡ ok left =
      deref-assign o.room.host o.room.host left d t.clients still
      ∙ ap (λ (b : Bool). if b then ok left else ok d) (==_self o.room.host) in
    let gone : lookup room_id u.room_map ≡ none =
      lookup-erase room_id room_id t.room_map
      ∙ ap (λ (b : Bool). if b then none else lookup room_id t.room_map) (==_self room_id) in
    (
      u,
      bind_eq _ found (rw received (rw starts (rw hosts (bind_eq _ ended refl)))),
      ask_again u room_id o.room.host recv_again left again there
          (ap (λ (x : RoomClient). x.is_host) same ∙ hosts) received_again gone asks,
    )
