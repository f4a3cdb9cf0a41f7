-- ===== src/Room/System/Handling.antt =====
-- RDIBY/server.cpp `clientHandlerFunc`: a message, or its failure, while others are served.
use lllsi.Base.{
  update, ℕ, suc, ◌≡◌, refl, sym, ap, ◌∙◌, Bool, true, false, [], ◌∷◌, ◌++◌, ◌==◌, ok, ok-inj,
  lookup, if◌then◌else◌, inl, inr, bind_inv, subst, ◌>>=◌,
}
use lllsi.Room.{Sap, RoomClient, ServerRoomMsg, ServerManager, deref, remove_client_from_room}
use lllsi.Room.Server.{leave_msg, start_punch_msg, end_room}
use lllsi.Room.Handler.{depart, handle_message}
use lllsi.Room.System.{Job, looping, ended, Fits}
use lllsi.Room.System.Ending.{
  end_room-IsSoundBut, remove_client-fails, depart-IsSound, leave-IsSound, marked_twice,
}
use lllsi.Room.System.Open.{IsSound, OpenIn-keep, branch}

pub IsSound-same :
    (s t : ServerManager) (job : ℕ → Job)
    → t.room_map ≡ s.room_map
    → t.rooms ≡ s.rooms
    → t.clients ≡ s.clients
    → IsSound s job
    → IsSound t job
IsSound-same s t job map rooms clients sound k p there =
    OpenIn-keep
      (λ b q y. record {
        client = y.client;
        sap = y.sap;
        found = ap (deref q) clients ∙ y.found;
        stays = y.stays;
        hosts = y.hosts;
        runs = y.runs;
      })
      (λ r kept. ap (deref (suc p)) rooms ∙ kept) (sound k p (ap (lookup k) (sym map) ∙ there))

module _ (s : ServerManager) (job : ℕ → Job) (sound : IsSound s job) (h room_id : ℕ) (sap : Sap)
    (runs : job h ≡ looping sap room_id) where
  abbrev Next : Bool × ServerManager → Type 0
  Next handled = IsSound handled.1 (if handled.0 then job else update job h (ended sap))

  start_message :
      (client : RoomClient) (msg : ServerRoomMsg) (handled : Bool × ServerManager)
      → (if msg.msg_type == start_punch_msg
          then (if client.is_host
              then (end_room room_id true s >>= λ started. ok (true, started))
              else ok (true, s))
          else ok (true, s))
        ≡ ok handled
      → Next handled
  start_message client msg handled e = elim (branch (msg.msg_type == start_punch_msg) _ _ e) [
    | inl (starts, out) ↦ elim (branch client.is_host _ _ out) [
      | inl (hosts, ran) ↦
          let (t, closed, on) = bind_inv (end_room room_id true s) _ ran in
          subst Next (ok-inj on)
            (λ k p there. (end_room-IsSoundBut s job sound room_id true t closed k p there).1)
      | inr (guest, ran) ↦ subst Next (ok-inj ran) sound
    ]
    | inr (unknown, out) ↦ subst Next (ok-inj out) sound
  ]

  -- After a message, or its failure, the rooms in the map are open.
  pub handle_message-IsSound :
      (recv_res : ℕ) (msg : ServerRoomMsg) (handled : Bool × ServerManager)
      → Fits s
      → handle_message h room_id recv_res msg s ≡ ok handled
      → Next handled
  unfolding handle_message
  handle_message-IsSound recv_res msg handled fits e =
      let (client, found, e1) = bind_inv (deref h s.clients) _ e in
      let departs = λ (t : ServerManager) (d : depart h client room_id s ≡ ok t).
        depart-IsSound s job sound h room_id sap runs client t fits d in
      elim (branch (recv_res == 0) _ _ e1) [
        | inl (lost, e2) ↦ elim (branch client.is_leaving _ _ e2) [
          | inl (leaving, out) ↦
              subst Next (ok-inj out)
                (leave-IsSound s job sound h room_id sap runs client found leaving)
          | inr (unmarked, out) ↦
              let (t, gone, on) = bind_inv (depart h client room_id s) _ out in
              subst Next (ok-inj on) (
                IsSound-same t (record t { closed = t.closed ++ client.sap.0 ∷ [] })
                  (update job h (ended sap)) refl refl refl (departs t gone))
        ]
        | inr (received, e2) ↦ elim (branch (msg.msg_type == leave_msg) _ _ e2) [
          | inl (leaves, out) ↦
              let (t, gone, on) = bind_inv (depart h client room_id s) _ out in
              subst Next (ok-inj on) (departs t gone)
          | inr (other, out) ↦ start_message client msg handled out
        ]
      ]

  -- A guest that is not marked as leaving cannot hang up.
  pub hang_up_fails :
      (client : RoomClient) (msg : ServerRoomMsg) (handled : Bool × ServerManager)
      → Fits s
      → deref h s.clients ≡ ok client
      → client.is_host ≡ false
      → client.is_leaving ≡ false
      → handle_message h room_id 0 msg s ≡ ok handled
      → ⊥
  unfolding handle_message depart
  hang_up_fails client msg handled fits found guest unmarked e =
      let (c, here, e1) = bind_inv (deref h s.clients) _ e in
      let same : c ≡ client = ok-inj (sym here ∙ found) in
      elim (branch c.is_leaving _ _ e1) [
        | inl (leaving, out) ↦ marked_twice leaving unmarked same
        | inr (stays, out) ↦
            let (t, gone, on) = bind_inv (depart h c room_id s) _ out in
            elim (branch c.is_host _ _ gone) [
              | inl (hosts, closed) ↦ cc (hosts, guest, ap (λ (x : RoomClient). x.is_host) same)
              | inr (no_host, removed) ↦
                  let (r, out, done) = bind_inv (remove_client_from_room room_id h s) _ removed in
                  remove_client-fails s job sound room_id h r fits out
            ]
      ]
