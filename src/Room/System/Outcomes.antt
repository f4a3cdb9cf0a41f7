-- ===== src/Room/System/Outcomes.antt =====
-- RDIBY/server.cpp `clientHandlerFunc`: what can come of a client's first message.
use lllsi.Base.{
  ℕ, suc, ◌%◌, ◌≡◌, refl, sym, ap, ◌∙◌, Bool, true, false, ◌==◌, ==_iff, ok, ok-inj, Result, lookup,
  emplace, erase, if◌then◌else◌, none, some, Option, inl, inr, ◌⊎◌, bind_inv, subst,
}
use lllsi.Packet.{Bytes, dword}
use lllsi.Threads.{kill_thread}
use lllsi.Room.{Sap, room_client, ServerRoom, ServerManager, deref, or_null, get_room_ptr}
use lllsi.Room.Server.{
  first_client_interaction, room_name_of, room_password_of, client_name_of, is_host_of,
}
use lllsi.Room.Handler.{enter, arrive, open_room, join_room, refuse}
use lllsi.Room.Entry.{joined_state, join_room_eq}
use lllsi.Room.System.Open.{branch, or_null_pointer}

either :
    {A : Type 0} {a : A} (b : Bool) (f g : Bool → Result A)
    → (if b then f b else g b) ≡ ok a
    → (f true ≡ ok a) ⊎ (g false ≡ ok a)
either true f g h = inl h
either false f g h = inr h

-- A client is a host or a guest.
pub enter_cases :
    (hasher : Bytes → ℕ) (h : ℕ) (sap : Sap) (received : Bytes) (s : ServerManager)
    (entered : Option ℕ × ServerManager)
    → enter hasher h sap received s ≡ ok entered
    → (room_id pass : ℕ) × (name : Bytes) × ((open_room h sap room_id pass
            (arrive h (room_client sap name true) s)
          ≡ ok entered)
        ⊎ (join_room h sap room_id pass (arrive h (room_client sap name false) s) ≡ ok entered))
unfolding enter
enter_cases hasher h sap received s entered e =
    let id_data = first_client_interaction received in
    let (room_name, named, e1) = bind_inv (room_name_of id_data) _ e in
    let (room_pass, passed, e2) = bind_inv (room_password_of id_data) _ e1 in
    let arrived = λ (b : Bool). arrive h (room_client sap (client_name_of id_data) b) s in
    (
      hasher room_name,
      hasher room_pass,
      client_name_of id_data,
      either (is_host_of id_data)
          (λ b. open_room h sap (hasher room_name) (hasher room_pass) (arrived b))
          (λ b. join_room h sap (hasher room_name) (hasher room_pass) (arrived b)) e2,
    )

pub some-none : {r : ℕ} → some r ≡ none → ⊥
some-none h = cc

-- A guest that may not stay: its objects are gone, and a pointer in the map may be null.
pub record Refused (h room_id : ℕ) (s : ServerManager) (entered : Option ℕ × ServerManager)
    : Type 0 where
  pub sent_off : entered.0 ≡ none
  pub room_map : entered.1.room_map ≡ emplace room_id 0 s.room_map
  pub clients : entered.1.clients ≡ erase h s.clients
  pub rooms : entered.1.rooms ≡ erase h s.rooms

refuse-Refused :
    (h room_id : ℕ) (sap : Sap) (s : ServerManager) (entered : Option ℕ × ServerManager)
    → refuse h sap (record s { room_map = emplace room_id 0 s.room_map }) ≡ ok entered
    → Refused h room_id s entered
unfolding refuse
refuse-Refused h room_id sap s entered e =
    let (threads, killed, out) = bind_inv (kill_thread (sap.0 % dword) s.threads) _ e in
    subst (Refused h room_id s) (ok-inj out)
      (record { sent_off = refl; room_map = refl; clients = refl; rooms = refl })

-- A guest is refused or joins the room that the pointer leads to.
pub join_room_cases :
    (s : ServerManager) (h : ℕ) (sap : Sap) (room_id pass : ℕ) (entered : Option ℕ × ServerManager)
    → join_room (suc h) sap room_id pass s ≡ ok entered
    → Refused (suc h) room_id s entered
      ⊎ ((p : ℕ) × (room : ServerRoom) × (lookup room_id s.room_map ≡ some (suc p))
          × (deref (suc p) s.rooms ≡ ok room)
          × ((some room_id, joined_state (suc h) room_id (suc p) room s) ≡ entered))
unfolding join_room get_room_ptr
join_room_cases s h sap room_id pass entered e =
    elim (branch (or_null (lookup room_id s.room_map) == 0) _ _ e) [
      | inl (null, out) ↦ inl (refuse-Refused (suc h) room_id sap s entered out)
      | inr (there, out) ↦
          let (p, mapped) = or_null_pointer (lookup room_id s.room_map) there in
          let (room, kept, on) =
            bind_inv (deref (or_null (lookup room_id s.room_map)) s.rooms) _ out in
          let found : deref (suc p) s.rooms ≡ ok room =
            ap (λ (o : Option ℕ). deref (or_null o) s.rooms) (sym mapped) ∙ kept in
          elim (branch (room.room_password == pass) _ _ on) [
            | inl (right, added) ↦ inr (
              p,
              room,
              mapped,
              found,
              ok-inj (
                  sym (
                    join_room_eq s h sap room_id pass p room mapped found
                      ((==_iff room.room_password pass).0 right))
                  ∙ e),
            )
            | inr (wrong, out) ↦ inl (refuse-Refused (suc h) room_id sap s entered out)
          ]
    ]
