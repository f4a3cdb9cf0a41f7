-- ===== src/Room/Leaving.antt =====
-- RDIBY/server.cpp `clientHandlerFunc`: a member hangs up after its room has ended.
use lllsi.Base.{
  ℕ, subst, ◌≡◌, refl, sym, ap, ◌∙◌, Bool, true, false, List, [], ◌∷◌, ◌++◌, ◌==◌, ==_self,
  Bool-cases, inl, inr, if◌then◌else◌, Option, none, Result, ok, err, ok-inj, ◌>>=◌, bind_eq,
  bind_eq_err, All, All-middle, Map, lookup, lookup-erase,
}
use lllsi.Base.Error.{null_pointer}
use lllsi.Packet.{Bytes}
use lllsi.Room.{
  Sap, RoomClient, ServerRoom, ServerRoomMsg, ServerManager, deref, or_null, get_room_ptr,
  delete_room, remove_client_from_room,
}
use lllsi.Room.Server.{
  leave_msg, bare_msg, punch_msg, send_msg, set_leaving, tell_clients, introduce, end_room,
}
use lllsi.Room.Introduction.{
  AllLive, OpenRoom, deref-assign, Lives-set_leaving, AllLive-map, tell_host_lem, send_off_lem,
  introduce_lem, to_host, farewells,
}
use lllsi.Room.Entry.{deref-assign_other}
use lllsi.Room.Handler.{depart, handle_message}

-- The pointer leads to a client that is marked as leaving.
abbrev pub Leaves : Map RoomClient → ℕ → Type 0
Leaves m p = (c : RoomClient) × (deref p m ≡ ok c) × (c.is_leaving ≡ true)

Leaves-set_leaving :
    (p q : ℕ) (c : RoomClient) (s : ServerManager)
    → Leaves s.clients q
    → Leaves (set_leaving p c s).clients q
Leaves-set_leaving p q c s (d, found, leaving) =
    let gone : RoomClient = record c { is_leaving = true } in
    let moved = deref-assign p q gone d s.clients found in
    elim (Bool-cases (p == q)) [
      | inl same ↦ (gone, moved ∙ ap (λ (t : Bool). if t then ok gone else ok d) same, refl)
      | inr other ↦ (d, moved ∙ ap (λ (t : Bool). if t then ok gone else ok d) other, leaving)
    ]

set_leaving-Leaves :
    (p : ℕ) (c : RoomClient) (s : ServerManager)
    → deref p s.clients ≡ ok c
    → Leaves (set_leaving p c s).clients p
set_leaving-Leaves p c s found =
    let gone : RoomClient = record c { is_leaving = true } in
    (
      gone,
      deref-assign p p gone c s.clients found
          ∙ ap (λ (t : Bool). if t then ok gone else ok c) (==_self p),
      refl,
    )

-- A start marks every member.
tell_clients-Leaves :
    (addr : Bytes) (ps : List ℕ) (bs : List Sap) (s t : ServerManager)
    → AllLive s.clients ps bs
    → tell_clients addr ps s ≡ ok t
    → All (Leaves t.clients) ps × ((q : ℕ) → Leaves s.clients q → Leaves t.clients q)
unfolding tell_clients
tell_clients-Leaves addr [] bs s t l told =
    (tt, λ q left. subst (λ (u : ServerManager). Leaves u.clients q) (ok-inj told) left)
tell_clients-Leaves addr (p ∷ ps) [] s t l told = absurd l
tell_clients-Leaves addr (p ∷ ps) (b ∷ bs) s t ((c, found, sap), l) told =
    let left = set_leaving p c s in
    let s' = send_msg c.sap.0 (punch_msg c.sap.1) (send_msg c.sap.0 (punch_msg addr) left) in
    let rest : tell_clients addr ps s' ≡ ok t =
      ap
        (λ (r : Result RoomClient). r >>= λ (d : RoomClient). tell_clients addr ps (
          send_msg d.sap.0 (punch_msg d.sap.1)
            (send_msg d.sap.0 (punch_msg addr) (set_leaving p d s))))
        (sym found)
      ∙ told in
    let (marked, kept) =
      tell_clients-Leaves addr ps bs s' t
        (AllLive-map s.clients left.clients ps bs (λ q a. Lives-set_leaving p q c a s found) l)
        rest in
    (
      (kept p (set_leaving-Leaves p c s found), marked),
      λ q leaves. kept q (Leaves-set_leaving p q c s leaves),
    )

pub introduce-Leaves :
    (host : Sap) (ps : List ℕ) (bs : List Sap) (s t : ServerManager)
    → AllLive s.clients ps bs
    → introduce true host ps s ≡ ok t
    → All (Leaves t.clients) ps
unfolding introduce
introduce-Leaves host ps bs s t l told =
    let s1 = send_msg host.0 (punch_msg host.1) s in
    let s2 : ServerManager = record s1 { sent = s1.sent ++ to_host host bs } in
    (tell_clients-Leaves host.1 ps bs s2 t l (
      ap (λ (r : Result ServerManager). r >>= tell_clients host.1 ps)
        (sym (tell_host_lem host.0 host.1 ps bs s1 l))
      ∙ told)).0

-- The state when a room has ended, from the one when everybody is told.
abbrev pub ended_state :
    (room_id : ℕ) → ServerRoom → Sap → RoomClient → List Sap → ServerManager → ServerManager
ended_state room_id room host d bs t =
    let t1 : ServerManager = record t { sent = t.sent ++ farewells bs } in
    (delete_room room_id (send_msg host.0 (bare_msg leave_msg) (set_leaving room.host d t1))).1

pub end_room_eq :
    (s : ServerManager) (room_id p : ℕ) (start : Bool) (host : Sap) (bs : List Sap)
    → (o : OpenRoom s room_id p host bs)
    → (t : ServerManager) × (d : RoomClient) × (introduce start host o.room.room_vector
          (get_room_ptr room_id s).1
        ≡ ok t)
      × (end_room room_id start s ≡ ok (ended_state room_id o.room host d bs t))
      × (t.room_map ≡ (get_room_ptr room_id s).1.room_map)
      × (deref o.room.host t.clients ≡ ok d)
unfolding end_room get_room_ptr
end_room_eq s room_id p start host bs o =
    let s1 = (get_room_ptr room_id s).1 in
    let (c, host_found, host_sap) = o.host_lives in
    let (t, told, sends) = introduce_lem start host o.room.room_vector bs s1 o.members_live in
    let t1 : ServerManager = record t { sent = t.sent ++ farewells bs } in
    let (d, still, sap) = sends.live o.room.host host o.host_lives in
    let members = AllLive-map s.clients t.clients o.room.room_vector bs sends.live o.members_live in
    (
      t,
      d,
      told,
      bind_eq _ (ap (λ (q : Option ℕ). deref (or_null q) s.rooms) o.mapped ∙ o.kept) (
          bind_eq _ host_found (
            bind_eq _ (ap (λ (a : Sap). introduce start a o.room.room_vector s1) host_sap ∙ told) (
              bind_eq _ (send_off_lem o.room.room_vector bs t members) (
                bind_eq _ still (
                  ap
                    (λ (a : Sap).
                      ok
                        (delete_room room_id
                          (send_msg a.0 (bare_msg leave_msg) (set_leaving o.room.host d t1))).1)
                    host_sap))))),
      sends.room_map,
      still,
    )

-- A client that is marked, and one that is not, hang up when their room is gone.
pub hang_up-Leaves :
    (t : ServerManager) (room_id q : ℕ) (msg : ServerRoomMsg)
    → Leaves t.clients q
    → handle_message q room_id 0 msg t ≡ ok (false, t)
unfolding handle_message
hang_up-Leaves t room_id q msg (c, found, leaving) = bind_eq _ found (rw leaving refl)

hang_up_unmarked :
    (t : ServerManager) (room_id q : ℕ) (c : RoomClient) (msg : ServerRoomMsg)
    → deref q t.clients ≡ ok c
    → c.is_host ≡ false
    → c.is_leaving ≡ false
    → lookup room_id t.room_map ≡ none
    → handle_message q room_id 0 msg t ≡ err null_pointer
unfolding handle_message depart remove_client_from_room get_room_ptr
hang_up_unmarked t room_id q c msg found member stays gone = bind_eq _ found (
    rw stays (
      rw member (
        bind_eq_err _
          (bind_eq_err _ (bind_eq_err _ (ap (λ (o : Option ℕ). deref (or_null o) t.rooms) gone))))))

abbrev pub HungUp : ServerManager → (room_id q : ℕ) → Bool → ServerRoomMsg → Type 0
HungUp s room_id q start_streaming msg =
    (t : ServerManager) × (end_room room_id start_streaming s ≡ ok t)
    × (handle_message q room_id 0 msg t
        ≡ (if start_streaming then ok (false, t) else err null_pointer))

module _ (s : ServerManager) (room_id p q : ℕ) (c : RoomClient) (host : Sap) (bs : List Sap)
    (before after : List ℕ) (msg : ServerRoomMsg) (o : OpenRoom s room_id p host bs)
    (placed : o.room.room_vector ≡ before ++ q ∷ after) (found : deref q s.clients ≡ ok c)
    (member : c.is_host ≡ false) (stays : c.is_leaving ≡ false)
    (other : (o.room.host == q) ≡ false) where
  -- A member of an open room, not marked as leaving, hangs up after the room has ended. If the host
  -- started the streaming, its handler's loop ends and changes nothing. If the host only left, the
  -- handler looks for the room that is gone and reads through a null pointer.
  pub handle_message-end_room : (start_streaming : Bool) → HungUp s room_id q start_streaming msg
  unfolding introduce get_room_ptr delete_room
  handle_message-end_room true =
      let (t, d, told, ended, kept, _) = end_room_eq s room_id p true host bs o in
      let u = ended_state room_id o.room host d bs t in
      let marked = All-middle (Leaves t.clients) before q after (
        subst (All (Leaves t.clients)) placed (
          introduce-Leaves host o.room.room_vector bs (get_room_ptr room_id s).1 t o.members_live
            told)) in
      (u, ended, hang_up-Leaves u room_id q msg (Leaves-set_leaving o.room.host q d t marked))
  handle_message-end_room false =
      let (t, d, told, ended, kept, _) = end_room_eq s room_id p false host bs o in
      let u = ended_state room_id o.room host d bs t in
      let there : deref q t.clients ≡ ok c =
        ap (λ (v : ServerManager). deref q v.clients) (sym (ok-inj told)) ∙ found in
      let still =
        deref-assign_other o.room.host q (record d { is_leaving = true }) c t.clients other there in
      let gone : lookup room_id u.room_map ≡ none =
        lookup-erase room_id room_id t.room_map
        ∙ ap (λ (b : Bool). if b then none else lookup room_id t.room_map) (==_self room_id) in
      (u, ended, hang_up_unmarked u room_id q c msg still member stays gone)
