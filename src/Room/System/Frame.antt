-- ===== src/Room/System/Frame.antt =====
-- RDIBY/server.cpp `endRoom`: what the end of a room leaves alone.
use lllsi.Base.{
  ℕ, ◌≡◌, sym, ap, ◌∙◌, Bool, true, false, List, [], ◌∷◌, ◌++◌, ◌==◌, ok, Result, ok-inj, ◌>>=◌,
  All, erase, subst,
}
use lllsi.Packet.{Bytes}
use lllsi.Room.{Sap, RoomClient, ServerManager, deref, get_room_ptr, delete_room}
use lllsi.Room.Server.{punch_msg, send_msg, set_leaving, tell_clients, introduce, end_room}
use lllsi.Room.Introduction.{
  AllLive, OpenRoom, Lives-set_leaving, AllLive-map, tell_host_lem, to_host,
}
use lllsi.Room.Entry.{deref-assign_other}
use lllsi.Room.Leaving.{ended_state, end_room_eq}

-- None of the pointers is `q`.
abbrev pub Misses : ℕ → List ℕ → Type 0
Misses q ps = All (λ (p : ℕ). (p == q) ≡ false) ps

-- The rooms are as before, and so is every client that is not among `ps`.
pub record Spares (s t : ServerManager) (ps : List ℕ) : Type 0 where
  pub rooms : t.rooms ≡ s.rooms
  pub others :
      (q : ℕ) (c : RoomClient) → Misses q ps → deref q s.clients ≡ ok c → deref q t.clients ≡ ok c

tell_clients-Spares :
    (addr : Bytes) (ps : List ℕ) (bs : List Sap) (s t : ServerManager)
    → AllLive s.clients ps bs
    → tell_clients addr ps s ≡ ok t
    → Spares s t ps
unfolding tell_clients
tell_clients-Spares addr [] bs s t l told = record {
  rooms = ap (λ (u : ServerManager). u.rooms) (sym (ok-inj told));
  others =
      λ q c far found. subst (λ (u : ServerManager). deref q u.clients ≡ ok c) (ok-inj told) found;
}
tell_clients-Spares addr (p ∷ ps) [] s t l told = absurd l
tell_clients-Spares addr (p ∷ ps) (b ∷ bs) s t ((c, found, sap), l) told =
    let left = set_leaving p c s in
    let s' = send_msg c.sap.0 (punch_msg c.sap.1) (send_msg c.sap.0 (punch_msg addr) left) in
    let rest : tell_clients addr ps s' ≡ ok t =
      ap
        (λ (r : Result RoomClient). r >>= λ (d : RoomClient). tell_clients addr ps (
          send_msg d.sap.0 (punch_msg d.sap.1)
            (send_msg d.sap.0 (punch_msg addr) (set_leaving p d s))))
        (sym found)
      ∙ told in
    let spares =
      tell_clients-Spares addr ps bs s' t
        (AllLive-map s.clients left.clients ps bs (λ q a. Lives-set_leaving p q c a s found) l)
        rest in
    record {
      rooms = spares.rooms;
      others = λ q d far there.
          spares.others q d far.1
            (deref-assign_other p q (record c { is_leaving = true }) d s.clients far.0 there);
    }

pub introduce-Spares :
    (start_streaming : Bool) (host : Sap) (ps : List ℕ) (bs : List Sap) (s t : ServerManager)
    → AllLive s.clients ps bs
    → introduce start_streaming host ps s ≡ ok t
    → Spares s t ps
unfolding introduce
introduce-Spares false host ps bs s t l told = record {
  rooms = ap (λ (u : ServerManager). u.rooms) (sym (ok-inj told));
  others =
      λ q c far found. subst (λ (u : ServerManager). deref q u.clients ≡ ok c) (ok-inj told) found;
}
introduce-Spares true host ps bs s t l told =
    let s1 = send_msg host.0 (punch_msg host.1) s in
    let s2 : ServerManager = record s1 { sent = s1.sent ++ to_host host bs } in
    let spares = tell_clients-Spares host.1 ps bs s2 t l (
      ap (λ (r : Result ServerManager). r >>= tell_clients host.1 ps)
        (sym (tell_host_lem host.0 host.1 ps bs s1 l))
      ∙ told) in
    record { rooms = spares.rooms; others = spares.others }

-- The end of an open room.
pub end_room-Spares :
    (s t : ServerManager) (room_id p : ℕ) (start_streaming : Bool) (host : Sap) (bs : List Sap)
    → (o : OpenRoom s room_id p host bs) → end_room room_id start_streaming s ≡ ok t
    → Spares s t (o.room.host ∷ o.room.room_vector)
      × (t.room_map ≡ erase room_id (get_room_ptr room_id s).1.room_map)
unfolding get_room_ptr delete_room
end_room-Spares s t room_id p start host bs o ended =
    let (u, d, told, out, kept, _) = end_room_eq s room_id p start host bs o in
    let spares =
      introduce-Spares start host o.room.room_vector bs (get_room_ptr room_id s).1 u o.members_live
        told in
    let same : ended_state room_id o.room host d bs u ≡ t = ok-inj (sym out ∙ ended) in
    (
      record {
        rooms = ap (λ (v : ServerManager). v.rooms) (sym same) ∙ spares.rooms;
        others = λ q c far found.
            ap (λ (v : ServerManager). deref q v.clients) (sym same)
            ∙ deref-assign_other o.room.host q (record d { is_leaving = true }) c u.clients far.0
                (spares.others q c far.1 found);
      },
      ap (λ (v : ServerManager). v.room_map) (sym same) ∙ ap (erase room_id) kept,
    )
