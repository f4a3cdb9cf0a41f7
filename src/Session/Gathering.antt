-- ===== src/Session/Gathering.antt =====
-- A room fills: RDIBY/server.cpp `clientHandlerFunc` up to its loop, for a host and then the members.
use lllsi.Base.{
  ℕ, ◌≡◌, refl, sym, ap, ◌∙◌, Bool, true, false, List, [], ◌∷◌, ◌++◌, ◌==◌, none, some, ok, Map,
  bind_eq, All, lookup, assign, emplace, arith, if◌then◌else◌, append_assoc, append-nil, subst,
}
use lllsi.Packet.{Bytes}
use lllsi.Room.{Sap, RoomClient, room_client, ServerRoom, ServerManager, create_new_room}
use lllsi.Room.Introduction.{Lives, AllLive}
use lllsi.Room.Entry.{
  deref-assign_self, deref-assign_other, emplace_fresh, emplace_keeps, join_room_eq, joined_state,
}
use lllsi.Room.Handler.{default_room, host_room, arrive, open_room, join_room}
use lllsi.Handshake.Fields.{field}
use lllsi.Handshake.Greeting.{NamesEnd, enter-first_server_interaction}
use lllsi.Session.{
  Visitor, handler, saps, handlers, Distinct, Distinct-append, Gathered, client_of, come, come_all,
}

Lives-assign_other :
    (p q : ℕ) (c : RoomClient) (b : Sap) (s : ServerManager)
    → (p == q) ≡ false
    → Lives s.clients q b
    → Lives (assign p c s.clients) q b
Lives-assign_other p q c b s other (d, found, sap) =
    (d, deref-assign_other p q c d s.clients other found, sap)

AllLive-assign_other :
    (v : Visitor) (c : RoomClient) (vs : List Visitor) (s : ServerManager)
    → All (λ (w : Visitor). (w.number == v.number) ≡ false) vs
    → AllLive s.clients (handlers vs) (saps vs)
    → AllLive (assign (handler v) c s.clients) (handlers vs) (saps vs)
AllLive-assign_other v c [] s e l = tt
AllLive-assign_other v c (w ∷ vs) s (e, es) (h, l) = (
  Lives-assign_other (handler v) (handler w) c w.sap s (ground (arith, e)) h,
  AllLive-assign_other v c vs s es l,
)

handlers-append :
    (vs : List Visitor) (v : Visitor) → handlers (vs ++ v ∷ []) ≡ handlers vs ++ handler v ∷ []
handlers-append [] v = refl
handlers-append (w ∷ vs) v = ap (◌∷◌ (handler w)) (handlers-append vs v)

AllLive-snoc :
    (m : Map RoomClient) (vs : List Visitor) (v : Visitor)
    → AllLive m (handlers vs) (saps vs)
    → Lives m (handler v) v.sap
    → AllLive m (handlers (vs ++ v ∷ [])) (saps (vs ++ v ∷ []))
AllLive-snoc m [] v l h = (h, tt)
AllLive-snoc m (w ∷ vs) v (k, l) h = (k, AllLive-snoc m vs v l h)

module _ (hasher : Bytes → ℕ) (zeros : ℕ) (room_name room_password : Bytes) where
  abbrev room_id : ℕ
  room_id = hasher room_name

  abbrev pass : ℕ
  pass = hasher room_password

  abbrev arrived : Bool → Visitor → ServerManager → ServerManager
  arrived is_host v s = arrive (handler v) (room_client v.sap (field v.name) is_host) s

  come_eq :
      (is_host : Bool) (v : Visitor) (s : ServerManager)
      → NamesEnd (client_of hasher zeros room_name room_password is_host v)
      → come hasher zeros room_name room_password is_host v s ≡ (
          if is_host
          then open_room (handler v) v.sap room_id pass (arrived is_host v s)
          else join_room (handler v) v.sap room_id pass (arrived is_host v s))
  come_eq is_host v s names =
      let c = client_of hasher zeros room_name room_password is_host v in
      let (sent, e, size, name, entered) =
        enter-first_server_interaction hasher zeros c (handler v) v.sap s names in
      rw (e, come) entered

  open_room-Gathered :
      (v : Visitor) (s : ServerManager)
      → lookup room_id s.room_map ≡ none
      → (t : ServerManager) × (open_room (handler v) v.sap room_id pass (arrived true v s)
          ≡ ok (some room_id, t))
        × Gathered t room_id pass v []
        × (t.sent ≡ s.sent)
  unfolding open_room create_new_room
  open_room-Gathered v s fresh =
      let a = arrived true v s in
      let t : ServerManager = record a {
        rooms = assign (handler v) (host_room (handler v) room_id pass) a.rooms;
        room_map = emplace room_id (handler v) s.room_map;
      } in
      (
        t,
        refl,
        record {
          mapped = emplace_fresh room_id (handler v) s.room_map fresh;
          kept = deref-assign_self v.number _ a.rooms;
          host_client = room_client v.sap (field v.name) true;
          host_found = deref-assign_self v.number _ s.clients;
          host_sap = refl;
          hosts = refl;
          members_live = tt;
        },
        refl,
      )

  join_room-Gathered :
      (host v : Visitor) (vs : List Visitor) (s : ServerManager)
      → Gathered s room_id pass host vs
      → (host.number == v.number) ≡ false
      → All (λ (w : Visitor). (w.number == v.number) ≡ false) vs
      → (t : ServerManager) × (join_room (handler v) v.sap room_id pass (arrived false v s)
          ≡ ok (some room_id, t))
        × Gathered t room_id pass host (vs ++ v ∷ [])
        × (t.sent ≡ s.sent)
  join_room-Gathered host v vs s g other others =
      let a = arrived false v s in
      let room : ServerRoom = record {
        room_vector = handlers vs;
        host = handler host;
        room_id = room_id;
        room_password = pass;
      } in
      let apart : (handler v == handler host) ≡ false = ground (arith, other) in
      let kept =
        deref-assign_other (handler v) (handler host) default_room room s.rooms apart g.kept in
      let c = room_client v.sap (field v.name) false in
      (
        joined_state (handler v) room_id (handler host) room a,
        join_room_eq a v.number v.sap room_id pass host.number room g.mapped kept refl,
        record {
          mapped =
              emplace_keeps room_id (handler host) 0 (emplace room_id 0 s.room_map)
                (emplace_keeps room_id (handler host) 0 s.room_map g.mapped);
          kept =
              deref-assign_self host.number _ a.rooms
              ∙ ap (λ (hs : List ℕ). ok (record room { room_vector = hs }))
                  (sym (handlers-append vs v));
          host_client = g.host_client;
          host_found =
              deref-assign_other (handler v) (handler host) c g.host_client s.clients apart
                g.host_found;
          host_sap = g.host_sap;
          hosts = g.hosts;
          members_live =
              AllLive-snoc a.clients vs v (AllLive-assign_other v c vs s others g.members_live)
                (c, deref-assign_self v.number c s.clients, refl);
        },
        refl,
      )

  -- The host comes.
  pub come_host :
      (v : Visitor) (s : ServerManager)
      → NamesEnd (client_of hasher zeros room_name room_password true v)
      → lookup room_id s.room_map ≡ none
      → (t : ServerManager) × (come hasher zeros room_name room_password true v s
          ≡ ok (some room_id, t))
        × Gathered t room_id pass v []
        × (t.sent ≡ s.sent)
  come_host v s names fresh =
      let (t, opened, g, sent) = open_room-Gathered v s fresh in
      (t, come_eq true v s names ∙ opened, g, sent)

  -- The members come.
  pub come_members :
      (host : Visitor) (before vs : List Visitor) (s : ServerManager)
      → All (λ (v : Visitor). NamesEnd (client_of hasher zeros room_name room_password false v)) vs
      → Distinct (λ (v : Visitor). v.number) (host ∷ before ++ vs)
      → Gathered s room_id pass host before
      → (t : ServerManager) × (come_all hasher zeros room_name room_password vs s ≡ ok t)
        × Gathered t room_id pass host (before ++ vs)
        × (t.sent ≡ s.sent)
  come_members host before [] s names d g =
      (s, refl, subst (Gathered s room_id pass host) (sym (append-nil before)) g, refl)
  come_members host before (v ∷ vs) s (names, more) d g =
      let number : Visitor → ℕ = λ v. v.number in
      let ((other, others), rest) = Distinct-append number (host ∷ before) v vs d in
      let (t, joined, g1, sent) = join_room-Gathered host v before s g other others in
      let regroup = append_assoc before (v ∷ []) vs in
      let d1 = subst (λ (ws : List Visitor). Distinct number (host ∷ ws)) (sym regroup) d in
      let (u, came, g2, sent2) = come_members host (before ++ v ∷ []) vs t more d1 g1 in
      (
        u,
        bind_eq _ (come_eq false v s names ∙ joined) came,
        subst (Gathered u room_id pass host) regroup g2,
        sent2 ∙ sent,
      )
