-- ===== src/Room/Introduction.antt =====
-- RDIBY/server.cpp `endRoom`: what the members of a room are told.
use lllsi.Base.{
  ℕ, zero, suc, ◌≡◌, refl, sym, ap, ◌∙◌, Bool, true, false, List, [], ◌∷◌, ◌++◌, append_assoc,
  append-nil, if◌then◌else◌, ok, Result, bind_eq, emplace, erase, ◌>>=◌, Map, lookup, assign,
  lookup-assign, lookup-erase, some, none, ◌==◌, ==_self, Bool-cases, inl, inr, Option, or_fail,
  ok-inj, ok_err, ==_iff,
}
use lllsi.Base.Error.{null_pointer}
use lllsi.Packet.{Bytes}
use lllsi.Room.{
  or_null, Sap, RoomClient, ServerRoom, ServerRoomMsg, ServerManager, deref, get_room_ptr,
  delete_room,
}
use lllsi.Room.Server.{
  leave_msg, bare_msg, punch_msg, send_msg, set_leaving, tell_host, tell_clients, send_off,
  introduce, end_room,
}

-- The pointer leads to a client with that socket and address.
abbrev pub Lives : Map RoomClient → ℕ → Sap → Type 0
Lives m p sap = (c : RoomClient) × (deref p m ≡ ok c) × (c.sap ≡ sap)

abbrev pub AllLive : Map RoomClient → List ℕ → List Sap → Type 0
AllLive m [] [] = Unit {0}
AllLive m [] (b ∷ bs) = ⊥
AllLive m (p ∷ ps) [] = ⊥
AllLive m (p ∷ ps) (b ∷ bs) = Lives m p b × AllLive m ps bs

pub deref-assign :
    {V : Type 0} (p q : ℕ) (v w : V) (m : Map V)
    → deref q m ≡ ok w
    → deref q (assign p v m) ≡ (if p == q then ok v else ok w)
deref-assign p zero v w m h = absurd (ok_err h)
deref-assign p (suc q) v w m h =
    ap (λ (o : Option _). or_fail o null_pointer) (lookup-assign p (suc q) v m)
    ∙ elim (Bool-cases (p == suc q)) [ inl same ↦ rw same refl | inr other ↦ rw other h ]

pub Lives-set_leaving :
    (p q : ℕ) (c : RoomClient) (b : Sap) (s : ServerManager)
    → deref p s.clients ≡ ok c
    → Lives s.clients q b
    → Lives (set_leaving p c s).clients q b
Lives-set_leaving p q c b s h (d, found, sap) =
    let moved = deref-assign p q (record c { is_leaving = true }) d s.clients found in
    elim (Bool-cases (p == q)) [
      | inl same ↦ (
        record c { is_leaving = true },
        moved ∙ ap (λ (t : Bool). if t then ok (record c { is_leaving = true }) else ok d) same,
        ap (λ (e : RoomClient). e.sap)
              (ok-inj (sym h ∙ ap (λ (n : ℕ). deref n s.clients) ((==_iff p q).0 same) ∙ found))
            ∙ sap,
      )
      | inr other ↦ (
        d,
        moved ∙ ap (λ (t : Bool). if t then ok (record c { is_leaving = true }) else ok d) other,
        sap,
      )
    ]

pub AllLive-map :
    (m n : Map RoomClient) (ps : List ℕ) (bs : List Sap)
    → ((q : ℕ) (b : Sap) → Lives m q b → Lives n q b)
    → AllLive m ps bs
    → AllLive n ps bs
AllLive-map m n [] [] f l = tt
AllLive-map m n [] (b ∷ bs) f l = l
AllLive-map m n (q ∷ qs) [] f l = l
AllLive-map m n (q ∷ qs) (b ∷ bs) f l = (f q b l.0, AllLive-map m n qs bs f l.1)

-- What is sent to the host and to the clients when the streaming starts, and what to all at the end.
abbrev pub to_host : Sap → List Sap → List (ℕ × ServerRoomMsg)
to_host host [] = []
to_host host (b ∷ bs) = (host.0, punch_msg b.1) ∷ to_host host bs

abbrev pub to_clients : Sap → List Sap → List (ℕ × ServerRoomMsg)
to_clients host [] = []
to_clients host (b ∷ bs) = (b.0, punch_msg host.1) ∷ (b.0, punch_msg b.1) ∷ to_clients host bs

abbrev pub farewells : List Sap → List (ℕ × ServerRoomMsg)
farewells [] = []
farewells (b ∷ bs) = (b.0, bare_msg leave_msg) ∷ farewells bs

pub tell_host_lem :
    (sock : ℕ) (host_addr : Bytes) (ps : List ℕ) (bs : List Sap) (s : ServerManager)
    → AllLive s.clients ps bs
    → tell_host sock ps s ≡ ok (record s { sent = s.sent ++ to_host (sock, host_addr) bs })
unfolding tell_host
tell_host_lem sock a [] [] s l =
    ap (λ (z : List (ℕ × ServerRoomMsg)). ok (record s { sent = z })) (sym (append-nil s.sent))
tell_host_lem sock a [] (b ∷ bs) s l = absurd l
tell_host_lem sock a (p ∷ ps) [] s l = absurd l
tell_host_lem sock a (p ∷ ps) (b ∷ bs) s ((c, found, sap), l) =
    let s' = send_msg sock (punch_msg c.sap.1) s in
    ap
      (λ (r : Result RoomClient).
        r >>= λ (d : RoomClient). tell_host sock ps (send_msg sock (punch_msg d.sap.1) s))
      found
    ∙ tell_host_lem sock a ps bs s' l
    ∙ ap (λ (z : List (ℕ × ServerRoomMsg)). ok (record s { sent = z }))
        (append_assoc s.sent ((sock, punch_msg c.sap.1) ∷ []) (to_host (sock, a) bs)
          ∙ ap (λ (d : Sap). s.sent ++ (sock, punch_msg d.1) ∷ to_host (sock, a) bs) sap)

-- From one state to another these messages are sent, nobody is gone, and the rooms are as before.
pub record Sends (s t : ServerManager) (messages : List (ℕ × ServerRoomMsg)) : Type 0 where
  pub sent : t.sent ≡ s.sent ++ messages
  pub room_map : t.room_map ≡ s.room_map
  pub live : (q : ℕ) (b : Sap) → Lives s.clients q b → Lives t.clients q b

tell_clients_lem :
    (host : Sap) (ps : List ℕ) (bs : List Sap) (s : ServerManager)
    → AllLive s.clients ps bs
    → (t : ServerManager) × (tell_clients host.1 ps s ≡ ok t) × Sends s t (to_clients host bs)
unfolding tell_clients
tell_clients_lem host [] [] s l =
    (s, refl, record { sent = sym (append-nil s.sent); room_map = refl; live = λ q b h. h })
tell_clients_lem host [] (b ∷ bs) s l = absurd l
tell_clients_lem host (p ∷ ps) [] s l = absurd l
tell_clients_lem host (p ∷ ps) (b ∷ bs) s ((c, found, sap), l) =
    let left = set_leaving p c s in
    let s' = send_msg c.sap.0 (punch_msg c.sap.1) (send_msg c.sap.0 (punch_msg host.1) left) in
    let (t, told, sends) =
      tell_clients_lem host ps bs s'
        (AllLive-map s.clients left.clients ps bs (λ q a. Lives-set_leaving p q c a s found) l) in
    (
      t,
      ap
            (λ (r : Result RoomClient). r >>= λ (d : RoomClient). tell_clients host.1 ps (
              send_msg d.sap.0 (punch_msg d.sap.1)
                (send_msg d.sap.0 (punch_msg host.1) (set_leaving p d s))))
            found
          ∙ told,
      record {
        sent =
            sends.sent
            ∙ ap (λ (z : List (ℕ × ServerRoomMsg)). z ++ to_clients host bs)
                (append_assoc s.sent ((c.sap.0, punch_msg host.1) ∷ []) _)
            ∙ append_assoc s.sent ((c.sap.0, punch_msg host.1) ∷ (c.sap.0, punch_msg c.sap.1) ∷ [])
                (to_clients host bs)
            ∙ ap
                (λ (d : Sap).
                  s.sent ++ (d.0, punch_msg host.1) ∷ (d.0, punch_msg d.1) ∷ to_clients host bs)
                sap;
        room_map = sends.room_map;
        live = λ q a h. sends.live q a (Lives-set_leaving p q c a s found h);
      },
    )

pub send_off_lem :
    (ps : List ℕ) (bs : List Sap) (s : ServerManager)
    → AllLive s.clients ps bs
    → send_off ps s ≡ ok (record s { sent = s.sent ++ farewells bs })
unfolding send_off
send_off_lem [] [] s l =
    ap (λ (z : List (ℕ × ServerRoomMsg)). ok (record s { sent = z })) (sym (append-nil s.sent))
send_off_lem [] (b ∷ bs) s l = absurd l
send_off_lem (p ∷ ps) [] s l = absurd l
send_off_lem (p ∷ ps) (b ∷ bs) s ((c, found, sap), l) =
    let s' = send_msg c.sap.0 (bare_msg leave_msg) s in
    ap
      (λ (r : Result RoomClient).
        r >>= λ (d : RoomClient). send_off ps (send_msg d.sap.0 (bare_msg leave_msg) s))
      found
    ∙ send_off_lem ps bs s' l
    ∙ ap (λ (z : List (ℕ × ServerRoomMsg)). ok (record s { sent = z }))
        (append_assoc s.sent ((c.sap.0, bare_msg leave_msg) ∷ []) (farewells bs)
          ∙ ap (λ (d : Sap). s.sent ++ (d.0, bare_msg leave_msg) ∷ farewells bs) sap)

-- What a start says before the farewells.
abbrev pub introductions : Bool → Sap → List Sap → List (ℕ × ServerRoomMsg)
introductions false host bs = []
introductions true host bs = (host.0, punch_msg host.1) ∷ (to_host host bs ++ to_clients host bs)

pub introduce_lem :
    (start_streaming : Bool) (host : Sap) (ps : List ℕ) (bs : List Sap) (s : ServerManager)
    → AllLive s.clients ps bs
    → (t : ServerManager) × (introduce start_streaming host ps s ≡ ok t)
      × Sends s t (introductions start_streaming host bs)
unfolding introduce
introduce_lem false host ps bs s l =
    (s, refl, record { sent = sym (append-nil s.sent); room_map = refl; live = λ q b h. h })
introduce_lem true host ps bs s l =
    let s1 = send_msg host.0 (punch_msg host.1) s in
    let s2 : ServerManager = record s1 { sent = s1.sent ++ to_host host bs } in
    let (t, told, sends) = tell_clients_lem host ps bs s2 l in
    (
      t,
      ap (λ (r : Result ServerManager). r >>= tell_clients host.1 ps)
            (tell_host_lem host.0 host.1 ps bs s1 l)
          ∙ told,
      record {
        sent =
            sends.sent
            ∙ ap (λ (z : List (ℕ × ServerRoomMsg)). z ++ to_clients host bs)
                (append_assoc s.sent ((host.0, punch_msg host.1) ∷ []) (to_host host bs))
            ∙ append_assoc s.sent ((host.0, punch_msg host.1) ∷ to_host host bs)
                (to_clients host bs);
        room_map = sends.room_map;
        live = sends.live;
      },
    )

-- The room is in the map, and its host and its members, with these sockets and addresses, live.
pub record OpenRoom (s : ServerManager) (room_id p : ℕ) (host : Sap) (bs : List Sap) : Type 0 where
  pub room : ServerRoom
  pub mapped : lookup room_id s.room_map ≡ some p
  pub kept : deref p s.rooms ≡ ok room
  pub host_lives : Lives s.clients room.host host
  pub members_live : AllLive s.clients room.room_vector bs

abbrev pub Ended : ServerManager → ℕ → Bool → Sap → List Sap → Type 0
Ended s room_id start_streaming host bs =
    (t : ServerManager) × (end_room room_id start_streaming s ≡ ok t)
    × (t.sent
        ≡ s.sent
          ++ (introductions start_streaming host bs
              ++ (farewells bs ++ (host.0, bare_msg leave_msg) ∷ [])))
    × (lookup room_id t.room_map ≡ none)

-- A room whose host and members are connected ends without an error, with or without a start. If it
-- starts, the host is told first its own address, then every client's, and every client is told the
-- host's address and its own; nothing is said otherwise. Then every client, and last the host, is
-- told to leave, nobody gets any other message, and the room is gone from the map.
pub end_room_lem :
    (s : ServerManager) (room_id p : ℕ) (start_streaming : Bool) (host : Sap) (bs : List Sap)
    → OpenRoom s room_id p host bs
    → Ended s room_id start_streaming host bs
unfolding end_room get_room_ptr delete_room
end_room_lem s room_id p start host bs o =
    let s1 = (get_room_ptr room_id s).1 in
    let (c, host_found, host_sap) = o.host_lives in
    let (t, told, sends) = introduce_lem start host o.room.room_vector bs s1 o.members_live in
    let t1 : ServerManager = record t { sent = t.sent ++ farewells bs } in
    let (d, still, sap) = sends.live o.room.host host o.host_lives in
    let gone = send_msg c.sap.0 (bare_msg leave_msg) (set_leaving o.room.host d t1) in
    (
      (delete_room room_id gone).1,
      bind_eq _ (ap (λ (q : Option ℕ). deref (or_null q) s.rooms) o.mapped ∙ o.kept) (
          bind_eq _ host_found (
            bind_eq _ (ap (λ (a : Sap). introduce start a o.room.room_vector s1) host_sap ∙ told) (
              bind_eq _
                (send_off_lem o.room.room_vector bs t
                  (AllLive-map s.clients t.clients o.room.room_vector bs sends.live o.members_live))
                (bind_eq _ still refl)))),
      ap
            (λ (z : List (ℕ × ServerRoomMsg)).
              (z ++ farewells bs) ++ (c.sap.0, bare_msg leave_msg) ∷ [])
            sends.sent
          ∙ append_assoc (s.sent ++ introductions start host bs) (farewells bs)
              ((c.sap.0, bare_msg leave_msg) ∷ [])
          ∙ append_assoc s.sent (introductions start host bs)
              (farewells bs ++ (c.sap.0, bare_msg leave_msg) ∷ [])
          ∙ ap
              (λ (a : Sap).
                s.sent
                ++ (introductions start host bs
                    ++ (farewells bs ++ (a.0, bare_msg leave_msg) ∷ [])))
              host_sap,
      ap (λ m. lookup room_id (erase room_id m)) sends.room_map
          ∙ lookup-erase room_id room_id (emplace room_id 0 s.room_map)
          ∙ ap (λ (b : Bool). if b then none else lookup room_id (emplace room_id 0 s.room_map))
              (==_self room_id),
    )
