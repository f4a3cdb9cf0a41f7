-- ===== src/Room/Entry.antt =====
-- RDIBY/server.cpp `clientHandlerFunc`: how rooms open and fill.
use lllsi.Base.{
  ℕ, zero, suc, ◌≡◌, refl, ap, ◌∙◌, Bool, false, List, [], ◌∷◌, ◌++◌, if◌then◌else◌, ok, bind_eq,
  or_fail, Map, lookup, assign, emplace, lookup-assign, lookup-emplace, some, none, Option, arith,
  ◌==◌, ==_self, ==_iff, ok_err,
}
use lllsi.Base.Error.{null_pointer}
use lllsi.Room.{
  Sap, RoomClient, ServerRoom, ServerManager, deref, or_null, get_room_ptr, create_new_room,
  add_client_to_room,
}
use lllsi.Room.Handler.{host_room, open_room, join_room}
use lllsi.Room.Introduction.{Lives, AllLive, OpenRoom, deref-assign}

pub deref-assign_self :
    {V : Type 0} (p : ℕ) (v : V) (m : Map V) → deref (suc p) (assign (suc p) v m) ≡ ok v
deref-assign_self p v m =
    ap (λ (o : Option _). or_fail o null_pointer)
      (lookup-assign (suc p) (suc p) v m
        ∙ ap (λ (b : Bool). if b then some v else lookup (suc p) m) (==_self (suc p)))

pub deref-assign_other :
    {V : Type 0} (p q : ℕ) (v w : V) (m : Map V)
    → (p == q) ≡ false
    → deref q m ≡ ok w
    → deref q (assign p v m) ≡ ok w
deref-assign_other p q v w m other found =
    deref-assign p q v w m found ∙ ap (λ (b : Bool). if b then ok v else ok w) other

pub deref_nonzero : {V : Type 0} (p : ℕ) (v : V) (m : Map V) → deref p m ≡ ok v → (p == 0) ≡ false
deref_nonzero zero v m h = absurd (ok_err h)
deref_nonzero (suc p) v m h = ground arith

pub AllLive-append :
    (m : Map RoomClient) (ps : List ℕ) (bs : List Sap) (q : ℕ) (b : Sap)
    → AllLive m ps bs
    → Lives m q b
    → AllLive m (ps ++ q ∷ []) (bs ++ b ∷ [])
AllLive-append m [] [] q b l h = (h, tt)
AllLive-append m [] (c ∷ cs) q b l h = absurd l
AllLive-append m (p ∷ ps) [] q b l h = absurd l
AllLive-append m (p ∷ ps) (c ∷ cs) q b l h = (l.0, AllLive-append m ps cs q b l.1 h)

-- An insertion changes nothing for a known identifier.
pub emplace_keeps :
    (room_id p q : ℕ) (m : Map ℕ)
    → lookup room_id m ≡ some p
    → lookup room_id (emplace room_id q m) ≡ some p
emplace_keeps room_id p q m known =
    lookup-emplace room_id room_id q m
    ∙ ap
        (λ (b : Bool).
          if b then some (elim (lookup room_id m) [ none ↦ q | some w ↦ w ]) else lookup room_id m)
        (==_self room_id)
    ∙ ap (λ (o : Option ℕ). some (elim o [ none ↦ q | some w ↦ w ])) known

pub emplace_fresh :
    (room_id q : ℕ) (m : Map ℕ)
    → lookup room_id m ≡ none
    → lookup room_id (emplace room_id q m) ≡ some q
emplace_fresh room_id q m fresh =
    lookup-emplace room_id room_id q m
    ∙ ap
        (λ (b : Bool).
          if b then some (elim (lookup room_id m) [ none ↦ q | some w ↦ w ]) else lookup room_id m)
        (==_self room_id)
    ∙ ap (λ (o : Option ℕ). some (elim o [ none ↦ q | some w ↦ w ])) fresh

abbrev pub Opened : ServerManager → (h : ℕ) → Sap → (room_id room_pass_hash : ℕ) → Type 0
Opened s h sap room_id room_pass_hash =
    (t : ServerManager) × (open_room h sap room_id room_pass_hash s ≡ ok (some room_id, t))
    × OpenRoom t room_id h sap []

-- A host that comes with a room name that is not in the map gets an open room without members.
pub open_room_lem :
    (s : ServerManager) (h : ℕ) (sap : Sap) (room_id room_pass_hash : ℕ)
    → lookup room_id s.room_map ≡ none
    → Lives s.clients (suc h) sap
    → Opened s (suc h) sap room_id room_pass_hash
unfolding open_room create_new_room
open_room_lem s h sap room_id room_pass_hash fresh lives =
    let room = host_room (suc h) room_id room_pass_hash in
    let opened : ServerManager = record s {
      rooms = assign (suc h) room s.rooms;
      room_map = emplace room_id (suc h) s.room_map;
    } in
    (
      opened,
      refl,
      record {
        room = room;
        mapped = emplace_fresh room_id (suc h) s.room_map fresh;
        kept = deref-assign_self h room s.rooms;
        host_lives = lives;
        members_live = tt;
      },
    )

-- The state when a client is added to a room.
abbrev pub joined_state : (h room_id p : ℕ) → ServerRoom → ServerManager → ServerManager
joined_state h room_id p room s = record s {
  rooms = assign p (record room { room_vector = room.room_vector ++ h ∷ [] }) s.rooms;
  room_map = emplace room_id 0 (emplace room_id 0 s.room_map);
}

pub join_room_eq :
    (s : ServerManager) (h : ℕ) (sap : Sap) (room_id room_pass_hash p : ℕ) (room : ServerRoom)
    → lookup room_id s.room_map ≡ some (suc p)
    → deref (suc p) s.rooms ≡ ok room
    → room.room_password ≡ room_pass_hash
    → join_room (suc h) sap room_id room_pass_hash s
      ≡ ok (some room_id, joined_state (suc h) room_id (suc p) room s)
unfolding join_room add_client_to_room get_room_ptr
join_room_eq s h sap room_id pass p room mapped kept right =
    let again = emplace_keeps room_id (suc p) 0 s.room_map mapped in
    let live : (or_null (some (suc p)) == 0) ≡ false = ground arith in
    let own : (suc h == 0) ≡ false = ground arith in
    rw mapped (
      rw live (
        bind_eq _ kept (
          rw ((==_iff room.room_password pass).1 right)
            (rw again (rw own (rw live (bind_eq _ (bind_eq _ kept refl) refl)))))))

abbrev pub Joined :
    ServerManager → (h : ℕ) → Sap → (room_id room_pass_hash p : ℕ) → Sap → List Sap → Type 0
Joined s h sap room_id room_pass_hash p host bs =
    (t : ServerManager) × (join_room h sap room_id room_pass_hash s ≡ ok (some room_id, t))
    × OpenRoom t room_id p host (bs ++ sap ∷ [])

-- A client that comes with the name and the password of an open room becomes its last member; the
-- host and the other members stay.
pub join_room_lem :
    (s : ServerManager) (h : ℕ) (sap : Sap) (room_id room_pass_hash p : ℕ) (host : Sap)
    (bs : List Sap)
    → (o : OpenRoom s room_id (suc p) host bs) → o.room.room_password ≡ room_pass_hash
    → Lives s.clients (suc h) sap
    → Joined s (suc h) sap room_id room_pass_hash (suc p) host bs
join_room_lem s h sap room_id pass p host bs o right lives = (
  joined_state (suc h) room_id (suc p) o.room s,
  join_room_eq s h sap room_id pass p o.room o.mapped o.kept right,
  record {
    room = record o.room { room_vector = o.room.room_vector ++ suc h ∷ [] };
    mapped =
        emplace_keeps room_id (suc p) 0 (emplace room_id 0 s.room_map)
          (emplace_keeps room_id (suc p) 0 s.room_map o.mapped);
    kept = deref-assign_self p _ s.rooms;
    host_lives = o.host_lives;
    members_live = AllLive-append s.clients o.room.room_vector bs (suc h) sap o.members_live lives;
  },
)
