-- ===== src/Room/System/Open.antt =====
-- RDIBY/server.cpp: the rooms in the map while many clients are served.
use lllsi.Base.{
  ℕ, zero, suc, ◌≡◌, refl, sym, ap, ◌∙◌, Bool, true, false, List, [], ◌∷◌, ◌==◌, ==_iff, ok, ok_err,
  Result, arith, ◌⊎◌, All, Map, lookup, emplace, erase, lookup-emplace, lookup-erase, or_fail,
  if◌then◌else◌, none, some, Option, inl, inr, Bool-cases,
}
use lllsi.Base.Error.{null_pointer}
use lllsi.Room.{Sap, RoomClient, ServerRoom, ServerManager, deref, or_null}
use lllsi.Room.Introduction.{AllLive, OpenRoom}
use lllsi.Room.System.{Job, looping, absent}

-- The pointer leads to a client, host or not, whose thread is in the loop of the room, and which is
-- not marked as leaving.
pub record Stays (s : ServerManager) (job : ℕ → Job) (room_id : ℕ) (is_host : Bool) (q : ℕ)
    : Type 0 where
  pub client : RoomClient
  pub sap : Sap
  pub found : deref q s.clients ≡ ok client
  pub stays : client.is_leaving ≡ false
  pub hosts : client.is_host ≡ is_host
  pub runs : job q ≡ looping sap room_id

-- The pointer leads to a room, its host is the thread the pointer names, and all who are in it stay.
pub record OpenIn (s : ServerManager) (job : ℕ → Job) (room_id p : ℕ) : Type 0 where
  pub room : ServerRoom
  pub kept : deref p s.rooms ≡ ok room
  pub own : room.host ≡ p
  pub host_stays : Stays s job room_id true p
  pub members_stay : All (Stays s job room_id false) room.room_vector

-- Every pointer in `roomMap` that is not null leads to an open room.
abbrev pub IsSound : ServerManager → (ℕ → Job) → Type 0
IsSound s job =
    (room_id p : ℕ) → lookup room_id s.room_map ≡ some (suc p) → OpenIn s job room_id (suc p)

room_of : Job → ℕ
room_of (looping sap room_id) = room_id
room_of _ = 0

-- A thread is in the loop of one room.
pub looping-inj : {a b : Sap} {r k : ℕ} {j : Job} → j ≡ looping a r → j ≡ looping b k → r ≡ k
unfolding room_of
looping-inj h g = ap room_of (sym h ∙ g)

pub looping_absent : {a : Sap} {r : ℕ} {j : Job} → j ≡ looping a r → j ≡ absent → ⊥
looping_absent h g = cc

pub differ : (p q : ℕ) → (p ≡ q → ⊥) → (p == q) ≡ false
differ p q f = elim (Bool-cases (p == q)) [
  | inl same ↦ absurd (f ((==_iff p q).0 same))
  | inr other ↦ other
]

pub equal_differ : (r k : ℕ) → (r == k) ≡ false → r ≡ k → ⊥
equal_differ r k other e = ground arith

-- Who stays in another room is another client.
pub Stays-differ :
    {s : ServerManager} {job : ℕ → Job} {r k p q : ℕ} {a b : Bool}
    → (r == k) ≡ false
    → Stays s job r a p
    → Stays s job k b q
    → (p == q) ≡ false
Stays-differ {job = job} {r} {k} {p} {q} other x y =
    differ p q
      (λ (e : p ≡ q). equal_differ r k other (looping-inj {j = job p} x.runs (ap job e ∙ y.runs)))

pub All-implies :
    {A : Type 0} (P Q : A → Type 0) (xs : List A) → ((x : A) → P x → Q x) → All P xs → All Q xs
All-implies P Q [] f l = tt
All-implies P Q (x ∷ xs) f l = (f x l.0, All-implies P Q xs f l.1)

-- A room whose host and members stay and whose record is kept is open afterwards.
pub OpenIn-keep :
    {s t : ServerManager} {job jobs : ℕ → Job} {room_id p : ℕ}
    → ((b : Bool) (q : ℕ) → Stays s job room_id b q → Stays t jobs room_id b q)
    → ((room : ServerRoom) → deref p s.rooms ≡ ok room → deref p t.rooms ≡ ok room)
    → OpenIn s job room_id p
    → OpenIn t jobs room_id p
OpenIn-keep {s} {t} {job} {jobs} {room_id} {p} f g o = record {
  room = o.room;
  kept = g o.room o.kept;
  own = o.own;
  host_stays = f true p o.host_stays;
  members_stay =
      All-implies (Stays s job room_id false) (Stays t jobs room_id false) o.room.room_vector
        (f false) o.members_stay;
}

saps_of :
    (s : ServerManager) (job : ℕ → Job) (room_id : ℕ) (ps : List ℕ)
    → All (Stays s job room_id false) ps
    → (bs : List Sap) × AllLive s.clients ps bs
saps_of s job room_id [] l = ([], tt)
saps_of s job room_id (p ∷ ps) l =
    let (bs, live) = saps_of s job room_id ps l.1 in
    (l.0.client.sap ∷ bs, ((l.0.client, l.0.found, refl), live))

-- What `endRoom` needs.
pub OpenIn-OpenRoom :
    {s : ServerManager} {job : ℕ → Job} {room_id p : ℕ}
    → lookup room_id s.room_map ≡ some p
    → (o : OpenIn s job room_id p)
    → (host : Sap) × (bs : List Sap) × (x : OpenRoom s room_id p host bs) × (x.room ≡ o.room)
OpenIn-OpenRoom {s} {job} {room_id} {p} mapped o =
    let (bs, live) = saps_of s job room_id o.room.room_vector o.members_stay in
    (
      o.host_stays.client.sap,
      bs,
      record {
        room = o.room;
        mapped = mapped;
        kept = o.kept;
        host_lives = (
          o.host_stays.client,
          ap (λ (q : ℕ). deref q s.clients) o.own ∙ o.host_stays.found,
          refl,
        );
        members_live = live;
      },
      refl,
    )

-- A null pointer that is inserted brings no room.
pub emplace_null :
    (k r p : ℕ) (m : Map ℕ) → lookup r (emplace k 0 m) ≡ some (suc p) → lookup r m ≡ some (suc p)
emplace_null k r p m h = ground (arith, lookup-emplace k r 0 m)

pub erase_rest :
    (k r p : ℕ) (m : Map ℕ)
    → lookup r (erase k m) ≡ some p
    → ((k == r) ≡ false) × (lookup r m ≡ some p)
erase_rest k r p m h = ground (arith, lookup-erase k r m)

pub deref-erase_other :
    {V : Type 0} (p q : ℕ) (w : V) (m : Map V)
    → (p == q) ≡ false
    → deref q m ≡ ok w
    → deref q (erase p m) ≡ ok w
deref-erase_other p zero w m other h = absurd (ok_err h)
deref-erase_other p (suc q) w m other h =
    ap (λ (o : Option _). or_fail o null_pointer) (lookup-erase p (suc q) m) ∙ rw other h

-- A pointer that is inserted leads to the room itself or was there.
pub emplace_new :
    (r k h p : ℕ) (m : Map ℕ)
    → lookup k (emplace r h m) ≡ some (suc p)
    → (lookup k m ≡ some (suc p)) ⊎ ((r ≡ k) × (h ≡ suc p))
emplace_new r k h p m e = ground (arith, lookup-emplace r k h m)

-- From one state to the next, a thread may change its own objects and its own job.
pub record Apart (h : ℕ) (s t : ServerManager) (job jobs : ℕ → Job) : Type 0 where
  pub clients :
      (q : ℕ) (c : RoomClient)
      → (h == q) ≡ false
      → deref q s.clients ≡ ok c
      → deref q t.clients ≡ ok c
  pub jobs_kept : (q : ℕ) → (h == q) ≡ false → jobs q ≡ job q

pub Apart-Stays :
    {h : ℕ} {s t : ServerManager} {job jobs : ℕ → Job} {room_id q : ℕ} {b : Bool}
    → Apart h s t job jobs
    → (h == q) ≡ false
    → Stays s job room_id b q
    → Stays t jobs room_id b q
Apart-Stays {q = q} apart other x = record {
  client = x.client;
  sap = x.sap;
  found = apart.clients q x.client other x.found;
  stays = x.stays;
  hosts = x.hosts;
  runs = apart.jobs_kept q other ∙ x.runs;
}

-- A thread that is in no loop is not among those who stay.
pub Stays-outside :
    {s : ServerManager} {job : ℕ → Job} {room_id q : ℕ} {b : Bool} (h : ℕ)
    → ((sap : Sap) (k : ℕ) → job h ≡ looping sap k → ⊥)
    → Stays s job room_id b q
    → (h == q) ≡ false
Stays-outside {job = job} {room_id} {q} h out x =
    differ h q (λ (e : h ≡ q). out x.sap room_id (ap job e ∙ x.runs))

-- So every room stays open, whatever such a thread does with its own objects.
pub OpenIn-outside :
    {s t : ServerManager} {job jobs : ℕ → Job} {room_id p : ℕ} (h : ℕ)
    → ((sap : Sap) (k : ℕ) → job h ≡ looping sap k → ⊥)
    → Apart h s t job jobs
    → ((q : ℕ) (room : ServerRoom)
        → (h == q) ≡ false
        → deref q s.rooms ≡ ok room
        → deref q t.rooms ≡ ok room)
    → OpenIn s job room_id p
    → OpenIn t jobs room_id p
OpenIn-outside {p = p} h out apart rooms o =
    OpenIn-keep (λ b q x. Apart-Stays apart (Stays-outside h out x) x)
      (λ room kept. rooms p room (Stays-outside h out o.host_stays) kept) o

-- An outcome comes from one of the branches.
pub branch :
    {A : Type 0} {a : A} (b : Bool) (x y : Result A)
    → (if b then x else y) ≡ ok a
    → ((b ≡ true) × (x ≡ ok a)) ⊎ ((b ≡ false) × (y ≡ ok a))
branch true x y h = inl (refl, h)
branch false x y h = inr (refl, h)

pub or_null_pointer : (o : Option ℕ) → (or_null o == 0) ≡ false → (p : ℕ) × (o ≡ some (suc p))
or_null_pointer none h = cc
or_null_pointer (some zero) h = cc
or_null_pointer (some (suc p)) h = (p, refl)
