-- ===== src/Room/System/Entering.antt =====
-- RDIBY/server.cpp `clientHandlerFunc`: a client that comes while others are served.
use lllsi.Base.{
  update, update_self, ℕ, suc, ◌≡◌, refl, sym, ap, ◌∙◌, Bool, true, false, List, [], ◌∷◌, ◌++◌,
  ◌==◌, ==_iff, ok, ok-inj, All, lookup, emplace, assign, if◌then◌else◌, none, some, Option, inl,
  inr, Bool-cases, subst,
}
use lllsi.Packet.{Bytes}
use lllsi.Room.{
  Sap, RoomClient, room_client, ServerRoom, ServerManager, deref, or_null, create_new_room,
}
use lllsi.Room.Handler.{enter, arrive, default_room, open_room, host_room}
use lllsi.Room.Entry.{deref-assign_self, deref-assign_other, joined_state}
use lllsi.Room.System.{Job, looping, absent}
use lllsi.Room.System.Outcomes.{some-none, enter_cases, Refused, join_room_cases}
use lllsi.Room.System.Open.{
  Stays, OpenIn, IsSound, Apart, OpenIn-outside, OpenIn-keep, Apart-Stays, Stays-outside,
  emplace_new, emplace_null, deref-erase_other, looping_absent, looping-inj, All-implies,
}

-- The thread's objects come.
arrive-Apart :
    (h : ℕ) (c : RoomClient) (j : Job) (s : ServerManager) (job : ℕ → Job)
    → Apart h s (arrive h c s) job (update job h j)
arrive-Apart h c j s job = record {
  clients = λ q d other found. deref-assign_other h q c d s.clients other found;
  jobs_kept = λ q other. ap (λ (b : Bool). if b then j else job q) other;
}

All-snoc : (P : ℕ → Type 0) (xs : List ℕ) (x : ℕ) → All P xs → P x → All P (xs ++ x ∷ [])
All-snoc P [] x l p = (p, tt)
All-snoc P (y ∷ xs) x l p = (l.0, All-snoc P xs x l.1 p)

module _ (s : ServerManager) (job : ℕ → Job) (h : ℕ) (free : job (suc h) ≡ absent)
    (sound : IsSound s job) where
  idle_thread : (sap : Sap) (k : ℕ) → job (suc h) ≡ looping sap k → ⊥
  idle_thread sap k e = looping_absent e free

  open_room-IsSound :
      (sap : Sap) (room_id pass r : ℕ) (name : Bytes) (t : ServerManager)
      → open_room (suc h) sap room_id pass (arrive (suc h) (room_client sap name true) s)
        ≡ ok (some r, t)
      → IsSound t (update job (suc h) (looping sap r))
  unfolding open_room create_new_room
  open_room-IsSound sap room_id pass r name t e =
      let room = host_room (suc h) room_id pass in
      let c = room_client sap name true in
      let jobs = update job (suc h) (looping sap room_id) in
      let arrived = arrive (suc h) c s in
      let opened : ServerManager = record arrived {
        rooms = assign (suc h) room arrived.rooms;
        room_map = emplace room_id (suc h) s.room_map;
      } in
      let apart : Apart (suc h) s opened job jobs = record {
        clients = λ q d other found. deref-assign_other (suc h) q c d s.clients other found;
        jobs_kept = λ q other. ap (λ (b : Bool). if b then looping sap room_id else job q) other;
      } in
      let own : OpenIn opened jobs room_id (suc h) = record {
        room = room;
        kept = deref-assign_self h room arrived.rooms;
        own = refl;
        host_stays = record {
          client = c;
          sap = sap;
          found = deref-assign_self h c s.clients;
          stays = refl;
          hosts = refl;
          runs = update_self job (suc h) (looping sap room_id);
        };
        members_stay = tt;
      } in
      let result : IsSound opened jobs = λ k p mapped.
        elim (emplace_new room_id k (suc h) p s.room_map mapped) [
          | inl old ↦
              OpenIn-outside (suc h) idle_thread apart
                (λ q d other kept.
                  deref-assign_other (suc h) q room d arrived.rooms other
                    (deref-assign_other (suc h) q default_room d s.rooms other kept))
                (sound k p old)
          | inr (same, here) ↦
              subst (OpenIn opened jobs k) here
                (subst (λ (i : ℕ). OpenIn opened jobs i (suc h)) same own)
        ] in
      subst
        (λ (x : Option ℕ × ServerManager).
          IsSound x.1 (update job (suc h) (looping sap (or_null x.0))))
        (ok-inj e) result

  arrived_rooms :
      (q : ℕ) (room : ServerRoom)
      → (suc h == q) ≡ false
      → deref q s.rooms ≡ ok room
      → deref q (assign (suc h) default_room s.rooms) ≡ ok room
  arrived_rooms q room other kept =
      deref-assign_other (suc h) q default_room room s.rooms other kept

  Refused-IsSound :
      (c : RoomClient) (room_id : ℕ) (entered : Option ℕ × ServerManager)
      → Refused (suc h) room_id (arrive (suc h) c s) entered
      → IsSound entered.1 job
  Refused-IsSound c room_id entered gone k p mapped =
      OpenIn-outside (suc h) idle_thread
        (record {
          clients = λ q d other found.
              ap (deref q) gone.clients
              ∙ deref-erase_other (suc h) q d (assign (suc h) c s.clients) other
                  (deref-assign_other (suc h) q c d s.clients other found);
          jobs_kept = λ q other. refl;
        })
        (λ q d other kept.
          ap (deref q) gone.rooms
          ∙ deref-erase_other (suc h) q d (assign (suc h) default_room s.rooms) other
              (arrived_rooms q d other kept))
        (sound k p
          (emplace_null room_id k p s.room_map (ap (lookup k) (sym gone.room_map) ∙ mapped)))

  -- The room that a guest joins has it as a last member; the others are as they were.
  join_room-IsSound :
      (sap : Sap) (name : Bytes) (room_id p : ℕ) (room : ServerRoom)
      → lookup room_id s.room_map ≡ some (suc p)
      → deref (suc p) (assign (suc h) default_room s.rooms) ≡ ok room
      → IsSound
          (joined_state
            (suc h)
            room_id
            (suc p)
            room
            (arrive (suc h) (room_client sap name false) s))
          (update job (suc h) (looping sap room_id))
  join_room-IsSound sap name room_id p room mapped found k q there =
      let c = room_client sap name false in
      let jobs = update job (suc h) (looping sap room_id) in
      let t = joined_state (suc h) room_id (suc p) room (arrive (suc h) c s) in
      let apart = arrive-Apart (suc h) c (looping sap room_id) s job in
      let outside = λ (b : Bool) (i r : ℕ) (x : Stays s job r b i).
        Apart-Stays {t = t} {jobs = jobs}
          (record { clients = apart.clients; jobs_kept = apart.jobs_kept })
          (Stays-outside (suc h) idle_thread x) x in
      let o = sound room_id p mapped in
      let before : lookup k s.room_map ≡ some (suc q) =
        emplace_null room_id k q s.room_map
          (emplace_null room_id k q (emplace room_id 0 s.room_map) there) in
      let known : o.room ≡ room = ok-inj (
        sym (arrived_rooms (suc p) o.room (Stays-outside (suc h) idle_thread o.host_stays) o.kept)
        ∙ found) in
      elim (Bool-cases (suc p == suc q)) [
        | inl same ↦
            let e : suc p ≡ suc q = (==_iff (suc p) (suc q)).0 same in
            let grown : OpenIn t jobs room_id (suc p) = record {
              room = record room { room_vector = room.room_vector ++ suc h ∷ [] };
              kept = deref-assign_self p _ (assign (suc h) default_room s.rooms);
              own = ap (λ (r : ServerRoom). r.host) (sym known) ∙ o.own;
              host_stays = outside true (suc p) room_id o.host_stays;
              members_stay =
                  All-snoc (Stays t jobs room_id false) room.room_vector (suc h)
                    (subst (λ (r : ServerRoom). All (Stays t jobs room_id false) r.room_vector)
                      known
                      (All-implies (Stays s job room_id false) (Stays t jobs room_id false)
                        o.room.room_vector (λ i x. outside false i room_id x) o.members_stay))
                    (record {
                      client = c;
                      sap = sap;
                      found = deref-assign_self h c s.clients;
                      stays = refl;
                      hosts = refl;
                      runs = update_self job (suc h) (looping sap room_id);
                    });
            } in
            let here : room_id ≡ k =
              looping-inj {j = job (suc p)} o.host_stays.runs
                (ap job e ∙ (sound k q before).host_stays.runs) in
            subst (OpenIn t jobs k) e (subst (λ (i : ℕ). OpenIn t jobs i (suc p)) here grown)
        | inr other ↦
            OpenIn-keep (λ b i x. outside b i k x)
              (λ r kept.
                deref-assign_other (suc p) (suc q) _ r (assign (suc h) default_room s.rooms) other (
                  arrived_rooms (suc q) r
                    (Stays-outside (suc h) idle_thread (sound k q before).host_stays) kept))
              (sound k q before)
      ]

  -- A thread whose client comes in.
  pub enter-IsSound :
      (hasher : Bytes → ℕ) (sap : Sap) (received : Bytes) (room_id : ℕ) (t : ServerManager)
      → enter hasher (suc h) sap received s ≡ ok (some room_id, t)
      → IsSound t (update job (suc h) (looping sap room_id))
  enter-IsSound hasher sap received room_id t e =
      let (r, pass, name, cases) = enter_cases hasher (suc h) sap received s (some room_id, t) e in
      elim cases [
        | inl opened ↦ open_room-IsSound sap r pass room_id name t opened
        | inr joined ↦
            elim (join_room_cases (arrive (suc h) (room_client sap name false) s) h sap r pass
              (some room_id, t) joined) [
                | inl gone ↦ absurd (some-none gone.sent_off)
                | inr (p, room, mapped, found, out) ↦
                    subst
                      (λ (x : Option ℕ × ServerManager).
                        IsSound x.1 (update job (suc h) (looping sap (or_null x.0))))
                      out (join_room-IsSound sap name r p room mapped found)
              ]
      ]

  -- A thread whose client is sent away.
  pub enter-IsSound_refused :
      (hasher : Bytes → ℕ) (sap : Sap) (received : Bytes) (t : ServerManager)
      → enter hasher (suc h) sap received s ≡ ok (none, t)
      → IsSound t job
  unfolding open_room create_new_room
  enter-IsSound_refused hasher sap received t e =
      let (r, pass, name, cases) = enter_cases hasher (suc h) sap received s (none, t) e in
      elim cases [
        | inl opened ↦
            absurd (some-none (ap (λ (x : Option ℕ × ServerManager). x.0) (ok-inj opened)))
        | inr joined ↦
            elim (join_room_cases (arrive (suc h) (room_client sap name false) s) h sap r pass
              (none, t) joined) [
                | inl gone ↦ Refused-IsSound (room_client sap name false) r (none, t) gone
                | inr (p, room, mapped, found, out) ↦
                    absurd (some-none (ap (λ (x : Option ℕ × ServerManager). x.0) out))
              ]
      ]
