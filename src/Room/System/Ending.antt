-- ===== src/Room/System/Ending.antt =====
-- RDIBY/server.cpp: a room that ends, and a client that leaves, while others are served.
use lllsi.Base.{
  update, ℕ, suc, ◌+◌, ◌<◌, ◌≡◌, sym, ap, ◌∙◌, Bool, true, false, [], ◌∷◌, ◌==◌, ==_iff, ok, err,
  ok_err, ok-inj, Result, Error, length, All, Map, lookup, emplace, if◌then◌else◌, some, inl, inr,
  ◌⊎◌, Bool-cases, bind_inv, bind_eq_err, subst, or_fail,
}
use lllsi.Base.Error.{null_pointer}
use lllsi.Packet.{dword}
use lllsi.Room.{
  Sap, RoomClient, ServerRoom, ServerManager, deref, or_null, get_room_ptr, remove_client_from_room,
}
use lllsi.Room.Server.{end_room}
use lllsi.Room.Handler.{depart}
use lllsi.Room.Faults.{end_room_missing, remove_client_from_room-out_of_range}
use lllsi.Room.System.{Job, looping, ended, Fits}
use lllsi.Room.System.Frame.{Misses, end_room-Spares}
use lllsi.Room.System.Open.{
  Stays, OpenIn, IsSound, OpenIn-keep, OpenIn-OpenRoom, Stays-differ, emplace_null, erase_rest,
  All-implies, differ, equal_differ, branch, or_null_pointer, looping-inj,
}

err_ok : {A : Type 0} {a : A} {e : Error} {m : Result A} → m ≡ err e → m ≡ ok a → ⊥
err_ok fails works = ok_err (sym fails ∙ works)

known_pointer :
    (s : ServerManager) (room_id : ℕ)
    → (or_null (lookup room_id s.room_map) ≡ 0)
      ⊎ ((p : ℕ) × (lookup room_id s.room_map ≡ some (suc p)))
known_pointer s room_id = elim (Bool-cases (or_null (lookup room_id s.room_map) == 0)) [
  | inl null ↦ inl ((==_iff (or_null (lookup room_id s.room_map)) 0).0 null)
  | inr there ↦ inr (or_null_pointer (lookup room_id s.room_map) there)
]

remove_missing :
    (s : ServerManager) (room_id client : ℕ)
    → or_null (lookup room_id s.room_map) ≡ 0
    → remove_client_from_room room_id client s ≡ err null_pointer
unfolding remove_client_from_room get_room_ptr
remove_missing s room_id client null = bind_eq_err _ (ap (λ (q : ℕ). deref q s.rooms) null)

All-lookup :
    (P : ServerRoom → Type 0) (k : ℕ) (room : ServerRoom) (m : Map ServerRoom)
    → All (λ (e : ℕ × ServerRoom). P e.1) m
    → deref (suc k) m ≡ ok room
    → P room
unfolding lookup
All-lookup P k room [] l h = absurd (ok_err h)
All-lookup P k room ((j, r) ∷ m) l h = elim (Bool-cases (j == suc k)) [
  | inl same ↦
      subst P
        (ok-inj (
          ap (λ (b : Bool). or_fail (if b then some r else lookup (suc k) m) null_pointer)
            (sym same)
          ∙ h))
        l.0
  | inr other ↦ All-lookup P k room m l.1 (
      ap (λ (b : Bool). or_fail (if b then some r else lookup (suc k) m) null_pointer) (sym other)
      ∙ h)
]

-- A room ends: every pointer that is left in the map names another room, which is still open.
abbrev pub IsSoundBut : ServerManager → (ℕ → Job) → (room_id : ℕ) → Type 0
IsSoundBut s job room_id =
    (k p : ℕ)
    → lookup k s.room_map ≡ some (suc p)
    → ((room_id == k) ≡ false) × OpenIn s job k (suc p)

pub marked_twice : {c d : RoomClient} → c.is_leaving ≡ true → d.is_leaving ≡ false → c ≡ d → ⊥
marked_twice {c} {d} h g e = cc (h, g, ap (λ (x : RoomClient). x.is_leaving) e)

module _ (s : ServerManager) (job : ℕ → Job) (sound : IsSound s job) where
  pub end_room-IsSoundBut :
      (room_id : ℕ) (start_streaming : Bool) (t : ServerManager)
      → end_room room_id start_streaming s ≡ ok t
      → IsSoundBut t job room_id
  unfolding get_room_ptr
  end_room-IsSoundBut room_id start t e k p there = elim (known_pointer s room_id) [
    | inl null ↦ absurd (err_ok (end_room_missing s room_id start null) e)
    | inr (i, mapped) ↦
        let o = sound room_id i mapped in
        let (host, bs, x, same) = OpenIn-OpenRoom mapped o in
        let (spares, map_after) = end_room-Spares s t room_id (suc i) start host bs x e in
        let (other, rest) =
          erase_rest room_id k (suc p) (emplace room_id 0 s.room_map)
            (ap (lookup k) (sym map_after) ∙ there) in
        let far = λ (b : Bool) (q : ℕ) (y : Stays s job k b q).
          (let host_far : (o.room.host == q) ≡ false =
              ap (λ (n : ℕ). n == q) o.own ∙ Stays-differ other o.host_stays y in
            let members_far : Misses q o.room.room_vector =
              All-implies (Stays s job room_id false) (λ (n : ℕ). (n == q) ≡ false)
                o.room.room_vector (λ n z. Stays-differ other z y) o.members_stay in
            subst (λ (r : ServerRoom). Misses q (r.host ∷ r.room_vector)) (sym same)
              (host_far, members_far)) in
        (
          other,
          OpenIn-keep
              (λ b q y. record {
                client = y.client;
                sap = y.sap;
                found = spares.others q y.client (far b q y) y.found;
                stays = y.stays;
                hosts = y.hosts;
                runs = y.runs;
              })
              (λ r kept. ap (deref (suc p)) spares.rooms ∙ kept)
              (sound k p (emplace_null room_id k p s.room_map rest)),
        )
  ]

  -- A guest that is not marked never gets out of its room without an exception or worse.
  pub remove_client-fails :
      (room_id client : ℕ) (t : Bool × ServerManager)
      → Fits s
      → remove_client_from_room room_id client s ≡ ok t
      → ⊥
  remove_client-fails room_id client t fits e = elim (known_pointer s room_id) [
    | inl null ↦ err_ok (remove_missing s room_id client null) e
    | inr (i, mapped) ↦
        let o = sound room_id i mapped in
        let (host, bs, x, same) = OpenIn-OpenRoom mapped o in
        err_ok
          (remove_client_from_room-out_of_range s room_id (suc i) client host bs x (
            All-lookup (λ (r : ServerRoom). length r.room_vector + 1 < dword) i x.room s.rooms fits
              x.kept))
          e
  ]

  -- The thread leaves the loop of its room.
  module _ (h room_id : ℕ) (sap : Sap) (runs : job h ≡ looping sap room_id) where
    stop-OpenIn :
        (t : ServerManager) (k p : ℕ)
        → ((b : Bool) (q : ℕ) → Stays t job k b q → (h == q) ≡ false)
        → OpenIn t job k p
        → OpenIn t (update job h (ended sap)) k p
    stop-OpenIn t k p far o =
        OpenIn-keep
          (λ b q y. record {
            client = y.client;
            sap = y.sap;
            found = y.found;
            stays = y.stays;
            hosts = y.hosts;
            runs = ap (λ (c : Bool). if c then ended sap else job q) (far b q y) ∙ y.runs;
          })
          (λ r kept. kept) o

    end_room-IsSound_stopped :
        (start_streaming : Bool) (t : ServerManager)
        → end_room room_id start_streaming s ≡ ok t
        → IsSound t (update job h (ended sap))
    end_room-IsSound_stopped start t e k p there =
        let (other, o) = end_room-IsSoundBut room_id start t e k p there in
        stop-OpenIn t k (suc p)
          (λ b q y. differ h q (λ (same : h ≡ q).
            equal_differ room_id k other (looping-inj {j = job h} runs (ap job same ∙ y.runs))))
          o

    pub depart-IsSound :
        (client : RoomClient) (t : ServerManager)
        → Fits s
        → depart h client room_id s ≡ ok t
        → IsSound t (update job h (ended sap))
    unfolding depart
    depart-IsSound client t fits e = elim (branch client.is_host _ _ e) [
      | inl (hosts, out) ↦ end_room-IsSound_stopped false t out
      | inr (guest, out) ↦
          let (gone, removed, on) = bind_inv (remove_client_from_room room_id h s) _ out in
          absurd (remove_client-fails room_id h gone fits removed)
    ]

    -- Its client was marked.
    pub leave-IsSound :
        (client : RoomClient)
        → deref h s.clients ≡ ok client
        → client.is_leaving ≡ true
        → IsSound s (update job h (ended sap))
    leave-IsSound client found leaving k p there =
        stop-OpenIn s k (suc p)
          (λ b q y. differ h q (λ (same : h ≡ q).
            marked_twice leaving y.stays
              (ok-inj (sym found ∙ ap (λ (n : ℕ). deref n s.clients) same ∙ y.found))))
          (sound k p there)
