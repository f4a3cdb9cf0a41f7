-- ===== src/Room/System/Overlap.antt =====
-- RDIBY/server.cpp: a member's handler ends in the middle of `endRoom`, which holds no lock.
use lllsi.Base.{
  ℕ, zero, suc, ◌%◌, ◌≡◌, refl, sym, ap, ◌∙◌, Bool, true, false, List, [], ◌∷◌, ◌++◌, ==_self,
  if◌then◌else◌, Option, none, some, ok, err, ok-inj, bind_eq, bind_eq_err, bind_inv, Map, lookup,
  lookup-erase, erase, or_fail, All, All-middle, subst, ◌⊎◌, inl, inr, Option-cases,
}
use lllsi.Base.Error.{null_pointer}
use lllsi.Packet.{Bytes, dword}
use lllsi.Threads.{ConThread, ThreadManager, kill_thread}
use lllsi.Room.{Sap, ServerRoomMsg, ServerManager, deref, get_room_ptr}
use lllsi.Room.Server.{
  leave_msg, punch_msg, bare_msg, send_msg, set_leaving, tell_host, tell_clients, send_off,
  introduce,
}
use lllsi.Room.Handler.{handle_message, finish, unwind}
use lllsi.Room.Introduction.{OpenRoom, introduce_lem}
use lllsi.Room.Leaving.{Leaves, introduce-Leaves, hang_up-Leaves}

deref_cases :
    {V : Type 0} (p : ℕ) (m : Map V)
    → ((v : V) × (deref p m ≡ ok v)) ⊎ (deref p m ≡ err null_pointer)
deref_cases zero m = inr refl
deref_cases (suc p) m = elim (Option-cases (lookup (suc p) m)) [
  | inl missing ↦ inr (ap (λ (o : Option _). or_fail o null_pointer) missing)
  | inr (v, there) ↦ inl (v, ap (λ (o : Option _). or_fail o null_pointer) there)
]

deref-erase_self : {V : Type 0} (p : ℕ) (m : Map V) → deref p (erase p m) ≡ err null_pointer
deref-erase_self zero m = refl
deref-erase_self (suc p) m =
    ap (λ (o : Option _). or_fail o null_pointer)
      (lookup-erase (suc p) (suc p) m
        ∙ ap (λ (b : Bool). if b then none else lookup (suc p) m) (==_self (suc p)))

send_off-dead :
    (before : List ℕ) (h : ℕ) (after : List ℕ) (s : ServerManager)
    → deref h s.clients ≡ err null_pointer
    → send_off (before ++ h ∷ after) s ≡ err null_pointer
unfolding send_off
send_off-dead [] h after s dead = bind_eq_err _ dead
send_off-dead (p ∷ before) h after s dead = elim (deref_cases p s.clients) [
  | inl (c, e) ↦
      bind_eq _ e (send_off-dead before h after (send_msg c.sap.0 (bare_msg leave_msg) s) dead)
  | inr e ↦ bind_eq_err _ e
]

tell_host-threads :
    (sock : ℕ) (ps : List ℕ) (s t : ServerManager)
    → tell_host sock ps s ≡ ok t
    → t.threads ≡ s.threads
unfolding tell_host
tell_host-threads sock [] s t e = ap (λ (u : ServerManager). u.threads) (sym (ok-inj e))
tell_host-threads sock (p ∷ ps) s t e =
    let (c, found, rest) = bind_inv (deref p s.clients) _ e in
    tell_host-threads sock ps (send_msg sock (punch_msg c.sap.1) s) t rest

tell_clients-threads :
    (addr : Bytes) (ps : List ℕ) (s t : ServerManager)
    → tell_clients addr ps s ≡ ok t
    → t.threads ≡ s.threads
unfolding tell_clients
tell_clients-threads addr [] s t e = ap (λ (u : ServerManager). u.threads) (sym (ok-inj e))
tell_clients-threads addr (p ∷ ps) s t e =
    let (c, found, rest) = bind_inv (deref p s.clients) _ e in
    tell_clients-threads addr ps
      (send_msg c.sap.0 (punch_msg c.sap.1) (send_msg c.sap.0 (punch_msg addr) (set_leaving p c s)))
      t rest

introduce-threads :
    (host : Sap) (ps : List ℕ) (s t : ServerManager)
    → introduce true host ps s ≡ ok t
    → t.threads ≡ s.threads
unfolding introduce
introduce-threads host ps s t e =
    let (u, told, rest) =
      bind_inv (tell_host host.0 ps (send_msg host.0 (punch_msg host.1) s)) _ e in
    tell_clients-threads host.1 ps u t rest
    ∙ tell_host-threads host.0 ps (send_msg host.0 (punch_msg host.1) s) u told

-- `endRoom` has made the introductions in `t`; the member's handler `h` then has a failed receive and
-- ends, in `u`; what `endRoom` does next fails.
abbrev pub Overlapped :
    ServerManager → (room_id h : ℕ) → (host sap : Sap) → List ℕ → ServerRoomMsg → Type 0
Overlapped s room_id h host sap room_vector msg =
    (t u : ServerManager) × (introduce true host room_vector (get_room_ptr room_id s).1 ≡ ok t)
    × (handle_message h room_id 0 msg t ≡ ok (false, t))
    × (finish h sap t ≡ ok u)
    × (send_off room_vector u ≡ err null_pointer)

-- While `endRoom` starts an open room, when it has marked the members as leaving and before it sends
-- them off, a member whose connection fails, with its thread in the map, gets through its handler to
-- the end. The loop of `endRoom` that sends the members off then reads a dead object.
pub send_off-finish :
    (s : ServerManager) (room_id p h : ℕ) (host sap : Sap) (bs : List Sap) (thread : ConThread)
    (before after : List ℕ) (msg : ServerRoomMsg) (o : OpenRoom s room_id p host bs)
    → o.room.room_vector ≡ before ++ h ∷ after
    → lookup (sap.0 % dword) s.threads.thread_map ≡ some thread
    → Overlapped s room_id h host sap o.room.room_vector msg
unfolding get_room_ptr finish kill_thread
send_off-finish s room_id p h host sap bs thread before after msg o placed known =
    let s1 = (get_room_ptr room_id s).1 in
    let (t, told, sends) = introduce_lem true host o.room.room_vector bs s1 o.members_live in
    let marked = All-middle (Leaves t.clients) before h after (
      subst (All (Leaves t.clients)) placed
        (introduce-Leaves host o.room.room_vector bs s1 t o.members_live told)) in
    let there : lookup (sap.0 % dword) t.threads.thread_map ≡ some thread =
      ap (λ (m : ThreadManager). lookup (sap.0 % dword) m.thread_map)
        (introduce-threads host o.room.room_vector s1 t told)
      ∙ known in
    let stopped : ThreadManager = record {
      thread_map = erase (sap.0 % dword) t.threads.thread_map;
      signalled = t.threads.signalled ++ thread.stop_event ∷ [];
    } in
    let u = unwind h (record t { threads = stopped }) in
    (
      t,
      u,
      told,
      hang_up-Leaves t room_id h msg marked,
      bind_eq _ (bind_eq _ (ap (λ (o : Option ConThread). or_fail o null_pointer) there) refl) refl,
      ap (λ (ps : List ℕ). send_off ps u) placed
          ∙ send_off-dead before h after u (deref-erase_self h t.clients),
    )
