-- ===== src/Room/System/Invariant.antt =====
-- RDIBY/server.cpp: what holds when the rounds of the clients' threads do not overlap, in whatever
-- order they run.
use lllsi.Base.{
  update, ℕ, suc, ◌%◌, ◌≡◌, refl, sym, ap, ◌∙◌, Bool, true, false, List, ok, err, Result, Error,
  none, some, lookup, lookup-nil, if◌then◌else◌, bind_inv, subst, ok-inj, erase,
}
use lllsi.Packet.{Bytes, dword}
use lllsi.Threads.{kill_thread}
use lllsi.Room.{Sap, RoomClient, ServerRoomMsg, ServerManager, deref}
use lllsi.Room.Handler.{handle_message, finish}
use lllsi.Room.Introduction.{Ended, end_room_lem}
use lllsi.Room.System.{
  Job, looping, ended, absent, System, registered, Fits, Round, enters, is_refused, goes_on, stops,
  ends, Serial, start, later,
}
use lllsi.Room.System.Open.{IsSound, Apart, OpenIn-outside, OpenIn-OpenRoom, deref-erase_other}
use lllsi.Room.System.Entering.{enter-IsSound, enter-IsSound_refused}
use lllsi.Room.System.Handling.{IsSound-same, handle_message-IsSound, hang_up_fails}

none-some : {x : ℕ} → none ≡ some x → ⊥
none-some h = cc

ended_looping : {a b : Sap} {r : ℕ} {j : Job} → j ≡ ended a → j ≡ looping b r → ⊥
ended_looping h g = cc

-- A thread ends with its objects.
finish-IsSound :
    (s t : ServerManager) (job : ℕ → Job) (h : ℕ) (sap : Sap)
    → job h ≡ ended sap
    → finish h sap s ≡ ok t
    → IsSound s job
    → IsSound t (update job h absent)
unfolding finish
finish-IsSound s t job h sap over e sound =
    let (threads, killed, out) = bind_inv (kill_thread (sap.0 % dword) s.threads) _ e in
    let gone : ServerManager = record s {
      threads = threads;
      clients = erase h s.clients;
      rooms = erase h s.rooms;
    } in
    let apart : Apart h s gone job (update job h absent) = record {
      clients = λ q c other found. deref-erase_other h q c s.clients other found;
      jobs_kept = λ q other. ap (λ (b : Bool). if b then absent else job q) other;
    } in
    subst (λ (u : ServerManager). IsSound u (update job h absent)) (ok-inj out)
      (λ k p there.
        OpenIn-outside h (λ a r. ended_looping over) apart
          (λ q room other kept. deref-erase_other h q room s.rooms other kept) (sound k p there))

Round-IsSound :
    {hasher : Bytes → ℕ} {s t : System}
    → Round hasher s t
    → IsSound s.server s.job
    → IsSound t.server t.job
Round-IsSound {hasher} {s} (enters h sap con thread received room_id t free e) sound =
    enter-IsSound (registered sap con thread s.server) s.job h free
      (IsSound-same s.server _ s.job refl refl refl sound) hasher sap received room_id t e
Round-IsSound {hasher} {s} (is_refused h sap con thread received t free e) sound =
    enter-IsSound_refused (registered sap con thread s.server) s.job h free
      (IsSound-same s.server _ s.job refl refl refl sound) hasher sap received t e
Round-IsSound {hasher} {s} (goes_on h sap room_id recv_res msg t runs fits e) sound =
    handle_message-IsSound s.server s.job sound h room_id sap runs recv_res msg (true, t) fits e
Round-IsSound {hasher} {s} (stops h sap room_id recv_res msg t runs fits e) sound =
    handle_message-IsSound s.server s.job sound h room_id sap runs recv_res msg (false, t) fits e
Round-IsSound {hasher} {s} (ends h sap t over e) sound =
    finish-IsSound s.server t s.job h sap over e sound

-- When no two rounds of the handler threads overlap, and in whatever order they run, then between two
-- rounds a pointer in `roomMap` that is not null leads to a room that lives. Its host is the thread
-- the pointer names; the host and every member live too, are in the loop of that room, and are not
-- marked as leaving; only the host is one.
pub Serial-IsSound : {hasher : Bytes → ℕ} {s : System} → Serial hasher s → IsSound s.server s.job
Serial-IsSound start = λ k p there. absurd (none-some (sym (lookup-nil k) ∙ there))
Serial-IsSound (later r st) = Round-IsSound st (Serial-IsSound r)

-- After any order of rounds that do not overlap, a call of `endRoom` that no other round overlaps ends
-- a room whose pointer is not null, with or without a start: no null pointer and no dead object is
-- read, and everybody in the room is told what `endRoom` says.
pub end_room-Serial :
    {hasher : Bytes → ℕ} {s : System} (room_id p : ℕ) (start_streaming : Bool)
    → Serial hasher s
    → lookup room_id s.server.room_map ≡ some (suc p)
    → (host : Sap) × (bs : List Sap) × Ended s.server room_id start_streaming host bs
end_room-Serial {s = s} room_id p start_streaming reach mapped =
    let (host, bs, o, same) = OpenIn-OpenRoom mapped (Serial-IsSound reach room_id p mapped) in
    (host, bs, end_room_lem s.server room_id (suc p) start_streaming host bs o)

fails : {A : Type 0} (r : Result A) → ((a : A) → r ≡ ok a → ⊥) → (e : Error) × (r ≡ err e)
fails (ok a) f = absurd (f a refl)
fails (err e) f = (e, refl)

-- After any order of rounds that do not overlap, a client in the loop of its room that is no host and
-- not marked as leaving makes its handler fail when its connection fails and no other round overlaps
-- with the answer, if the sizes of the rooms fit a DWORD.
pub hang_up-Serial :
    {hasher : Bytes → ℕ} {s : System} (h room_id : ℕ) (sap : Sap) (client : RoomClient)
    (msg : ServerRoomMsg)
    → Serial hasher s
    → Fits s.server
    → s.job h ≡ looping sap room_id
    → deref h s.server.clients ≡ ok client
    → client.is_host ≡ false
    → client.is_leaving ≡ false
    → (e : Error) × (handle_message h room_id 0 msg s.server ≡ err e)
hang_up-Serial {s = s} h room_id sap client msg reach fits runs found guest unmarked =
    fails (handle_message h room_id 0 msg s.server) (λ handled.
      hang_up_fails s.server s.job (Serial-IsSound reach) h room_id sap runs client msg handled fits
        found guest unmarked)
