-- ===== src/Room/Faults.antt =====
-- RDIBY/room.cpp and RDIBY/server.cpp: histories that the server does not survive, and a stranger
-- who ends a room.
use lllsi.Base.{
  ℕ, zero, suc, ◌%◌, ◌+◌, ◌<◌, ◌≡◌, refl, sym, ap, ◌∙◌, Bool, false, List, [], ◌∷◌, ◌++◌, length,
  take, drop, get_elem?, ok, err, bind_eq, bind_eq_err, le_or_lt, or_fail, lookup, assign, erase,
  emplace, some, none, Option, arith, ◌==◌, Bool-cases, inl, inr, Option-cases, length-append,
  length-take, length-drop, get_elem?-none,
}
use lllsi.Base.Error.{null_pointer, out_of_range}
use lllsi.Packet.{dword}
use lllsi.Room.{
  Sap, ServerManager, deref, or_null, get_room_ptr, create_new_room, get_room_size, remove_loop,
  remove_client_from_room,
}
use lllsi.Room.Server.{end_room}
use lllsi.Room.Handler.{unwind, host_room, open_room, join_room, refuse}
use lllsi.Room.Introduction.{OpenRoom, Ended, end_room_lem}
use lllsi.Room.Entry.{deref-assign_other, deref_nonzero, emplace_fresh, emplace_keeps}
use lllsi.Threads.{ThreadManager, ConThread, kill_thread}

none-some : {x : ℕ} → none ≡ some x → ⊥
none-some h = cc

-- More rounds than elements are left run into the end, whatever was erased on the way.
remove_loop-out_of_range :
    (rounds i client : ℕ) (xs : List ℕ)
    → length xs < i + rounds
    → 0 < rounds
    → remove_loop rounds i client xs ≡ err out_of_range
unfolding remove_loop
remove_loop-out_of_range zero i client xs over more = absurd (omega arith)
remove_loop-out_of_range (suc rounds) i client xs over more = elim (Option-cases (get_elem? xs i)) [
  | inl behind ↦ rw behind refl
  | inr (member, there) ↦ elim (le_or_lt (length xs) i) [
    | inl past ↦ absurd (none-some (sym (get_elem?-none xs i past) ∙ there))
    | inr inside ↦ rw there (elim (Bool-cases (member == client)) [
      | inl same ↦ rw same (
          remove_loop-out_of_range rounds (i + 1) client (take i xs ++ drop (i + 1) xs)
            (omega (
              arith,
              length-append (take i xs) (drop (i + 1) xs),
              length-take i xs,
              length-drop (i + 1) xs,
            ))
            (omega arith))
      | inr other ↦
          rw other (remove_loop-out_of_range rounds (i + 1) client xs (omega arith) (omega arith))
    ])
  ]
]

-- Whichever client leaves an open room, by a message or by hanging up, the loop asks the vector for
-- one member more than it has, because `getRoomSize` counts the host: `at` throws, and nothing
-- catches it.
pub remove_client_from_room-out_of_range :
    (s : ServerManager) (room_id p client : ℕ) (host : Sap) (bs : List Sap)
    → (o : OpenRoom s room_id p host bs) → length o.room.room_vector + 1 < dword
    → remove_client_from_room room_id client s ≡ err out_of_range
unfolding remove_client_from_room get_room_ptr get_room_size
remove_client_from_room-out_of_range s room_id p client host bs o small =
    let occupied = deref_nonzero o.room.host o.host_lives.0 s.clients o.host_lives.1 in
    let runs : remove_loop (get_room_size o.room) 0 client o.room.room_vector ≡ err out_of_range =
      rw occupied (
        remove_loop-out_of_range ((length o.room.room_vector + 1) % dword) 0 client
          o.room.room_vector (omega arith) (omega arith)) in
    bind_eq _ (ap (λ (q : Option ℕ). deref (or_null q) s.rooms) o.mapped ∙ o.kept)
      (bind_eq_err _ runs)

pub end_room_missing :
    (s : ServerManager) (room_id : ℕ) (start_streaming : Bool)
    → or_null (lookup room_id s.room_map) ≡ 0
    → end_room room_id start_streaming s ≡ err null_pointer
unfolding end_room get_room_ptr
end_room_missing s room_id start missing = bind_eq_err _ (ap (λ (q : ℕ). deref q s.rooms) missing)

abbrev pub Haunted :
    ServerManager
    → (guest host : ℕ) → (guest_sap host_sap : Sap) → (room_id guest_pass host_pass : ℕ) → Bool
    → Type 0
Haunted s guest host guest_sap host_sap room_id guest_pass host_pass start_streaming =
    (t u : ServerManager) × (join_room guest guest_sap room_id guest_pass s ≡ ok (none, t))
    × (open_room host host_sap room_id host_pass t ≡ ok (some room_id, u))
    × (end_room room_id start_streaming u ≡ err null_pointer)

-- A client that asks for a room that is not there is sent away, but leaves a null pointer in the map.
-- The host that opens the room afterwards is let in, its room is not entered in the map, and when it
-- starts or leaves, the server reads through the null pointer.
pub join_room-Haunted :
    (s : ServerManager) (guest host : ℕ) (guest_sap host_sap : Sap)
    (room_id guest_pass host_pass : ℕ) (start_streaming : Bool) (thread : ConThread)
    → lookup room_id s.room_map ≡ none
    → lookup (guest_sap.0 % dword) s.threads.thread_map ≡ some thread
    → Haunted s guest host guest_sap host_sap room_id guest_pass host_pass start_streaming
unfolding join_room open_room create_new_room get_room_ptr refuse kill_thread
join_room-Haunted s guest host guest_sap host_sap room_id gp hp start thread missing known =
    let stopped : ThreadManager = record {
      thread_map = erase (guest_sap.0 % dword) s.threads.thread_map;
      signalled = s.threads.signalled ++ thread.stop_event ∷ [];
    } in
    let s1 : ServerManager = record s {
      room_map = emplace room_id 0 s.room_map;
      threads = stopped;
      closed = s.closed ++ guest_sap.0 ∷ [];
    } in
    let t = unwind guest s1 in
    let u : ServerManager = record t {
      rooms = assign host (host_room host room_id hp) t.rooms;
      room_map = emplace room_id host t.room_map;
    } in
    (
      t,
      u,
      rw missing (
          bind_eq _ (bind_eq _ (ap (λ (o : Option ConThread). or_fail o null_pointer) known) refl)
            refl),
      refl,
      end_room_missing u room_id start (
          ap or_null (
            emplace_keeps room_id 0 host (emplace room_id 0 s.room_map)
              (emplace_fresh room_id 0 s.room_map missing))),
    )

abbrev pub Usurped :
    ServerManager → (h : ℕ) → Sap → (room_id room_pass_hash p : ℕ) → Sap → List Sap → Type 0
Usurped s h sap room_id room_pass_hash p host bs =
    (t : ServerManager) × (open_room h sap room_id room_pass_hash s ≡ ok (some room_id, t))
    × Ended t room_id false host bs

-- A second host that names an open room is let in, whatever password it gives, and the map keeps
-- the first host's room. When the second host leaves, the first host and its members are sent off
-- and their room is gone.
pub open_room-Usurped :
    (s : ServerManager) (h : ℕ) (sap : Sap) (room_id room_pass_hash p : ℕ) (host : Sap)
    (bs : List Sap)
    → OpenRoom s room_id p host bs
    → (h == p) ≡ false
    → Usurped s h sap room_id room_pass_hash p host bs
unfolding open_room create_new_room
open_room-Usurped s h sap room_id pass p host bs o stranger =
    let t : ServerManager = record s {
      rooms = assign h (host_room h room_id pass) s.rooms;
      room_map = emplace room_id h s.room_map;
    } in
    (
      t,
      refl,
      end_room_lem t room_id p false host bs (record {
        room = o.room;
        mapped = emplace_keeps room_id p h s.room_map o.mapped;
        kept = deref-assign_other h p (host_room h room_id pass) o.room s.rooms stranger o.kept;
        host_lives = o.host_lives;
        members_live = o.members_live;
      }),
    )
