-- ===== src/Room/System.antt =====
-- RDIBY/server.cpp: many clients at once, each with its thread of `clientHandlerFunc`.
-- A round is what a thread does between two waits for its client: its entry, the answer to one
-- message, its end. The executions here are the serial ones: rounds follow each other in any order,
-- and none begins before the one under way is over. The source takes no lock that would enforce it;
-- Room/System/Overlap has a round that begins in the middle of another.
pub mod Open
pub mod Frame
pub mod Outcomes
pub mod Entering
pub mod Ending
pub mod Handling
pub mod Invariant
pub mod Overlap
use lllsi.Base.{
  update, ℕ, suc, ◌%◌, ◌<◌, ◌+◌, ◌≡◌, Bool, true, false, ◌==◌, if◌then◌else◌, [], Option, none,
  some, Result, ok, All, length,
}
use lllsi.Packet.{Bytes, dword}
use lllsi.Threads.{ConThread, ThreadManager, create_new_thread}
use lllsi.Room.{Sap, ServerRoom, ServerRoomMsg, ServerManager}
use lllsi.Room.Handler.{enter, handle_message, finish}

-- Where a thread stands: not started or over, before `recvData` in the loop of the room, or behind
-- the loop.
pub data Job : Type 0 where
  absent : Job
  looping : (sap : Sap) (room_id : ℕ) → Job
  ended : (sap : Sap) → Job

pub record System : Type 0 where
  pub server : ServerManager
  pub job : ℕ → Job

-- What `acceptFunc` does for a connection before the thread runs.
abbrev pub registered : Sap → ConThread → (thread : ℕ) → ServerManager → ServerManager
registered sap con_thread thread s = record s {
  threads = (create_new_thread (sap.0 % dword) con_thread (some thread) s.threads).1;
}

-- The size of a room fits a DWORD.
abbrev pub Fits : ServerManager → Type 0
Fits s = All (λ (e : ℕ × ServerRoom). length e.1.room_vector + 1 < dword) s.rooms

-- One round of one thread, run whole.
pub data Round (hasher : Bytes → ℕ) (s : System) : System → Type 0 where
  enters :
      (h : ℕ) (sap : Sap) (con_thread : ConThread) (thread : ℕ) (received : Bytes) (room_id : ℕ)
      (t : ServerManager)
      → s.job (suc h) ≡ absent
      → enter hasher (suc h) sap received (registered sap con_thread thread s.server)
        ≡ ok (some room_id, t)
      → Round hasher s (record { server = t; job = update s.job (suc h) (looping sap room_id) })
  is_refused :
      (h : ℕ) (sap : Sap) (con_thread : ConThread) (thread : ℕ) (received : Bytes)
      (t : ServerManager)
      → s.job (suc h) ≡ absent
      → enter hasher (suc h) sap received (registered sap con_thread thread s.server) ≡ ok (none, t)
      → Round hasher s (record { server = t; job = s.job })
  goes_on :
      (h : ℕ) (sap : Sap) (room_id recv_res : ℕ) (msg : ServerRoomMsg) (t : ServerManager)
      → s.job h ≡ looping sap room_id
      → Fits s.server
      → handle_message h room_id recv_res msg s.server ≡ ok (true, t)
      → Round hasher s (record { server = t; job = s.job })
  stops :
      (h : ℕ) (sap : Sap) (room_id recv_res : ℕ) (msg : ServerRoomMsg) (t : ServerManager)
      → s.job h ≡ looping sap room_id
      → Fits s.server
      → handle_message h room_id recv_res msg s.server ≡ ok (false, t)
      → Round hasher s (record { server = t; job = update s.job h (ended sap) })
  ends :
      (h : ℕ) (sap : Sap) (t : ServerManager)
      → s.job h ≡ ended sap
      → finish h sap s.server ≡ ok t
      → Round hasher s (record { server = t; job = update s.job h absent })

-- The server before its first client.
abbrev pub idle : System
idle = record {
  server = record {
    room_map = [];
    rooms = [];
    clients = [];
    threads = record { thread_map = []; signalled = [] };
    sent = [];
    closed = [];
  };
  job = λ _. absent;
}

-- What whole rounds, one at a time, lead to.
pub data Serial (hasher : Bytes → ℕ) : System → Type 0 where
  start : Serial hasher idle
  later : {s t : System} → Serial hasher s → Round hasher s t → Serial hasher t
