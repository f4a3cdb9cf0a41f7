-- ===== src/Threads.antt =====
-- The threads of a program by key: RDIBY/concurrency.cpp, ThreadManager.
pub mod Sections
pub mod Waiting
pub mod Slept
use lllsi.Base.{
  ℕ, Bool, true, false, List, [], ◌∷◌, ◌++◌, Option, none, some, Result, ok, Map, lookup, emplace,
  erase, ◌>>=◌, or_fail,
}
use lllsi.Base.Error.{null_pointer}

-- What `killThread` uses of a `ConThread`: its stop event and its thread handle.
pub record ConThread : Type 0 where
  pub stop_event : ℕ
  pub thread : Option ℕ

-- `ConThread(hStopEvent, lpStartAddress, lpParameter)`: no thread yet.
abbrev pub new_con_thread : (stop_event : ℕ) → ConThread
new_con_thread stop_event = record { stop_event = stop_event; thread = none }

-- `signalled` holds the events that were set, in order.
pub record ThreadManager : Type 0 where
  pub thread_map : Map ConThread
  pub signalled : List ℕ

-- With what `CreateThread` answered: a handle, or nothing on a failure. The caller's object gets the
-- handle even if the map keeps another one under the key.
unfoldable pub create_new_thread :
    ℕ → ConThread → (created : Option ℕ) → ThreadManager → Bool × ThreadManager
create_new_thread key ct_thread none m = (false, m)
create_new_thread key ct_thread (some thread) m = (
  true,
  record m { thread_map = emplace key (record ct_thread { thread = some thread }) m.thread_map },
)

-- `threadMap[key]` is a null pointer for a key that is not there.
unfoldable pub kill_thread : ℕ → ThreadManager → Result ThreadManager
kill_thread key m = do
  thread ← or_fail (lookup key m.thread_map) null_pointer
  ok (record m {
    thread_map = erase key m.thread_map;
    signalled = m.signalled ++ thread.stop_event ∷ [];
  })

-- The destructor signals every thread and waits for it, up to a time-out.
unfoldable pub stop_all : Map ConThread → List ℕ
stop_all [] = []
stop_all ((key, thread) ∷ rest) = thread.stop_event ∷ stop_all rest
