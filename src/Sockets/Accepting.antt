-- ===== src/Sockets/Accepting.antt =====
-- RDIBY/server.cpp `acceptFunc`: an `accept` that fails.
use lllsi.Base.{ℕ, ◌-◌, ◌≡◌, ap, ◌∙◌, Option, none, some, lookup, lookup-emplace}
use lllsi.Packet.{Bytes, dword}
use lllsi.Threads.{ConThread, ThreadManager, create_new_thread}
use lllsi.Sockets.{invalid_socket, accept_round}

-- When `accept` fails, its answer INVALID_SOCKET is not below 2, so a handler thread is started for
-- it all the same. It is filed under the key 2 ^ 32 - 1 if no thread is there yet.
pub accept_round-invalid_socket :
    (addr : Bytes) (stop_event thread : ℕ) (m : ThreadManager)
    → lookup (dword - 1) m.thread_map ≡ none
    → lookup (dword - 1) (accept_round invalid_socket addr stop_event (some thread) m).thread_map
      ≡ some (record { stop_event = stop_event; thread = some thread })
unfolding accept_round create_new_thread
accept_round-invalid_socket addr stop_event thread m absent =
    let t : ConThread = record { stop_event = stop_event; thread = some thread } in
    lookup-emplace (dword - 1) (dword - 1) t m.thread_map
    ∙ ap (λ (o : Option ConThread). some (elim o [ none ↦ t | some w ↦ w ])) absent
