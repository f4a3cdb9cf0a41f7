-- ===== src/Host/Setup.antt =====
-- The host's socket: the constructor and the destructor of VideoHost/host.cpp PacketManager.
use lllsi.Base.{ℕ, ◌+◌, ◌≡◌, refl, Bool, true, false, List, ◌∷◌, ◌==◌, ==_self, if◌then◌else◌}
use lllsi.Sockets.{invalid_socket, remove_handle}

-- What the process has of WinSock: its open handles, and how often WSAStartup and WSACleanup were called.
pub record Winsock : Type 0 where
  pub open_handles : List ℕ
  pub startups : ℕ
  pub cleanups : ℕ

-- The members that the constructor sets.
pub record ManagerSocket : Type 0 where
  pub host_sock : ℕ
  pub sequence_number : ℕ

abbrev close_handle : ℕ → Winsock → Winsock
close_handle h w = record w { open_handles = remove_handle h w.open_handles }

-- With the answers of `socket` and `bind`; `bind` on an invalid handle fails. When it fails the members
-- keep what was in that memory.
unfoldable pub new_packet_manager :
    (handle : ℕ) → (bound : Bool) → (garbage : ManagerSocket) → Winsock → ManagerSocket × Winsock
new_packet_manager handle bound garbage w =
    let started : Winsock = record w { startups = w.startups + 1 } in
    let opened : Winsock =
      if handle == invalid_socket
      then started
      else record started { open_handles = handle ∷ started.open_handles } in
    if bound
    then (record { host_sock = handle; sequence_number = 0 }, opened)
    else (let closed = close_handle handle opened in
        (garbage, record closed { cleanups = closed.cleanups + 1 }))

unfoldable pub destroy_packet_manager : ManagerSocket → Winsock → Winsock
destroy_packet_manager m w =
    let closed = close_handle m.host_sock w in record closed { cleanups = closed.cleanups + 1 }

-- A manager that is made and goes: if its socket was bound, nothing is left of it. If not, the destructor
-- closes whatever has the handle that was in the member's memory, and WSACleanup is called once too often.
pub destroy_packet_manager-new :
    (handle : ℕ) (bound : Bool) (garbage : ManagerSocket) (w : Winsock)
    → (handle == invalid_socket) ≡ false
    → (let made = new_packet_manager handle bound garbage w in destroy_packet_manager made.0 made.1)
      ≡ (if bound
          then record w { startups = w.startups + 1; cleanups = w.cleanups + 1 }
          else record w {
            open_handles = remove_handle garbage.host_sock w.open_handles;
            startups = w.startups + 1;
            cleanups = w.cleanups + 1 + 1;
          })
unfolding new_packet_manager destroy_packet_manager
destroy_packet_manager-new handle true garbage w valid = rw (valid, ==_self handle) refl
destroy_packet_manager-new handle false garbage w valid = rw (valid, ==_self handle) refl
