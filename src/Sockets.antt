-- ===== src/Sockets.antt =====
-- Opening sockets: RDIBY/client.cpp ClientSocket, RDIBY/serverNetwork.cpp ServerSocket, and the loop of
-- RDIBY/server.cpp `acceptFunc`. What WinSock answers is an argument.
pub mod Opening
pub mod Accepting
pub mod HostSide
use lllsi.Base.{
  ℕ, ◌+◌, ◌-◌, ◌*◌, ◌%◌, ◌^◌, Bool, true, false, List, [], ◌∷◌, ◌==◌, leb, if◌then◌else◌, Option,
  none, some,
}
use lllsi.Packet.{Bytes, dword}
use lllsi.Threads.{ConThread, ThreadManager, create_new_thread}

-- `INVALID_SOCKET`, also what -1 is as a SOCKET of the 64-bit build.
abbrev pub invalid_socket : ℕ
invalid_socket = 2 ^ 64 - 1

-- The answers of `socket`, `connect`, `getaddrinfo`, `bind` and `closesocket` in one call.
pub record Answers : Type 0 where
  pub handle : ℕ
  pub resolved : Bool
  pub bound : Bool
  pub connected : Bool
  pub closed : Bool

-- A socket object with the handles that the process has open and the number of `WSACleanup` calls.
pub record BaseSocket : Type 0 where
  pub sock : ℕ
  pub open_handles : List ℕ
  pub cleanups : ℕ

abbrev pub remove_handle : ℕ → List ℕ → List ℕ
remove_handle h [] = []
remove_handle h (x ∷ xs) = if x == h then xs else x ∷ remove_handle h xs

abbrev pub close_socket : Answers → ℕ → BaseSocket → BaseSocket
close_socket a h s =
    if a.closed then record s { open_handles = remove_handle h s.open_handles } else s

abbrev pub clean_up : BaseSocket → BaseSocket
clean_up s = record s { cleanups = s.cleanups + 1 }

-- `socket`: a valid handle is open.
abbrev pub open_socket : Answers → BaseSocket → BaseSocket
open_socket a s =
    if a.handle == invalid_socket then s else record s { open_handles = a.handle ∷ s.open_handles }

unfoldable pub init_tcp : Answers → BaseSocket → Bool × BaseSocket
init_tcp a s =
    if s.sock == invalid_socket
    then (let opened : BaseSocket = record (open_socket a s) { sock = a.handle } in
        if a.handle == invalid_socket
        then (false, clean_up opened)
        else (if a.connected
            then (true, opened)
            else (false, clean_up (close_socket a a.handle opened))))
    else (false, clean_up (close_socket a s.sock s))

-- Nothing where the program exits.
unfoldable pub init_udp : Answers → BaseSocket → Option BaseSocket
init_udp a s =
    if leb a.handle 1
    then none
    else (if a.handle == invalid_socket
        then none
        else (if a.bound then some (record (open_socket a s) { sock = a.handle }) else none))

-- `ServerSocket::init`.
unfoldable pub init_server : Answers → BaseSocket → Bool × BaseSocket
init_server a s =
    if a.resolved
    then (if leb a.handle 1
        then (false, clean_up (open_socket a s))
        else (if a.handle == invalid_socket
            then (false, clean_up s)
            else (if a.bound
                then (true, record (open_socket a s) { sock = a.handle })
                else (false, clean_up (close_socket a a.handle (open_socket a s))))))
    else (false, clean_up s)

-- `sendData`: the length in bytes is a DWORD, and nothing is sent when it is 0.
unfoldable pub send_data : (send : ℕ → ℕ) → (type_size len : ℕ) → ℕ
send_data send type_size len =
    let msg_len = type_size * len % dword in
    if leb msg_len 0 then dword - 1 else send msg_len % dword

-- `acceptNewConnection`, with the handle and the address that `accept` answered; nothing is
-- `SAP_NULL`.
unfoldable pub accept_new_connection : ℕ → Bytes → Option (ℕ × Bytes)
accept_new_connection client_socket addr =
    if leb client_socket 1 then none else some (client_socket, addr)

-- One round of `acceptFunc`: the new event, and what `CreateThread` answered.
unfoldable pub accept_round :
    (client_socket : ℕ)
    → Bytes
    → (stop_event : ℕ) → (created : Option ℕ) → ThreadManager
    → ThreadManager
unfolding accept_new_connection create_new_thread
accept_round client_socket addr stop_event created m =
    elim (accept_new_connection client_socket addr) [
      | none ↦ m
      | some sap ↦
          (create_new_thread (sap.0 % dword) (record { stop_event = stop_event; thread = none })
            created m).1
    ]
