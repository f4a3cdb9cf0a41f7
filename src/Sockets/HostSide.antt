-- ===== src/Sockets/HostSide.antt =====
-- The host's sockets and the calls on open sockets: RDIBY/host.cpp HostSocket and EncryptedHostSocket,
-- and `recvData` of RDIBY/client.cpp. What WinSock answers is an
-- argument.
use lllsi.Base.{
  ℕ, ◌-◌, ◌%◌, ◌≡◌, refl, sym, ap, ◌∙◌, Bool, true, false, List, ◌==◌, ==_iff, not, leb,
  if◌then◌else◌, Option, none, some, take, length, overwrite, Bool-cases, inl, inr,
}
use lllsi.Packet.{Bytes, dword}
use lllsi.Sockets.{
  invalid_socket, Answers, BaseSocket, close_socket, clean_up, open_socket, init_tcp,
}

-- The constructor sets nothing: `sock` is what was in that memory.
unfoldable pub new_host_socket : (garbage : ℕ) → List ℕ → BaseSocket
new_host_socket garbage open_handles = record {
  sock = garbage;
  open_handles = open_handles;
  cleanups = 0;
}

-- `HostSocket::initTCP`, in the source's order of tests.
unfoldable pub host_init_tcp : Answers → BaseSocket → Bool × BaseSocket
host_init_tcp a s =
    if not (s.sock == invalid_socket)
    then (false, clean_up (close_socket a s.sock s))
    else (let opened : BaseSocket = record (open_socket a s) { sock = a.handle } in
        if a.handle == invalid_socket
        then (false, clean_up opened)
        else (if a.connected
            then (true, opened)
            else (false, clean_up (close_socket a a.handle opened))))

-- `HostSocket::initUDP`: nothing where the program exits. The socket that it asks for is one for TCP.
unfoldable pub host_init_udp : Answers → BaseSocket → Option BaseSocket
host_init_udp a s =
    if not a.resolved
    then none
    else (if leb a.handle 1
        then none
        else (if a.handle == invalid_socket
            then none
            else (if a.bound then some (record (open_socket a s) { sock = a.handle }) else none)))

-- `recvData`: at most `dw_buffer_len` bytes come into the buffer; the answer is a DWORD, so that an
-- error's -1 is 2 ^ 32 - 1.
unfoldable pub recv_data : Option Bytes → (dw_buffer_len : ℕ) → Bytes → ℕ × Bytes
recv_data none dw_buffer_len buffer = (dword - 1, buffer)
recv_data (some received) dw_buffer_len buffer =
    let came = take dw_buffer_len received in (length came % dword, overwrite buffer 0 came)

host_as_client :
    (a : Answers) (garbage : ℕ) (open_handles : List ℕ)
    → (garbage == invalid_socket) ≡ true
    → host_init_tcp a (new_host_socket garbage open_handles)
      ≡ init_tcp a (record { sock = invalid_socket; open_handles = open_handles; cleanups = 0 })
unfolding host_init_tcp new_host_socket init_tcp
host_as_client a garbage open_handles same =
    ap (λ (g : ℕ). host_init_tcp a (new_host_socket g open_handles))
      ((==_iff garbage invalid_socket).0 same)

-- A host's socket is opened like a client's, if it holds -1. But a new one holds anything: unless that is
-- -1, `initTCP` fails at once and closes whatever has that handle.
pub host_init_tcp_lem :
    (a : Answers) (garbage : ℕ) (open_handles : List ℕ)
    → host_init_tcp a (new_host_socket garbage open_handles) ≡ (
        if garbage == invalid_socket
        then init_tcp a
            (record { sock = invalid_socket; open_handles = open_handles; cleanups = 0 })
        else (false, clean_up (close_socket a garbage (new_host_socket garbage open_handles))))
unfolding host_init_tcp new_host_socket
host_init_tcp_lem a garbage open_handles =
    let as_client =
      init_tcp a (record { sock = invalid_socket; open_handles = open_handles; cleanups = 0 }) in
    let closed : Bool × BaseSocket =
      (false, clean_up (close_socket a garbage (new_host_socket garbage open_handles))) in
    elim (Bool-cases (garbage == invalid_socket)) [
      | inl same ↦
          host_as_client a garbage open_handles same
          ∙ ap (λ (b : Bool). if b then as_client else closed) (sym same)
      | inr other ↦ rw other refl
    ]
