-- ===== src/Peer.antt =====
-- The two ends of a room, RDIBYClient/clienttest.cpp `test1` for the host and `test2` for a member, and
-- the UDP part of RDIBY/servertest1.cpp `test1`, which tells a peer its address.
-- A received message is there whole; nothing stands for a `recv` that fails or finds the connection
-- closed, which leaves the buffer as it was. Left out: that `getsockname` or the first send may fail,
-- and the START_PUNCH that the host sends before its loop.
pub mod Meeting
pub mod Waiting
pub mod Met
use lllsi.Base.{
  ℕ, Bool, true, false, List, [], ◌∷◌, ◌++◌, ◌==◌, get_elem?, map, Option, none, some, Result, ok,
  ◌>>=◌, or_fail, if◌then◌else◌,
}
use lllsi.Base.Error.{out_of_bounds}
use lllsi.Packet.{Bytes}
use lllsi.Room.{ServerRoomMsg}
use lllsi.Room.Server.{leave_msg, start_punch_msg, bare_msg}
use lllsi.Sockets.{Answers, BaseSocket, close_socket, init_udp}
use lllsi.Handshake.{Client, first_server_interaction}

-- The variables of the loop, and the socket.
pub record Collecting : Type 0 where
  pub msg_buffer : ServerRoomMsg
  pub client_addr_vec : List Bytes
  pub on : Bool
  pub base : BaseSocket

abbrev pub start_collecting : BaseSocket → Collecting
start_collecting base = record {
  msg_buffer = bare_msg 0;
  client_addr_vec = [];
  on = true;
  base = base;
}

-- What is in the buffer then.
abbrev pub received_in : ServerRoomMsg → Option ServerRoomMsg → ServerRoomMsg
received_in msg_buffer none = msg_buffer
received_in msg_buffer (some msg) = msg

unfoldable pub collect_round : Answers → Option ServerRoomMsg → Collecting → Collecting
collect_round a received s =
    let msg = received_in s.msg_buffer received in
    let left = msg.msg_type == leave_msg in
    record {
      msg_buffer = msg;
      client_addr_vec =
          if msg.msg_type == start_punch_msg
          then s.client_addr_vec ++ msg.sock_addr4 ∷ []
          else s.client_addr_vec;
      on = if left then false else s.on;
      base = if left then close_socket a s.base.sock s.base else s.base;
    }

-- The loop; it waits for more when the list is used up.
unfoldable pub collect : Answers → List (Option ServerRoomMsg) → Collecting → Collecting
unfolding collect_round
collect a [] s = s
collect a (received ∷ more) s =
    let next = collect_round a received s in if next.on then collect a more next else next

-- `recvfrom`, `memcpy_s` and `sendto` of the server: to whom, and what.
unfoldable pub reflect : (sender : Bytes) → ServerRoomMsg → Bytes × ServerRoomMsg
reflect sender msg = (sender, record msg { sock_addr4 = sender })

-- What a peer has printed and sent when it comes to its last loop. `sent` is one round of the host's.
pub record Punching : Type 0 where
  pub base : BaseSocket
  pub first : Bytes
  pub second : Bytes
  pub to_server : ServerRoomMsg
  pub udp_addr : Bytes
  pub sent : List (Bytes × ServerRoomMsg)

pub data Outcome : Type 0 where
  invalid_parameters exited : Outcome
  waiting : Collecting → Outcome
  punching : Punching → Outcome

-- `clientAddrVec[i]`.
abbrev pub addr_at : ℕ → List Bytes → Result Bytes
addr_at i client_addr_vec = or_fail (get_elem? client_addr_vec i) out_of_bounds

abbrev pub send_all : ServerRoomMsg → List Bytes → List (Bytes × ServerRoomMsg)
send_all msg addrs = map (λ (addr : Bytes). (addr, msg)) addrs

-- `test1` behind the loop.
unfoldable pub punch_as_host : Answers → Option ServerRoomMsg → Collecting → Result Outcome
unfolding init_udp
punch_as_host a reply s = elim (init_udp a s.base) [
  | none ↦ ok exited
  | some base ↦
      (addr_at 1 s.client_addr_vec >>= λ first.
      (addr_at 0 s.client_addr_vec >>= λ second.
      (let msg = received_in s.msg_buffer reply in
        ok (
          punching (record {
            base = base;
            first = first;
            second = second;
            to_server = s.msg_buffer;
            udp_addr = msg.sock_addr4;
            sent = send_all (record msg { msg_type = 1 }) s.client_addr_vec;
          })))))
]

-- `test2` behind the loop: it only listens.
unfoldable pub punch_as_member : Answers → Option ServerRoomMsg → Collecting → Result Outcome
unfolding init_udp
punch_as_member a reply s = elim (init_udp a s.base) [
  | none ↦ ok exited
  | some base ↦
      (addr_at 0 s.client_addr_vec >>= λ first.
      (addr_at 1 s.client_addr_vec >>= λ second. ok (
        punching (record {
          base = base;
          first = first;
          second = second;
          to_server = s.msg_buffer;
          udp_addr = (received_in s.msg_buffer reply).sock_addr4;
          sent = [];
        }))))
]

-- What a peer does with the room's messages, and the reply to its datagram.
pub record Heard : Type 0 where
  pub greeting : Bytes
  pub messages : List (Option ServerRoomMsg)
  pub reply : Option ServerRoomMsg

-- `on_leave` are the answers when the socket is closed, `on_udp` those for the next.
unfoldable pub run_peer :
    (punch : Answers → Option ServerRoomMsg → Collecting → Result Outcome)
    (on_leave on_udp : Answers)
    → Client
    → Heard
    → BaseSocket
    → Result Outcome
unfolding collect
run_peer punch on_leave on_udp c heard base = elim (first_server_interaction heard.greeting c) [
  | none ↦ ok invalid_parameters
  | some sent ↦
      (let s = collect on_leave heard.messages (start_collecting base) in
        if s.on then ok (waiting s) else punch on_udp heard.reply s)
]

abbrev pub test1 : (on_leave on_udp : Answers) → Client → Heard → BaseSocket → Result Outcome
test1 on_leave on_udp c heard base = run_peer punch_as_host on_leave on_udp c heard base

abbrev pub test2 : (on_leave on_udp : Answers) → Client → Heard → BaseSocket → Result Outcome
test2 on_leave on_udp c heard base = run_peer punch_as_member on_leave on_udp c heard base
