-- ===== src/Peer/Waiting.antt =====
-- The loops of RDIBYClient/clienttest.cpp while the room's messages come, and when no more come.
use lllsi.Base.{
  ℕ, zero, suc, ◌≡◌, sym, ap, ◌∙◌, true, false, List, [], ◌∷◌, ◌++◌, append_assoc, append-nil,
  replicate, Option, none, some, map, Result, ok, if◌then◌else◌,
}
use lllsi.Packet.{Bytes}
use lllsi.Room.{ServerRoomMsg}
use lllsi.Room.Server.{leave_msg, bare_msg, punch_msg}
use lllsi.Sockets.{Answers, BaseSocket, close_socket}
use lllsi.Handshake.{Client}
use lllsi.Handshake.Names.{NamesFit, first_server_interaction_lem}
use lllsi.Peer.{Collecting, start_collecting, collect_round, collect, Outcome, run_peer}
use lllsi.Peer.Outcome.{waiting}

-- In the loop, with these addresses so far.
abbrev pub told : ServerRoomMsg → List Bytes → BaseSocket → Collecting
told msg addrs base = record { msg_buffer = msg; client_addr_vec = addrs; on = true; base = base }

abbrev pub punches : List Bytes → List (Option ServerRoomMsg)
punches addrs = map (λ (addr : Bytes). some (punch_msg addr)) addrs

abbrev pub last_msg : ServerRoomMsg → List Bytes → ServerRoomMsg
last_msg msg [] = msg
last_msg msg (addr ∷ addrs) = last_msg (punch_msg addr) addrs

pub collect-punches :
    (a : Answers) (addrs xs : List Bytes) (msg : ServerRoomMsg) (rest : List (Option ServerRoomMsg))
    (base : BaseSocket)
    → collect a (punches addrs ++ rest) (told msg xs base)
      ≡ collect a rest (told (last_msg msg addrs) (xs ++ addrs) base)
unfolding collect collect_round
collect-punches a [] xs msg rest base =
    ap (λ (z : List Bytes). collect a rest (told msg z base)) (sym (append-nil xs))
collect-punches a (addr ∷ addrs) xs msg rest base =
    collect-punches a addrs (xs ++ addr ∷ []) (punch_msg addr) rest base
    ∙ ap (λ (z : List Bytes). collect a rest (told (last_msg (punch_msg addr) addrs) z base))
        (append_assoc xs (addr ∷ []) addrs)

-- The loop when the peer is told to leave.
abbrev pub sent_off : Answers → List Bytes → BaseSocket → Collecting
sent_off a addrs base = record {
  msg_buffer = bare_msg leave_msg;
  client_addr_vec = addrs;
  on = false;
  base = close_socket a base.sock base;
}

-- Every address and then the word to leave.
pub collect-leave :
    (a : Answers) (addrs : List Bytes) (base : BaseSocket)
    → collect a (punches addrs ++ some (bare_msg leave_msg) ∷ []) (start_collecting base)
      ≡ sent_off a addrs base
unfolding collect collect_round
collect-leave a addrs base =
    collect-punches a addrs [] (bare_msg 0) (some (bare_msg leave_msg) ∷ []) base

collect-none :
    (a : Answers) (addr : Bytes) (n : ℕ) (xs : List Bytes) (base : BaseSocket)
    → collect a (replicate n none) (told (punch_msg addr) xs base)
      ≡ told (punch_msg addr) (xs ++ replicate n addr) base
unfolding collect collect_round
collect-none a addr zero xs base =
    ap (λ (z : List Bytes). told (punch_msg addr) z base) (sym (append-nil xs))
collect-none a addr (suc n) xs base =
    collect-none a addr n (xs ++ addr ∷ []) base
    ∙ ap (λ (z : List Bytes). told (punch_msg addr) z base)
        (append_assoc xs (addr ∷ []) (replicate n addr))

collect-none_behind :
    (a : Answers) (addr : Bytes) (n : ℕ) (xs : List Bytes) (msg : ServerRoomMsg) (base : BaseSocket)
    → collect a (some (punch_msg addr) ∷ replicate n none) (told msg xs base)
      ≡ told (punch_msg addr) (xs ++ replicate (suc n) addr) base
unfolding collect collect_round
collect-none_behind a addr n xs msg base =
    collect-none a addr n (xs ++ addr ∷ []) base
    ∙ ap (λ (z : List Bytes). told (punch_msg addr) z base)
        (append_assoc xs (addr ∷ []) (replicate n addr))

-- A peer that is let in comes to the loop.
pub run_peer_lem :
    (punch : Answers → Option ServerRoomMsg → Collecting → Result Outcome)
    (on_leave on_udp : Answers) (c : Client) (zeros : ℕ) (messages : List (Option ServerRoomMsg))
    (reply : Option ServerRoomMsg) (base : BaseSocket) (s : Collecting)
    → NamesFit c
    → collect on_leave messages (start_collecting base) ≡ s
    → run_peer punch on_leave on_udp c
        (record { greeting = replicate zeros 0; messages = messages; reply = reply })
        base
      ≡ (if s.on then ok (waiting s) else punch on_udp reply s)
unfolding run_peer
run_peer_lem punch on_leave on_udp c zeros messages reply base s fit collected =
    rw (first_server_interaction_lem zeros c fit, run_peer)
      (ap (λ (z : Collecting). if z.on then ok (waiting z) else punch on_udp reply z) collected)

-- If the connection is lost before the word to leave, a peer goes on for ever: after any number of
-- failed calls of `recv` it waits with the last address stored once more for each of them.
pub run_peer-none :
    (punch : Answers → Option ServerRoomMsg → Collecting → Result Outcome)
    (on_leave on_udp : Answers) (c : Client) (zeros n : ℕ) (addrs : List Bytes) (addr : Bytes)
    (reply : Option ServerRoomMsg) (base : BaseSocket)
    → NamesFit c
    → run_peer punch on_leave on_udp c
        (record {
          greeting = replicate zeros 0;
          messages = punches addrs ++ some (punch_msg addr) ∷ replicate n none;
          reply = reply;
        })
        base
      ≡ ok (waiting (told (punch_msg addr) (addrs ++ replicate (suc n) addr) base))
run_peer-none punch on_leave on_udp c zeros n addrs addr reply base fit =
    run_peer_lem punch on_leave on_udp c zeros
      (punches addrs ++ some (punch_msg addr) ∷ replicate n none) reply base
      (told (punch_msg addr) (addrs ++ replicate (suc n) addr) base) fit
      (collect-punches on_leave addrs [] (bare_msg 0) (some (punch_msg addr) ∷ replicate n none)
          base
        ∙ collect-none_behind on_leave addr n addrs (last_msg (bare_msg 0) addrs) base)
