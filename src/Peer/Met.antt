-- ===== src/Peer/Met.antt =====
-- The peers of RDIBYClient/clienttest.cpp with the server's `endRoom` and its reply by UDP.
use lllsi.Base.Error.{out_of_bounds}
use lllsi.Base.{
  ℕ, err, ◌≡◌, refl, ap, ◌∙◌, true, false, List, [], ◌∷◌, ◌++◌, ◌==◌, replicate, Option, some,
  Result, ok,
}
use lllsi.Packet.{Bytes}
use lllsi.Room.{Sap, ServerRoomMsg, ServerManager}
use lllsi.Room.Server.{leave_msg, bare_msg, end_room}
use lllsi.Room.Introduction.{OpenRoom, end_room_lem}
use lllsi.Sockets.{Answers, BaseSocket, close_socket, init_udp}
use lllsi.Handshake.{Client}
use lllsi.Handshake.Names.{NamesFit}
use lllsi.Peer.{
  Outcome, Heard, reflect, send_all, start_collecting, collect, punch_as_host, punch_as_member,
  test1, test2,
}
use lllsi.Peer.Outcome.{punching}
use lllsi.Peer.Waiting.{punches, sent_off, collect-leave, run_peer_lem}
use lllsi.Peer.Meeting.{messages_to, Apart, addrs_of, room_messages, host_messages, member_messages}

-- The last message, sent to the server's UDP port and back.
abbrev pub udp_reply : Bytes → Option ServerRoomMsg
udp_reply udp_addr = some (reflect udp_addr (bare_msg leave_msg)).1

-- What the peer of a room goes through when `sent` is what the server sends.
abbrev pub heard_by : ℕ → (zeros : ℕ) → (udp_addr : Bytes) → List (ℕ × ServerRoomMsg) → Heard
heard_by sock zeros udp_addr sent = record {
  greeting = replicate zeros 0;
  messages = messages_to sock sent;
  reply = udp_reply udp_addr;
}

-- A peer that has got to its last loop.
abbrev pub met :
    (next : BaseSocket) (first second udp_addr : Bytes) (sent : List (Bytes × ServerRoomMsg))
    → Outcome
met next first second udp_addr sent = punching (record {
  base = next;
  first = first;
  second = second;
  to_server = bare_msg leave_msg;
  udp_addr = udp_addr;
  sent = sent;
})

-- Without a member there is no second address.
abbrev pub host_outcome : BaseSocket → Sap → (udp_addr : Bytes) → List Sap → Result Outcome
host_outcome next host udp_addr [] = err out_of_bounds
host_outcome next host udp_addr (b ∷ bs) = ok (
    met next b.1 host.1 udp_addr
      (send_all (record { msg_type = 1; sock_addr4 = udp_addr }) (host.1 ∷ b.1 ∷ addrs_of bs)))

punch_as_host_lem :
    (on_leave on_udp : Answers) (base next : BaseSocket) (host : Sap) (bs : List Sap)
    (udp_addr : Bytes)
    → init_udp on_udp (close_socket on_leave base.sock base) ≡ some next
    → punch_as_host on_udp (udp_reply udp_addr) (sent_off on_leave (host.1 ∷ addrs_of bs) base)
      ≡ host_outcome next host udp_addr bs
unfolding punch_as_host reflect
punch_as_host_lem on_leave on_udp base next host [] udp_addr opened =
    rw (opened, punch_as_host) refl
punch_as_host_lem on_leave on_udp base next host (b ∷ bs) udp_addr opened =
    rw (opened, punch_as_host) refl

punch_as_member_lem :
    (on_leave on_udp : Answers) (base next : BaseSocket) (host_addr addr udp_addr : Bytes)
    → init_udp on_udp (close_socket on_leave base.sock base) ≡ some next
    → punch_as_member on_udp (udp_reply udp_addr) (sent_off on_leave (host_addr ∷ addr ∷ []) base)
      ≡ ok (met next host_addr addr udp_addr [])
unfolding punch_as_member reflect
punch_as_member_lem on_leave on_udp base next host_addr addr udp_addr opened =
    rw (opened, punch_as_member) refl

collected :
    (on_leave : Answers) (base : BaseSocket) (sock : ℕ) (sent : List (ℕ × ServerRoomMsg))
    (addrs : List Bytes)
    → messages_to sock sent ≡ punches addrs ++ some (bare_msg leave_msg) ∷ []
    → collect on_leave (messages_to sock sent) (start_collecting base)
      ≡ sent_off on_leave addrs base
collected on_leave base sock sent addrs e =
    ap (λ z. collect on_leave z (start_collecting base)) e ∙ collect-leave on_leave addrs base

-- The room's end on the server, with what it sends, and what a peer comes to that hears it.
abbrev pub EndsWith :
    ServerManager
    → (room_id : ℕ) → (List (ℕ × ServerRoomMsg) → Result Outcome)
    → Result Outcome
    → Type 0
EndsWith s room_id peer outcome =
    (t : ServerManager) × (sent : List (ℕ × ServerRoomMsg)) × (end_room room_id true s ≡ ok t)
    × (t.sent ≡ s.sent ++ sent)
    × (peer sent ≡ outcome)

module _ (c : Client) (zeros : ℕ) (udp_addr : Bytes) (on_leave on_udp : Answers)
    (base next : BaseSocket) (fit : NamesFit c)
    (opened : init_udp on_udp (close_socket on_leave base.sock base) ≡ some next) where
  -- The programs on the messages of a start.
  pub test1-room_messages :
      (host : Sap) (bs : List Sap)
      → Apart host.0 bs
      → test1 on_leave on_udp c (heard_by host.0 zeros udp_addr (room_messages host bs)) base
        ≡ host_outcome next host udp_addr bs
  test1-room_messages host bs l =
      let ms = room_messages host bs in
      run_peer_lem punch_as_host on_leave on_udp c zeros (messages_to host.0 ms)
        (udp_reply udp_addr) base (sent_off on_leave (host.1 ∷ addrs_of bs) base) fit
        (collected on_leave base host.0 ms (host.1 ∷ addrs_of bs) (host_messages host bs l))
      ∙ punch_as_host_lem on_leave on_udp base next host bs udp_addr opened

  pub test2-room_messages :
      (host b : Sap) (before after : List Sap)
      → (host.0 == b.0) ≡ false
      → Apart b.0 before
      → Apart b.0 after
      → test2 on_leave on_udp c
          (heard_by b.0 zeros udp_addr (room_messages host (before ++ b ∷ after)))
          base
        ≡ ok (met next host.1 b.1 udp_addr [])
  test2-room_messages host b before after e l k =
      let ms = room_messages host (before ++ b ∷ after) in
      run_peer_lem punch_as_member on_leave on_udp c zeros (messages_to b.0 ms) (udp_reply udp_addr)
        base (sent_off on_leave (host.1 ∷ b.1 ∷ []) base) fit
        (collected on_leave base b.0 ms (host.1 ∷ b.1 ∷ [])
          (member_messages host b before after e l k))
      ∙ punch_as_member_lem on_leave on_udp base next host.1 b.1 udp_addr opened

module _ (s : ServerManager) (room_id p : ℕ) (host : Sap) (c : Client) (zeros : ℕ)
    (udp_addr : Bytes) (on_leave on_udp : Answers) (base next : BaseSocket) (fit : NamesFit c)
    (opened : init_udp on_udp (close_socket on_leave base.sock base) ≡ some next) where
  -- When a room of connected members starts and the host is on another socket than they, the host's
  -- program, let in with names that fit and given its UDP socket, ends its loop over what the server
  -- sends it. Without members it then reads behind its vector; otherwise it has its own address and the
  -- first member's, learns its UDP address by the server's reply, and sends a message with that to its
  -- own address and every member's.
  pub test1-end_room :
      (bs : List Sap)
      → OpenRoom s room_id p host bs
      → Apart host.0 bs
      → EndsWith s room_id
          (λ sent. test1 on_leave on_udp c (heard_by host.0 zeros udp_addr sent) base)
          (host_outcome next host udp_addr bs)
  test1-end_room bs o l =
      let (t, ended, sent, gone) = end_room_lem s room_id p true host bs o in
      (
        t,
        room_messages host bs,
        ended,
        sent,
        test1-room_messages c zeros udp_addr on_leave on_udp base next fit opened host bs l,
      )

  -- When a room of connected members starts, the program of a member that shares its socket with nobody,
  -- let in with names that fit and given its UDP socket, ends its loop over what the server sends it
  -- with the host's address and its own, and learns its UDP address by the server's reply.
  pub test2-end_room :
      (before after : List Sap) (b : Sap)
      → OpenRoom s room_id p host (before ++ b ∷ after)
      → (host.0 == b.0) ≡ false
      → Apart b.0 before
      → Apart b.0 after
      → EndsWith s room_id
          (λ sent. test2 on_leave on_udp c (heard_by b.0 zeros udp_addr sent) base)
          (ok (met next host.1 b.1 udp_addr []))
  test2-end_room before after b o e l k =
      let (t, ended, sent, gone) = end_room_lem s room_id p true host (before ++ b ∷ after) o in
      (
        t,
        room_messages host (before ++ b ∷ after),
        ended,
        sent,
        test2-room_messages c zeros udp_addr on_leave on_udp base next fit opened host b before
            after e l k,
      )
