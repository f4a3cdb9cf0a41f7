-- ===== src/Session/Whole.antt =====
-- A whole room: RDIBY/server.cpp `clientHandlerFunc` with the programs of RDIBYClient/clienttest.cpp.
use lllsi.Base.{
  ℕ, ◌≡◌, refl, sym, ap, ◌∙◌, Bool, true, false, List, [], ◌∷◌, ◌++◌, ◌==◌, none, some, Result, ok,
  ◌>>=◌, bind_eq, All, All-middle, lookup, subst,
}
use lllsi.Packet.{Bytes}
use lllsi.Room.{Sap, ServerRoomMsg, ServerManager}
use lllsi.Room.Server.{start_punch_msg, bare_msg, end_room}
use lllsi.Room.Introduction.{OpenRoom, end_room_lem}
use lllsi.Room.Handler.{handle_message}
use lllsi.Sockets.{Answers, BaseSocket, close_socket, init_udp}
use lllsi.Handshake.Greeting.{NamesEnd, NamesEnd-NamesFit}
use lllsi.Peer.{test1, test2}
use lllsi.Peer.Meeting.{Apart, room_messages}
use lllsi.Peer.Met.{met, heard_by, host_outcome, test1-room_messages, test2-room_messages}
use lllsi.Session.{
  Visitor, handler, sock_of, saps, handlers, Distinct, Distinct-append, Gathered, client_of, come,
  come_all,
}
use lllsi.Session.Gathering.{come_host, come_members}

-- The program at a visitor's end: what WinSock answers, its sockets, and its address on UDP.
pub record Program : Type 0 where
  pub on_leave : Answers
  pub on_udp : Answers
  pub base : BaseSocket
  pub next : BaseSocket
  pub udp_addr : Bytes

-- It gets its UDP socket.
abbrev pub GetsUdp : Program → Type 0
GetsUdp q = init_udp q.on_udp (close_socket q.on_leave q.base.sock q.base) ≡ some q.next

Gathered-OpenRoom :
    (t : ServerManager) (room_id pass : ℕ) (host : Visitor) (vs : List Visitor)
    → Gathered t room_id pass host vs
    → OpenRoom t room_id (handler host) host.sap (saps vs)
Gathered-OpenRoom t room_id pass host vs g = record {
  room = record {
    room_vector = handlers vs;
    host = handler host;
    room_id = room_id;
    room_password = pass;
  };
  mapped = g.mapped;
  kept = g.kept;
  host_lives = (g.host_client, g.host_found, g.host_sap);
  members_live = g.members_live;
}

-- The host's start in its loop.
start_lem :
    (t u : ServerManager) (room_id pass recv_res : ℕ) (host : Visitor) (vs : List Visitor)
    → Gathered t room_id pass host vs
    → (recv_res == 0) ≡ false
    → end_room room_id true t ≡ ok u
    → handle_message (handler host) room_id recv_res (bare_msg start_punch_msg) t ≡ ok (true, u)
unfolding handle_message
start_lem t u room_id pass recv_res host vs g received ended =
    bind_eq _ g.host_found (rw (received, g.hosts) (bind_eq _ ended refl))

saps-append :
    (before : List Visitor) (v : Visitor) (after : List Visitor)
    → saps (before ++ v ∷ after) ≡ saps before ++ v.sap ∷ saps after
saps-append [] v after = refl
saps-append (w ∷ before) v after = ap (◌∷◌ w.sap) (saps-append before v after)

Apart-saps :
    (sock : ℕ) (vs : List Visitor)
    → All (λ (w : Visitor). (sock_of w == sock) ≡ false) vs
    → Apart sock (saps vs)
Apart-saps sock [] l = tt
Apart-saps sock (w ∷ vs) (e, l) = (e, Apart-saps sock vs l)

module _ (hasher : Bytes → ℕ) (zeros : ℕ) (room_name room_password : Bytes) where
  -- The host comes, the members come, and the host starts.
  abbrev pub hold_room :
      (recv_res : ℕ) → Visitor → List Visitor → ServerManager → Result (Bool × ServerManager)
  hold_room recv_res host vs s = come hasher zeros room_name room_password true host s >>= λ r.
      (come_all hasher zeros room_name room_password vs r.1 >>= λ t.
      handle_message (handler host) (hasher room_name) recv_res (bare_msg start_punch_msg) t)

  -- The room is held and gone, and the programs of the host and of a member `v` have met.
  abbrev pub Met :
      ServerManager → (recv_res : ℕ) → Visitor → Program → List Visitor → Visitor → Program → Type 0
  Met s recv_res host host_program vs v program =
      (u : ServerManager) × (sent : List (ℕ × ServerRoomMsg)) × (hold_room recv_res host vs s
        ≡ ok (true, u))
      × (u.sent ≡ s.sent ++ sent)
      × (lookup (hasher room_name) u.room_map ≡ none)
      × (test1 host_program.on_leave host_program.on_udp
            (client_of hasher zeros room_name room_password true host)
            (heard_by (sock_of host) zeros host_program.udp_addr sent) host_program.base
          ≡ host_outcome host_program.next host.sap host_program.udp_addr (saps vs))
      × (test2 program.on_leave program.on_udp
            (client_of hasher zeros room_name room_password false v)
            (heard_by (sock_of v) zeros program.udp_addr sent) program.base
          ≡ ok (met program.next host.sap.1 v.sap.1 program.udp_addr []))

  -- On a server without a room whose name has that hash, a host and members, one of them `v`,
  -- come one after another, all with the room's name and password and on distinct threads and
  -- sockets, where their names, the room's and the password are texts of fewer than 16
  -- characters; and then a start message of the host is received. The server then ends the room
  -- without an error. On what it has sent, given its UDP socket, the host's program collects
  -- everyone's address and punches to all, and the program of `v`, given its own, collects the
  -- host's address and its own.
  pub hold_room_lem :
      (s : ServerManager) (recv_res : ℕ) (host v : Visitor) (before after : List Visitor)
      (host_program program : Program)
      → lookup (hasher room_name) s.room_map ≡ none
      → NamesEnd (client_of hasher zeros room_name room_password true host)
      → All
          (λ (w : Visitor). NamesEnd (client_of hasher zeros room_name room_password false w))
          (before ++ v ∷ after)
      → Distinct (λ (w : Visitor). w.number) (host ∷ before ++ v ∷ after)
      → Distinct sock_of (host ∷ before ++ v ∷ after)
      → (recv_res == 0) ≡ false
      → GetsUdp host_program
      → GetsUdp program
      → Met s recv_res host host_program (before ++ v ∷ after) v program
  hold_room_lem s recv_res host v before after p q fresh host_names names numbers socks received
        host_udp udp =
      let vs = before ++ v ∷ after in
      let room_id = hasher room_name in
      let c = client_of hasher zeros room_name room_password true host in
      let d = client_of hasher zeros room_name room_password false v in
      let own_names =
        All-middle
          (λ (w : Visitor). NamesEnd (client_of hasher zeros room_name room_password false w))
          before v after names in
      let (t0, opened, g0, sent0) =
        come_host hasher zeros room_name room_password host s host_names fresh in
      let (t, joined, g, sent1) =
        come_members hasher zeros room_name room_password host [] vs t0 names numbers g0 in
      let (u, ended, sent2, gone) =
        end_room_lem t room_id (handler host) true host.sap (saps vs)
          (Gathered-OpenRoom t room_id (hasher room_password) host vs g) in
      let ((other, front), back) = Distinct-append sock_of (host ∷ before) v after socks in
      (
        u,
        room_messages host.sap (saps vs),
        bind_eq _ opened (
            bind_eq _ joined
              (start_lem t u room_id (hasher room_password) recv_res host vs g received ended)),
        sent2 ∙ ap (λ z. z ++ room_messages host.sap (saps vs)) (sent1 ∙ sent0),
        gone,
        test1-room_messages c zeros p.udp_addr p.on_leave p.on_udp p.base p.next
            (NamesEnd-NamesFit c host_names) host_udp host.sap (saps vs)
            (Apart-saps (sock_of host) vs socks.0),
        subst
            (λ (bs : List Sap).
              test2 q.on_leave q.on_udp d
                (heard_by (sock_of v) zeros q.udp_addr (room_messages host.sap bs)) q.base
              ≡ ok (met q.next host.sap.1 v.sap.1 q.udp_addr []))
            (sym (saps-append before v after))
            (test2-room_messages d zeros q.udp_addr q.on_leave q.on_udp q.base q.next
              (NamesEnd-NamesFit d own_names) udp host.sap v.sap (saps before) (saps after) other
              (Apart-saps (sock_of v) before front) (Apart-saps (sock_of v) after back)),
      )
