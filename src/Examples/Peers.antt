-- ===== src/Examples/Peers.antt =====
-- The peers of the room in Examples/Rooms.
use lllsi.Base.{ℕ, ◌≡◌, refl, true, [], ◌∷◌, ◌++◌, replicate, some, none, ok, arith}
use lllsi.Packet.{Bytes}
use lllsi.Room.Server.{punch_msg}
use lllsi.Sockets.{Answers, BaseSocket, close_socket, init_udp}
use lllsi.Handshake.Names.{NamesFit}
use lllsi.Peer.{punch_as_host, run_peer, test1, test2}
use lllsi.Peer.Outcome.{waiting}
use lllsi.Peer.Waiting.{told, punches, run_peer-none}
use lllsi.Peer.Met.{EndsWith, heard_by, host_outcome, met, test1-end_room, test2-end_room}
use lllsi.Examples.Rooms.{busy_server, busy_room, host_sap, guest_sap}
use lllsi.Examples.Greetings.{visitor}

abbrev pub answers : Answers
answers = record { handle = 7; resolved = true; bound = true; connected = true; closed = true }

abbrev pub connected_socket : BaseSocket
connected_socket = record { sock = 5; open_handles = 5 ∷ []; cleanups = 0 }

abbrev pub udp_socket : BaseSocket
udp_socket = record { sock = 7; open_handles = 7 ∷ []; cleanups = 0 }

abbrev pub udp_addr : Bytes
udp_addr = replicate 16 (let z : ℕ = 9 in z)

pub opened : init_udp answers (close_socket answers 5 connected_socket) ≡ some udp_socket
unfolding init_udp
opened = refl

visitor-NamesFit : NamesFit visitor
visitor-NamesFit = (omega arith, omega arith, omega arith)

test1-end_room_example :
    EndsWith busy_server 5
      (λ sent. test1 answers answers visitor (heard_by 100 52 udp_addr sent) connected_socket)
      (host_outcome udp_socket host_sap udp_addr (guest_sap ∷ []))
test1-end_room_example =
    test1-end_room busy_server 5 1 host_sap visitor 52 udp_addr answers answers connected_socket
      udp_socket visitor-NamesFit opened (guest_sap ∷ []) busy_room (refl, tt)

test2-end_room_example :
    EndsWith busy_server 5
      (λ sent. test2 answers answers visitor (heard_by 200 52 udp_addr sent) connected_socket)
      (ok (met udp_socket host_sap.1 guest_sap.1 udp_addr []))
test2-end_room_example =
    test2-end_room busy_server 5 1 host_sap visitor 52 udp_addr answers answers connected_socket
      udp_socket visitor-NamesFit opened [] [] guest_sap busy_room refl tt tt

run_peer-none_example :
    run_peer punch_as_host answers answers visitor
      (record {
        greeting = replicate 52 0;
        messages = punches (host_sap.1 ∷ []) ++ some (punch_msg guest_sap.1) ∷ replicate 3 none;
        reply = none;
      })
      connected_socket
    ≡ ok (
        waiting (
          told
            (punch_msg guest_sap.1)
            ((host_sap.1 ∷ []) ++ replicate 4 guest_sap.1)
            connected_socket))
run_peer-none_example =
    run_peer-none punch_as_host answers answers visitor 52 3 (host_sap.1 ∷ []) guest_sap.1 none
      connected_socket visitor-NamesFit
