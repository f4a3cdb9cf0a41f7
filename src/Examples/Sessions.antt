-- ===== src/Examples/Sessions.antt =====
-- A host and two members in the room "den".
use lllsi.Base.{ℕ, suc, ◌≡◌, refl, true, false, Bool, [], ◌∷◌, arith, none, lookup}
use lllsi.Packet.{Bytes}
use lllsi.Room.{Sap, ServerManager}
use lllsi.Handshake.Greeting.{NamesEnd}
use lllsi.Session.{Visitor, client_of}
use lllsi.Session.Whole.{Program, Met, hold_room_lem}
use lllsi.Examples.Rooms.{host_sap, guest_sap, late_sap}
use lllsi.Examples.Greetings.{by_length}
use lllsi.Examples.Peers.{answers, connected_socket, udp_socket, udp_addr, opened}

abbrev idle_server : ServerManager
idle_server = record {
  room_map = [];
  rooms = [];
  clients = [];
  threads = record { thread_map = []; signalled = [] };
  sent = [];
  closed = [];
}

abbrev den : Bytes
den = 100 ∷ 101 ∷ 110 ∷ []

abbrev pw : Bytes
pw = 112 ∷ 119 ∷ []

abbrev dan : Visitor
dan = record { number = 0; sap = host_sap; name = 100 ∷ 97 ∷ 110 ∷ [] }

abbrev eve : Visitor
eve = record { number = 1; sap = guest_sap; name = 101 ∷ 118 ∷ 101 ∷ [] }

abbrev kim : Visitor
kim = record { number = 2; sap = late_sap; name = 107 ∷ 105 ∷ 109 ∷ [] }

abbrev program : Program
program = record {
  on_leave = answers;
  on_udp = answers;
  base = connected_socket;
  next = udp_socket;
  udp_addr = udp_addr;
}

abbrev Named : Bool → Visitor → Type 0
Named is_host v = NamesEnd (client_of by_length 52 den pw is_host v)

-- With a name of three letters.
short-Named :
    (is_host : Bool) (number a b c : ℕ) (sap : Sap)
    → Named is_host (record { number = number; sap = sap; name = suc a ∷ suc b ∷ suc c ∷ [] })
short-Named is_host number a b c sap = (
  omega arith,
  omega arith,
  omega arith,
  (omega arith, (omega arith, (omega arith, tt))),
  (omega arith, (omega arith, (omega arith, tt))),
  (omega arith, (omega arith, tt)),
)

no_room : lookup (by_length den) idle_server.room_map ≡ none
unfolding lookup
no_room = refl

hold_room_lem_example :
    Met by_length 52 den pw idle_server 24 dan program (eve ∷ kim ∷ []) kim program
hold_room_lem_example =
    hold_room_lem by_length 52 den pw idle_server 24 dan kim (eve ∷ []) [] program program no_room
      (short-Named true 0 99 96 109 host_sap)
      (short-Named false 1 100 117 100 guest_sap, (short-Named false 2 106 104 108 late_sap, tt))
      ((refl, (refl, tt)), ((refl, tt), (tt, tt))) ((refl, (refl, tt)), ((refl, tt), (tt, tt))) refl
      opened opened
