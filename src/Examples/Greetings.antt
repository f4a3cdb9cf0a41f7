-- ===== src/Examples/Greetings.antt =====
-- A client that says who it is.
use lllsi.Base.{
  ℕ, zero, suc, ◌≡◌, refl, true, false, [], ◌∷◌, replicate, length, some, ok, ◌++◌, arith,
}
use lllsi.Packet.{Bytes}
use lllsi.Room.Server.{room_name_of, first_client_interaction}
use lllsi.Handshake.{Client, first_server_interaction}
use lllsi.Handshake.Fields.{Text}
use lllsi.Handshake.Greeting.{
  NamesEnd, Understood, enter-first_server_interaction, room_name_of-first_server_interaction,
}
use lllsi.Examples.Rooms.{busy_server, late_sap}

-- "dan" in room "den" with the password "pw".
abbrev pub visitor : Client
visitor = record {
  name = 100 ∷ 97 ∷ 110 ∷ [];
  room_name = 100 ∷ 101 ∷ 110 ∷ [];
  room_password = 112 ∷ 119 ∷ [];
  is_host = true;
}

-- Not the hash of the source: the length will do here.
abbrev pub by_length : Bytes → ℕ
by_length name = length name

Text-letters : (n c : ℕ) → Text (replicate n (suc c))
Text-letters zero c = tt
Text-letters (suc n) c = (omega arith, Text-letters n c)

visitor-NamesEnd : NamesEnd visitor
visitor-NamesEnd = (
  omega arith,
  omega arith,
  omega arith,
  (omega arith, (omega arith, (omega arith, tt))),
  (omega arith, (omega arith, (omega arith, tt))),
  (omega arith, (omega arith, tt)),
)

enter-first_server_interaction_example : Understood by_length 52 visitor 3 late_sap busy_server
enter-first_server_interaction_example =
    enter-first_server_interaction by_length 52 visitor 3 late_sap busy_server visitor-NamesEnd

abbrev crowded : Client
crowded = record {
  name = 100 ∷ [];
  room_name = replicate 16 (let z : ℕ = 97 in z);
  room_password = [];
  is_host = false;
}

room_name_of-first_server_interaction_example :
    (sent : Bytes) × (first_server_interaction (replicate 52 0) crowded ≡ some sent)
    × (room_name_of (first_client_interaction sent) ≡ ok (crowded.room_name ++ crowded.name))
room_name_of-first_server_interaction_example =
    room_name_of-first_server_interaction 52 crowded (omega arith, omega arith, omega arith) refl
      (omega arith) (Text-letters 16 96) (omega arith, tt)
