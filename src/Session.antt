-- ===== src/Session.antt =====
-- A room from its host's arrival to its start: RDIBY/server.cpp `clientHandlerFunc` for every visitor,
-- and the programs of RDIBYClient/clienttest.cpp at the other ends.
pub mod Gathering
pub mod Whole
use lllsi.Base.{
  ℕ, suc, ◌≡◌, Bool, true, false, List, [], ◌∷◌, ◌++◌, ◌==◌, map, replicate, Option, none, some,
  Result, ok, ◌>>=◌, All, All-middle, lookup, arith,
}
use lllsi.Packet.{Bytes}
use lllsi.Room.{Sap, RoomClient, ServerRoom, ServerManager, deref}
use lllsi.Room.Introduction.{Lives, AllLive}
use lllsi.Room.Handler.{enter}
use lllsi.Handshake.{Client, first_server_interaction}

-- Somebody who connects: the handler thread is `suc number`.
pub record Visitor : Type 0 where
  pub number : ℕ
  pub sap : Sap
  pub name : Bytes

abbrev pub handler : Visitor → ℕ
handler v = suc v.number

abbrev pub sock_of : Visitor → ℕ
sock_of v = v.sap.0

abbrev pub saps : List Visitor → List Sap
saps vs = map (λ (v : Visitor). v.sap) vs

abbrev pub handlers : List Visitor → List ℕ
handlers vs = map (λ (v : Visitor). suc v.number) vs

-- No two have the same number.
abbrev pub Distinct : (Visitor → ℕ) → List Visitor → Type 0
Distinct f [] = Unit
Distinct f (v ∷ vs) = All (λ (w : Visitor). (f w == f v) ≡ false) vs × Distinct f vs

-- One in a row of distinct visitors is apart from those before and behind.
pub Distinct-append :
    (f : Visitor → ℕ) (before : List Visitor) (v : Visitor) (after : List Visitor)
    → Distinct f (before ++ v ∷ after)
    → All (λ (w : Visitor). (f w == f v) ≡ false) before
      × All (λ (w : Visitor). (f w == f v) ≡ false) after
Distinct-append f [] v after d = (tt, d.0)
Distinct-append f (w ∷ before) v after (e, d) =
    let (front, back) = Distinct-append f before v after d in
    let apart : (f v == f w) ≡ false =
      All-middle (λ (x : Visitor). (f x == f w) ≡ false) before v after e in
    ((ground (arith, apart), front), back)

-- A room with its host and members, everyone's thread alive.
pub record Gathered (t : ServerManager) (room_id pass : ℕ) (host : Visitor) (vs : List Visitor)
    : Type 0 where
  pub mapped : lookup room_id t.room_map ≡ some (handler host)
  pub kept :
      deref (handler host) t.rooms
      ≡ ok (record {
        room_vector = handlers vs;
        host = handler host;
        room_id = room_id;
        room_password = pass;
      })
  pub host_client : RoomClient
  pub host_found : deref (handler host) t.clients ≡ ok host_client
  pub host_sap : host_client.sap ≡ host.sap
  pub hosts : host_client.is_host ≡ true
  pub members_live : AllLive t.clients (handlers vs) (saps vs)

module _ (hasher : Bytes → ℕ) (zeros : ℕ) (room_name room_password : Bytes) where
  abbrev pub client_of : Bool → Visitor → Client
  client_of is_host v = record {
    name = v.name;
    room_name = room_name;
    room_password = room_password;
    is_host = is_host;
  }

  -- The handshake of one visitor on both sides, up to the server's loop.
  abbrev pub come : Bool → Visitor → ServerManager → Result (Option ℕ × ServerManager)
  come is_host v s = elim (first_server_interaction (replicate zeros 0) (client_of is_host v)) [
    | none ↦ ok (none, s)
    | some sent ↦ enter hasher (handler v) v.sap sent s
  ]

  -- Members that come one after another.
  abbrev pub come_all : List Visitor → ServerManager → Result ServerManager
  come_all [] s = ok s
  come_all (v ∷ vs) s = come false v s >>= λ r. come_all vs r.1
