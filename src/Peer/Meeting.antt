-- ===== src/Peer/Meeting.antt =====
-- The messages of RDIBY/server.cpp `endRoom` at the peers of RDIBYClient/clienttest.cpp.
use lllsi.Base.{
  ℕ, ◌≡◌, refl, ap, ◌∙◌, true, false, List, [], ◌∷◌, ◌++◌, ◌==◌, ==_self, Bool-cases, inl, inr,
  append-nil, Option, some, map, if◌then◌else◌, All,
}
use lllsi.Packet.{Bytes}
use lllsi.Room.{Sap, ServerRoomMsg}
use lllsi.Room.Server.{leave_msg, bare_msg, punch_msg}
use lllsi.Room.Introduction.{to_host, to_clients, farewells, introductions}
use lllsi.Peer.Waiting.{punches}

-- What of `sent` comes to the other end of a socket.
abbrev pub messages_to : ℕ → List (ℕ × ServerRoomMsg) → List (Option ServerRoomMsg)
messages_to sock [] = []
messages_to sock ((to, msg) ∷ more) =
    if to == sock then some msg ∷ messages_to sock more else messages_to sock more

-- Nobody in the list has that socket.
abbrev pub Apart : ℕ → List Sap → Type 0
Apart sock bs = All (λ (b : Sap). (b.0 == sock) ≡ false) bs

abbrev pub addrs_of : List Sap → List Bytes
addrs_of bs = map (λ (b : Sap). b.1) bs

messages_to-append :
    (sock : ℕ) (xs ys : List (ℕ × ServerRoomMsg))
    → messages_to sock (xs ++ ys) ≡ messages_to sock xs ++ messages_to sock ys
messages_to-append sock [] ys = refl
messages_to-append sock ((to, msg) ∷ xs) ys = elim (Bool-cases (to == sock)) [
  | inl same ↦ rw same (ap (◌∷◌ (some msg)) (messages_to-append sock xs ys))
  | inr other ↦ rw other (messages_to-append sock xs ys)
]

messages_to-to_host :
    (host : Sap) (bs : List Sap) → messages_to host.0 (to_host host bs) ≡ punches (addrs_of bs)
messages_to-to_host host [] = refl
messages_to-to_host host (b ∷ bs) =
    rw (==_self host.0) (ap (◌∷◌ (some (punch_msg b.1))) (messages_to-to_host host bs))

module _ (sock : ℕ) (host : Sap) where
  to_host_elsewhere :
      (bs : List Sap) → (host.0 == sock) ≡ false → messages_to sock (to_host host bs) ≡ []
  to_host_elsewhere [] e = refl
  to_host_elsewhere (b ∷ bs) e = rw e (to_host_elsewhere bs e)

  to_clients-Apart : (bs : List Sap) → Apart sock bs → messages_to sock (to_clients host bs) ≡ []
  to_clients-Apart [] l = refl
  to_clients-Apart (b ∷ bs) (e, l) = rw e (to_clients-Apart bs l)

farewells-Apart : (sock : ℕ) (bs : List Sap) → Apart sock bs → messages_to sock (farewells bs) ≡ []
farewells-Apart sock [] l = refl
farewells-Apart sock (b ∷ bs) (e, l) = rw e (farewells-Apart sock bs l)

-- One member among the others.
module _ (host b : Sap) (after : List Sap) (behind : Apart b.0 after) where
  messages_to-to_clients :
      (before : List Sap)
      → Apart b.0 before
      → messages_to b.0 (to_clients host (before ++ b ∷ after)) ≡ punches (host.1 ∷ b.1 ∷ [])
  messages_to-to_clients [] l = rw (==_self b.0) (
      ap (λ z. some (punch_msg host.1) ∷ some (punch_msg b.1) ∷ z)
        (to_clients-Apart b.0 host after behind))
  messages_to-to_clients (c ∷ before) (e, l) = rw e (messages_to-to_clients before l)

  messages_to-farewells :
      (before : List Sap)
      → Apart b.0 before
      → messages_to b.0 (farewells (before ++ b ∷ after)) ≡ some (bare_msg leave_msg) ∷ []
  messages_to-farewells [] l =
      rw (==_self b.0) (ap (λ z. some (bare_msg leave_msg) ∷ z) (farewells-Apart b.0 after behind))
  messages_to-farewells (c ∷ before) (e, l) = rw e (messages_to-farewells before l)

-- Everything that a start sends.
abbrev pub room_messages : Sap → List Sap → List (ℕ × ServerRoomMsg)
room_messages host bs =
    introductions true host bs ++ (farewells bs ++ (host.0, bare_msg leave_msg) ∷ [])

-- By what of the parts comes to a socket.
messages_to-parts :
    (sock : ℕ) (w x y z : List (ℕ × ServerRoomMsg)) {a b c : List (Option ServerRoomMsg)}
    → messages_to sock w ≡ a
    → messages_to sock x ≡ b
    → messages_to sock y ≡ c
    → messages_to sock ((w ++ x) ++ (y ++ z)) ≡ (a ++ b) ++ (c ++ messages_to sock z)
messages_to-parts sock w x y z e f g =
    messages_to-append sock (w ++ x) (y ++ z)
    ∙ rw (messages_to-append sock w x, messages_to-append sock y z, e, f, g) refl

pub host_messages :
    (host : Sap) (bs : List Sap)
    → Apart host.0 bs
    → messages_to host.0 (room_messages host bs)
      ≡ punches (host.1 ∷ addrs_of bs) ++ some (bare_msg leave_msg) ∷ []
host_messages host bs l = rw (==_self host.0) (
    ap (◌∷◌ (some (punch_msg host.1))) (
      messages_to-parts host.0 _ _ _ _ (messages_to-to_host host bs)
        (to_clients-Apart host.0 host bs l) (farewells-Apart host.0 bs l)
      ∙ rw (==_self host.0) (
          ap (λ (z : List (Option ServerRoomMsg)). z ++ some (bare_msg leave_msg) ∷ [])
            (append-nil (punches (addrs_of bs))))))

pub member_messages :
    (host b : Sap) (before after : List Sap)
    → (host.0 == b.0) ≡ false
    → Apart b.0 before
    → Apart b.0 after
    → messages_to b.0 (room_messages host (before ++ b ∷ after))
      ≡ punches (host.1 ∷ b.1 ∷ []) ++ some (bare_msg leave_msg) ∷ []
member_messages host b before after e l k = rw e (
    messages_to-parts b.0 _ _ _ _ (to_host_elsewhere b.0 host (before ++ b ∷ after) e)
      (messages_to-to_clients host b after k before l)
      (messages_to-farewells host b after k before l)
    ∙ rw e refl)
