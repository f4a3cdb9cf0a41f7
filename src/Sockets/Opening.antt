-- ===== src/Sockets/Opening.antt =====
-- RDIBY/client.cpp `initTCP` and RDIBY/serverNetwork.cpp `init`: when they succeed, and which handles
-- stay open.
use lllsi.Base.{
  ℕ, ◌+◌, ◌≡◌, ◌<◌, refl, ap, ◌∙◌, true, false, List, [], ◌∷◌, ◌==◌, ◌&&◌, not, leb, if◌then◌else◌,
  arith, Bool-cases, inl, inr, ==_self,
}
use lllsi.Sockets.{invalid_socket, Answers, BaseSocket, init_tcp, init_server}

-- One attempt after another, and what the last returned.
abbrev pub attempts : List Answers → BaseSocket → BaseSocket
attempts [] s = s
attempts (a ∷ history) s = attempts history (init_tcp a s).1

init_tcp_used :
    (a : Answers) (s : BaseSocket)
    → (s.sock == invalid_socket) ≡ false
    → ((init_tcp a s).0 ≡ false) × ((init_tcp a s).1.sock ≡ s.sock)
unfolding init_tcp
init_tcp_used a s used = elim (Bool-cases a.closed) [
  | inl closes ↦ rw (used, closes) (refl, refl)
  | inr fails ↦ rw (used, fails) (refl, refl)
]

attempts_used :
    (history : List Answers) (s : BaseSocket)
    → (s.sock == invalid_socket) ≡ false
    → ((attempts history s).sock == invalid_socket) ≡ false
attempts_used [] s used = used
attempts_used (a ∷ history) s used =
    attempts_used history (init_tcp a s).1
      (ap (λ (h : ℕ). h == invalid_socket) (init_tcp_used a s used).1 ∙ used)

init_tcp_refused :
    (a : Answers) (s : BaseSocket)
    → (s.sock == invalid_socket) ≡ true
    → (a.handle == invalid_socket) ≡ false
    → a.connected ≡ false
    → (init_tcp a s).1.sock ≡ a.handle
unfolding init_tcp
init_tcp_refused a s fresh valid refused = elim (Bool-cases a.closed) [
  | inl closes ↦ rw (fresh, valid, refused, closes) refl
  | inr fails ↦ rw (fresh, valid, refused, fails) refl
]

-- After a `connect` that failed the socket keeps the closed handle, and from then on every `initTCP`
-- fails, however often it is tried and whatever WinSock answers.
pub init_tcp-attempts :
    (first last : Answers) (between : List Answers) (s : BaseSocket)
    → s.sock ≡ invalid_socket
    → (first.handle == invalid_socket) ≡ false
    → first.connected ≡ false
    → (init_tcp last (attempts between (init_tcp first s).1)).0 ≡ false
init_tcp-attempts first last between s fresh valid refused =
    let is_fresh = ap (λ (h : ℕ). h == invalid_socket) fresh ∙ ==_self invalid_socket in
    (init_tcp_used last (attempts between (init_tcp first s).1) (
      attempts_used between (init_tcp first s).1 (
        ap (λ (h : ℕ). h == invalid_socket) (init_tcp_refused first s is_fresh valid refused)
        ∙ valid))).0

-- The first `initTCP` of a socket, when closing a handle works: it succeeds if `socket` and `connect`
-- do, and then the new handle is open; otherwise no handle is left open, and WinSock was cleaned up
-- once.
pub init_tcp_lem :
    (a : Answers) (s : BaseSocket)
    → s.sock ≡ invalid_socket
    → a.closed ≡ true
    → let succeeds = not (a.handle == invalid_socket) && a.connected in
      ((init_tcp a s).0 ≡ succeeds)
      × ((init_tcp a s).1.open_handles
          ≡ (if succeeds then a.handle ∷ s.open_handles else s.open_handles))
      × ((init_tcp a s).1.cleanups ≡ (if succeeds then s.cleanups else s.cleanups + 1))
unfolding init_tcp
init_tcp_lem a s fresh closes =
    let is_fresh = ap (λ (h : ℕ). h == invalid_socket) fresh ∙ ==_self invalid_socket in
    elim (Bool-cases (a.handle == invalid_socket)) [
      | inl none_left ↦ rw (is_fresh, none_left) (refl, refl, refl)
      | inr valid ↦ elim (Bool-cases a.connected) [
        | inl connects ↦ rw (is_fresh, valid, connects) (refl, refl, refl)
        | inr refused ↦ rw (is_fresh, valid, refused, closes, ==_self a.handle) (refl, refl, refl)
      ]
    ]

-- `init` of the server's socket, when `socket` answers more than 1 and closing a handle works: it
-- succeeds if the address is resolved, the answer is not INVALID_SOCKET, and `bind` works; then the
-- handle is open and is the socket's. Otherwise no handle is left open, the socket is as it was, and WinSock was cleaned up
-- once.
pub init_server_lem :
    (a : Answers) (s : BaseSocket)
    → a.closed ≡ true
    → 1 < a.handle
    → let succeeds = a.resolved && (not (a.handle == invalid_socket) && a.bound) in
      ((init_server a s).0 ≡ succeeds)
      × ((init_server a s).1.sock ≡ (if succeeds then a.handle else s.sock))
      × ((init_server a s).1.open_handles
          ≡ (if succeeds then a.handle ∷ s.open_handles else s.open_handles))
      × ((init_server a s).1.cleanups ≡ (if succeeds then s.cleanups else s.cleanups + 1))
unfolding init_server
init_server_lem a s closes above =
    let above_1 : leb a.handle 1 ≡ false = ground arith in
    elim (Bool-cases a.resolved) [
      | inr unknown ↦ rw unknown (refl, refl, refl, refl)
      | inl resolved ↦ elim (Bool-cases (a.handle == invalid_socket)) [
        | inl none_left ↦ rw (resolved, above_1, none_left) (refl, refl, refl, refl)
        | inr valid ↦ elim (Bool-cases a.bound) [
          | inl binds ↦ rw (resolved, above_1, valid, binds) (refl, refl, refl, refl)
          | inr fails ↦
              rw (resolved, above_1, valid, fails, closes, ==_self a.handle)
                (refl, refl, refl, refl)
        ]
      ]
    ]
