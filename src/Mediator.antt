-- ===== src/Mediator.antt =====
-- Listeners that ask each other for actions through a mediator: RDIBY/IActionMediator.h.
-- Every listener lives, under its address, as long as the mediator. Its pointers are to the mediator's
-- queue and critical section or to nothing, and hold anything before it is added: there is no constructor
-- that sets them. The threads' turns are between the operations.
pub mod Detached
use lllsi.Base.{
  ℕ, ◌+◌, ◌-◌, Bool, true, false, List, [], ◌∷◌, ◌++◌, ◌==◌, if◌then◌else◌, Result, ok, err, ◌>>=◌,
}
use lllsi.Base.Error.{null_pointer, out_of_bounds}

pub data Pointer : Type 0 where
  unset nullptr : Pointer
  to_mediator : Pointer

pub record ActionListener : Type 0 where
  pub p_critical_section : Pointer
  pub pts_queue : Pointer

-- `entered` counts how often its critical section is entered, `actions` is its queue.
pub record Mediator : Type 0 where
  pub listeners : ℕ → ActionListener
  pub listeners_vector : List ℕ
  pub actions : List ℕ
  pub entered : ℕ
  pub run : Bool

abbrev pub not_added : ℕ → ActionListener
not_added l = record { p_critical_section = unset; pts_queue = unset }

abbrev pub new_mediator : Mediator
new_mediator = record {
  listeners = not_added;
  listeners_vector = [];
  actions = [];
  entered = 0;
  run = true;
}

abbrev pub set_both : Pointer → ℕ → (ℕ → ActionListener) → ℕ → ActionListener
set_both p l listeners k =
    if k == l then record { p_critical_section = p; pts_queue = p } else listeners k

unfoldable pub add_listener : ℕ → Mediator → Mediator
add_listener l m = record m {
  listeners = set_both to_mediator l m.listeners;
  listeners_vector = m.listeners_vector ++ l ∷ [];
}

-- `std::find` and `erase`: the first one goes.
abbrev pub erase_first : ℕ → List ℕ → List ℕ
erase_first l [] = []
erase_first l (k ∷ ks) = if k == l then ks else k ∷ erase_first l ks

unfoldable pub remove_listener : ℕ → Mediator → Mediator
remove_listener l m = record m {
  listeners = set_both nullptr l m.listeners;
  listeners_vector = erase_first l m.listeners_vector;
}

abbrev pub through : Pointer → Mediator → Result Mediator
through unset m = err out_of_bounds
through nullptr m = err null_pointer
through to_mediator m = ok m

unfoldable pub acquire_queue : ActionListener → Mediator → Result Mediator
acquire_queue listener m =
    through listener.p_critical_section (record m { entered = m.entered + 1 })

unfoldable pub release_queue : ActionListener → Mediator → Result Mediator
release_queue listener m =
    through listener.p_critical_section (record m { entered = m.entered - 1 })

unfoldable pub request_action : (l action : ℕ) → Mediator → Result Mediator
unfolding acquire_queue release_queue
request_action l action m = do
  acquired ← acquire_queue (m.listeners l) m
  pushed ←
      through (m.listeners l).pts_queue
        (record acquired { actions = acquired.actions ++ action ∷ [] })
  release_queue (m.listeners l) pushed

-- The loop of `~Mediator`.
unfoldable pub detach_all : List ℕ → (ℕ → ActionListener) → ℕ → ActionListener
detach_all [] listeners = listeners
detach_all (l ∷ ls) listeners = detach_all ls (set_both nullptr l listeners)

unfoldable pub destroy_mediator : Mediator → Mediator
unfolding detach_all
destroy_mediator m = record m { run = false; listeners = detach_all m.listeners_vector m.listeners }
