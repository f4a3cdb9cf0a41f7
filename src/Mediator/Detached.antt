-- ===== src/Mediator/Detached.antt =====
-- Who can ask for an action, and that nobody keeps a pointer to a mediator that is gone:
-- RDIBY/IActionMediator.h.
use lllsi.Base.{
  ℕ, ◌≡◌, refl, sym, ap, ◌∙◌, inl, inr, Bool, true, false, List, [], ◌∷◌, ◌++◌, ◌==◌, ==_iff,
  ==_self, Bool-cases, if◌then◌else◌, ok, arith,
}
use lllsi.Mediator.{
  Pointer, unset, nullptr, to_mediator, ActionListener, Mediator, new_mediator, set_both,
  add_listener, erase_first, remove_listener, through, acquire_queue, release_queue, request_action,
  detach_all, destroy_mediator,
}

pub data Op : Type 0 where
  add remove : ℕ → Op

abbrev pub step : Op → Mediator → Mediator
step (add l) m = add_listener l m
step (remove l) m = remove_listener l m

abbrev pub run_ops : List Op → Mediator → Mediator
run_ops [] m = m
run_ops (op ∷ ops) m = run_ops ops (step op m)

-- What the last operation on a listener makes of its pointers.
abbrev pub pointer_after : ℕ → List Op → Pointer → Pointer
pointer_after k [] p = p
pointer_after k (add l ∷ ops) p = pointer_after k ops (if k == l then to_mediator else p)
pointer_after k (remove l ∷ ops) p = pointer_after k ops (if k == l then nullptr else p)

abbrev pub is_linked : Pointer → Bool
is_linked unset = false
is_linked nullptr = false
is_linked to_mediator = true

abbrev both : Pointer → ActionListener
both p = record { p_critical_section = p; pts_queue = p }

abbrev contains : ℕ → List ℕ → Bool
contains k [] = false
contains k (l ∷ ls) = if k == l then true else contains k ls

-- Both pointers of a listener are the same, and who has them is in the vector.
abbrev Linked : Mediator → ℕ → Pointer → Type 0
Linked m k p =
    (m.listeners k ≡ both p) × (is_linked p ≡ true → contains k m.listeners_vector ≡ true)

contains-append_same : (k : ℕ) (ls : List ℕ) → contains k (ls ++ k ∷ []) ≡ true
contains-append_same k [] = rw (==_self k) refl
contains-append_same k (l ∷ ls) = ground (arith, contains-append_same k ls)

contains-append : (k l : ℕ) (ls : List ℕ) → contains k ls ≡ true → contains k (ls ++ l ∷ []) ≡ true
contains-append k l [] h = ground arith
contains-append k l (j ∷ ls) h = elim (Bool-cases (k == j)) [
  | inl same ↦ rw same refl
  | inr other ↦ rw other (contains-append k l ls (rw other at h))
]

contains-erase_first :
    (k l : ℕ) (ls : List ℕ)
    → (k == l) ≡ false
    → contains k ls ≡ true
    → contains k (erase_first l ls) ≡ true
contains-erase_first k l [] other h = h
contains-erase_first k l (j ∷ ls) other h = ground (arith, contains-erase_first k l ls other)

add-Linked :
    (k l : ℕ) (m : Mediator) (p : Pointer)
    → Linked m k p
    → Linked (add_listener l m) k (if k == l then to_mediator else p)
unfolding add_listener
add-Linked k l m p (e, within) = elim (Bool-cases (k == l)) [
  | inl same ↦ rw same (
    refl,
    λ h.
        ap (λ (j : ℕ). contains k (m.listeners_vector ++ j ∷ [])) (sym ((==_iff k l).0 same))
        ∙ contains-append_same k m.listeners_vector,
  )
  | inr other ↦ rw other (e, λ h. contains-append k l m.listeners_vector (within h))
]

remove-Linked :
    (k l : ℕ) (m : Mediator) (p : Pointer)
    → Linked m k p
    → Linked (remove_listener l m) k (if k == l then nullptr else p)
unfolding remove_listener
remove-Linked k l m p (e, within) = elim (Bool-cases (k == l)) [
  | inl same ↦ rw same (refl, λ h. cc)
  | inr other ↦ rw other (e, λ h. contains-erase_first k l m.listeners_vector other (within h))
]

run_ops-Linked :
    (k : ℕ) (ops : List Op) (m : Mediator) (p : Pointer)
    → Linked m k p
    → Linked (run_ops ops m) k (pointer_after k ops p)
run_ops-Linked k [] m p l = l
run_ops-Linked k (add l ∷ ops) m p linked =
    run_ops-Linked k ops (add_listener l m) (if k == l then to_mediator else p)
      (add-Linked k l m p linked)
run_ops-Linked k (remove l ∷ ops) m p linked =
    run_ops-Linked k ops (remove_listener l m) (if k == l then nullptr else p)
      (remove-Linked k l m p linked)

-- The destructor sets the pointers of everyone in the vector.
detach_all_lem :
    (k : ℕ) (ls : List ℕ) (listeners : ℕ → ActionListener) (p : Pointer)
    → listeners k ≡ both p
    → (is_linked p ≡ true → contains k ls ≡ true)
    → (q : Pointer) × (detach_all ls listeners k ≡ both q) × (is_linked q ≡ false)
unfolding detach_all
detach_all_lem k [] listeners p e within = elim (Bool-cases (is_linked p)) [
  | inl linked ↦ absurd (ground (arith, within linked))
  | inr free ↦ (p, e, free)
]
detach_all_lem k (l ∷ ls) listeners p e within = elim (Bool-cases (k == l)) [
  | inl same ↦ detach_all_lem k ls (set_both nullptr l listeners) nullptr (rw same refl) (λ h. cc)
  | inr other ↦
      detach_all_lem k ls (set_both nullptr l listeners) p (rw other e)
        (λ h. rw other at (within h))
]

request_action_lem :
    (k action : ℕ) (m : Mediator) (p : Pointer)
    → m.listeners k ≡ both p
    → request_action k action m ≡ through p (record m { actions = m.actions ++ action ∷ [] })
unfolding request_action acquire_queue release_queue
request_action_lem k action m unset e = rw e refl
request_action_lem k action m nullptr e = rw e refl
request_action_lem k action m to_mediator e =
    rw (e, request_action)
      (ap (λ (n : ℕ). ok (record m { actions = m.actions ++ action ∷ []; entered = n }))
        (omega arith))

-- After any additions and removals, a listener's request puts the action behind the others and leaves
-- the critical section as it was if the listener was last added, and fails at its pointer if it was
-- last removed or never added. And when the mediator is then destroyed no listener has a pointer to it.
pub run_ops-destroy_mediator :
    (ops : List Op) (k action : ℕ)
    → (let m = run_ops ops new_mediator in
        let freed = (destroy_mediator m).listeners k in
        (request_action k action m
          ≡ through (pointer_after k ops unset) (record m { actions = m.actions ++ action ∷ [] }))
        × (is_linked freed.p_critical_section ≡ false)
        × (is_linked freed.pts_queue ≡ false))
unfolding destroy_mediator
run_ops-destroy_mediator ops k action =
    let m = run_ops ops new_mediator in
    let (e, within) = run_ops-Linked k ops new_mediator unset (refl, λ h. cc) in
    let (q, f, free) =
      detach_all_lem k m.listeners_vector m.listeners (pointer_after k ops unset) e within in
    (
      request_action_lem k action m (pointer_after k ops unset) e,
      ap (λ (l : ActionListener). is_linked l.p_critical_section) f ∙ free,
      ap (λ (l : ActionListener). is_linked l.pts_queue) f ∙ free,
    )
