-- ===== src/Examples/Listening.antt =====
-- A listener that is added twice and removed once, and another that stays.
use lllsi.Base.{◌≡◌, refl, false, List, [], ◌∷◌, err}
use lllsi.Base.Error.{null_pointer}
use lllsi.Mediator.{new_mediator, add_listener, remove_listener, request_action, destroy_mediator}
use lllsi.Mediator.Detached.{Op, add, remove, run_ops, is_linked, run_ops-destroy_mediator}

abbrev ops : List Op
ops = add 7 ∷ add 8 ∷ add 7 ∷ remove 7 ∷ []

run_ops-destroy_mediator_example :
    (request_action 7 5 (run_ops ops new_mediator) ≡ err null_pointer)
    × (is_linked ((destroy_mediator (run_ops ops new_mediator)).listeners 7).p_critical_section
        ≡ false)
    × (is_linked ((destroy_mediator (run_ops ops new_mediator)).listeners 7).pts_queue ≡ false)
run_ops-destroy_mediator_example = run_ops-destroy_mediator ops 7 5

-- It is still in the vector.
twice : (run_ops ops new_mediator).listeners_vector ≡ 8 ∷ 7 ∷ []
unfolding add_listener remove_listener
twice = refl
