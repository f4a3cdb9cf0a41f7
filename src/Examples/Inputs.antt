-- ===== src/Examples/Inputs.antt =====
-- A click and a key in the hooks.
use lllsi.Base.{List, ◌∷◌, ℕ, []}
use lllsi.Events.{wm_lbuttondown, wm_keydown}
use lllsi.Events.Hooks.{HookState, HookCall, mouse_call, keyboard_call}

abbrev no_hooks : HookState
no_hooks = record { kbd_hook = 0; ms_hook = 0; installed = []; event_data_queue = []; boxes = 0 }

-- A click, a call without an action, and a key; the mouse's hook could not be installed.
abbrev calls : List HookCall
calls =
    mouse_call 0 wm_lbuttondown 7000
    ∷ mouse_call 4294967295 0 7008
    ∷ keyboard_call 0 wm_keydown 7016
    ∷ []

abbrev next_hook : ℕ → ℕ → ℕ
next_hook hook n_code = 1
