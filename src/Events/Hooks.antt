-- ===== src/Events/Hooks.antt =====
-- The hooks that raise events: VideoClient/main.cpp `SetKeyboardHook` to `KeyboardHookCallback`, and
-- the managers of RDIBY/events.cpp. The callbacks queue `lParam`, a pointer; what it leads to is read
-- when `eventSenderThread` takes the event.
use lllsi.Base.{update, ℕ, ◌+◌, ◌^◌, Bool, List, [], ◌∷◌, ◌++◌, ◌==◌, ltb, if◌then◌else◌}
use lllsi.Events.{HookData, mouse_hook, keyboard_hook, other_hook, EventSender, send_event}

-- `event_hook_data`.
pub record EventHookData : Type 0 where
  pub l_param : ℕ
  pub w_param : ℕ
  pub type : ℕ

abbrev pub input_mouse : ℕ
input_mouse = 0

abbrev pub input_keyboard : ℕ
input_keyboard = 1

-- `_kbd_hook` and `_ms_hook`, the hooks that Windows has for the program, `eventDataQueue`, and how
-- many message boxes were shown.
pub record HookState : Type 0 where
  pub kbd_hook : ℕ
  pub ms_hook : ℕ
  pub installed : List ℕ
  pub event_data_queue : List EventHookData
  pub boxes : ℕ

-- With what `SetWindowsHookEx` answered: 0 on a failure.
abbrev pub installed_hook : ℕ → HookState → HookState
installed_hook handle s = record s {
  installed = if handle == 0 then s.installed else handle ∷ s.installed;
  boxes = if handle == 0 then s.boxes + 1 else s.boxes;
}

unfoldable pub set_keyboard_hook : (handle : ℕ) → HookState → HookState
set_keyboard_hook handle s = installed_hook handle (record s { kbd_hook = handle })

unfoldable pub set_mouse_hook : (handle : ℕ) → HookState → HookState
set_mouse_hook handle s = installed_hook handle (record s { ms_hook = handle })

-- `UnhookWindowsHookEx`, which fails for a handle that is none.
abbrev pub unhook : ℕ → List ℕ → List ℕ
unhook hook [] = []
unhook hook (h ∷ hs) = if h == hook then hs else h ∷ unhook hook hs

unfoldable pub release_keyboard_hook : HookState → HookState
release_keyboard_hook s = record s { installed = unhook s.kbd_hook s.installed }

unfoldable pub release_mouse_hook : HookState → HookState
release_mouse_hook s = record s { installed = unhook s.ms_hook s.installed }

-- An `int` that is not negative.
abbrev pub is_action : (n_code : ℕ) → Bool
is_action n_code = ltb n_code (2 ^ 31)

abbrev pub queue_event : (n_code : ℕ) → EventHookData → HookState → HookState
queue_event n_code d s =
    if is_action n_code then record s { event_data_queue = s.event_data_queue ++ d ∷ [] } else s

module _ (call_next_hook : (hook n_code : ℕ) → ℕ) where
  -- What the callbacks return and leave.
  unfoldable pub mouse_hook_callback : (n_code w_param l_param : ℕ) → HookState → ℕ × HookState
  mouse_hook_callback n_code w_param l_param s =
      let event : EventHookData = record {
        l_param = l_param;
        w_param = w_param;
        type = input_mouse;
      } in
      (call_next_hook s.ms_hook n_code, queue_event n_code event s)

  unfoldable pub keyboard_hook_callback : (n_code w_param l_param : ℕ) → HookState → ℕ × HookState
  keyboard_hook_callback n_code w_param l_param s =
      let event : EventHookData = record {
        l_param = l_param;
        w_param = w_param;
        type = input_keyboard;
      } in
      (call_next_hook s.kbd_hook n_code, queue_event n_code event s)

  -- The callbacks of the managers of RDIBY queue nothing.
  abbrev pub default_keyboard_callback : (n_code : ℕ) → HookState → ℕ × HookState
  default_keyboard_callback n_code s = (call_next_hook s.kbd_hook n_code, s)

  abbrev pub default_mouse_callback : (n_code : ℕ) → HookState → ℕ × HookState
  default_mouse_callback n_code s = (call_next_hook s.ms_hook n_code, s)

-- `InitiateDefaultKeyboardHook` and `InitiateDefaultMouseHook` of the managers.
abbrev pub initiate_default_keyboard_hook : (handle : ℕ) → HookState → HookState
initiate_default_keyboard_hook handle s = installed_hook handle (record s { kbd_hook = handle })

abbrev pub initiate_default_mouse_hook : (handle : ℕ) → HookState → HookState
initiate_default_mouse_hook handle s = installed_hook handle (record s { ms_hook = handle })

-- A call that Windows makes.
pub data HookCall : Type 0 where
  mouse_call : (n_code w_param l_param : ℕ) → HookCall
  keyboard_call : (n_code w_param l_param : ℕ) → HookCall

abbrev pub call : (call_next_hook : ℕ → ℕ → ℕ) → HookCall → HookState → ℕ × HookState
call next (mouse_call n_code w_param l_param) s = mouse_hook_callback next n_code w_param l_param s
call next (keyboard_call n_code w_param l_param) s =
    keyboard_hook_callback next n_code w_param l_param s

-- The message loop of `wWinMain`, with the calls that come in it.
unfoldable pub call_all :
    (call_next_hook : ℕ → ℕ → ℕ) → List HookCall → HookState → List ℕ × HookState
unfolding mouse_hook_callback keyboard_hook_callback
call_all next [] s = ([], s)
call_all next (c ∷ cs) s =
    let called = call next c s in
    let rest = call_all next cs called.1 in (called.0 ∷ rest.0, rest.1)

-- `wWinMain` from the installing of the hooks to their release.
unfoldable pub hooked :
    (call_next_hook : ℕ → ℕ → ℕ)
    → (keyboard mouse : ℕ) → List HookCall
    → HookState
    → List ℕ × HookState
unfolding set_keyboard_hook set_mouse_hook call_all release_mouse_hook release_keyboard_hook
hooked next keyboard mouse calls s =
    let ran = call_all next calls (set_mouse_hook mouse (set_keyboard_hook keyboard s)) in
    (ran.0, release_keyboard_hook (release_mouse_hook ran.1))

-- What is behind the pointers when the sender reads: MSLLHOOKSTRUCT and KBDLLHOOKSTRUCT.
pub record HookMemory : Type 0 where
  pub point : ℕ → ℕ × ℕ
  pub mouse_data : ℕ → ℕ
  pub vk_code : ℕ → ℕ

-- What the sender finds for an event.
unfoldable pub found : HookMemory → EventHookData → HookData
found m d =
    if d.type == input_mouse
    then mouse_hook d.w_param (m.point d.l_param).0 (m.point d.l_param).1 (m.mouse_data d.l_param)
    else if d.type == input_keyboard
    then keyboard_hook d.w_param (m.vk_code d.l_param)
    else other_hook d.type

-- The sender scales the point where it is.
unfoldable pub scale_point : (scale_x scale_y : ℕ → ℕ) → EventHookData → HookMemory → HookMemory
scale_point scale_x scale_y d m =
    if d.type == input_mouse
    then (let (x, y) = m.point d.l_param in
        record m { point = update m.point d.l_param (scale_x x, scale_y y) })
    else m

-- The loop of `eventSenderThread` over what is in the queue.
unfoldable pub send_events :
    (scale_x scale_y : ℕ → ℕ) → List EventHookData → HookMemory → EventSender → EventSender
unfolding found scale_point
send_events scale_x scale_y [] m e = e
send_events scale_x scale_y (d ∷ ds) m e =
    send_events scale_x scale_y ds (scale_point scale_x scale_y d m)
      (send_event scale_x scale_y (found m d) e)

-- What the calls queue: those with an action, in their order.
abbrev pub queued : List HookCall → List EventHookData
queued [] = []
queued (mouse_call n_code w_param l_param ∷ cs) =
    let rest = queued cs in
    if is_action n_code
    then record { l_param = l_param; w_param = w_param; type = input_mouse } ∷ rest
    else rest
queued (keyboard_call n_code w_param l_param ∷ cs) =
    let rest = queued cs in
    if is_action n_code
    then record { l_param = l_param; w_param = w_param; type = input_keyboard } ∷ rest
    else rest

-- What the callbacks answer: the next hook's answer.
abbrev pub answers_of : (call_next_hook : ℕ → ℕ → ℕ) → (keyboard mouse : ℕ) → List HookCall → List ℕ
answers_of next keyboard mouse [] = []
answers_of next keyboard mouse (mouse_call n_code w_param l_param ∷ cs) =
    next mouse n_code ∷ answers_of next keyboard mouse cs
answers_of next keyboard mouse (keyboard_call n_code w_param l_param ∷ cs) =
    next keyboard n_code ∷ answers_of next keyboard mouse cs
