-- ===== src/Events/Hooked.antt =====
-- VideoClient/main.cpp `wWinMain`: what the hooks answer, queue and leave.
use lllsi.Base.{List, ◌++◌}
use lllsi.Events.Hooks.{EventHookData, HookState}

abbrev with_events : List EventHookData → HookState → HookState
with_events ds s = record s { event_data_queue = s.event_data_queue ++ ds }
