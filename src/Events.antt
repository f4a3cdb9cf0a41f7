-- ===== src/Events.antt =====
-- Mouse and keyboard events from the viewer to the host: VideoClient/main.cpp `eventSenderThread`,
-- RDIBY/events.cpp, VideoHost/main.cpp `convertPacketToINPUT`.
-- The codes of the messages and flags are the Windows SDK's; `|` joins disjoint bits and is written
-- as a sum.
pub mod Sending
pub mod Hooks
pub mod Hooked
use lllsi.Base.{
  ℕ, ◌+◌, ◌%◌, Bool, List, [], ◌∷◌, ◌++◌, ◌==◌, if◌then◌else◌, replicate, Option, none, some,
}
use lllsi.Packet.{
  Bytes, word, MouseData, KeyboardData, RtmpPacket, packet_type_event, sizeof_rtmp_data,
  header_bytes, le32, u8, u32,
}

abbrev pub wm_keydown : ℕ
wm_keydown = 0x100

abbrev pub wm_keyup : ℕ
wm_keyup = 0x101

abbrev pub wm_syskeydown : ℕ
wm_syskeydown = 0x104

abbrev pub wm_syskeyup : ℕ
wm_syskeyup = 0x105

abbrev pub wm_lbuttondown : ℕ
wm_lbuttondown = 0x201

abbrev pub wm_lbuttonup : ℕ
wm_lbuttonup = 0x202

abbrev pub wm_rbuttondown : ℕ
wm_rbuttondown = 0x204

abbrev pub wm_rbuttonup : ℕ
wm_rbuttonup = 0x205

abbrev pub wm_mousewheel : ℕ
wm_mousewheel = 0x20A

-- `MOUSEEVENTF_ABSOLUTE`.
abbrev pub absolute : ℕ
absolute = 0x8000

abbrev pub keyeventf_keyup : ℕ
keyeventf_keyup = 2

-- `MouseFilter::findMatchingFlag`.
unfoldable pub find_mouse_flag : ℕ → ℕ
find_mouse_flag flag =
    if flag == wm_lbuttondown
    then 0x2
    else if flag == wm_lbuttonup
    then 0x4
    else if flag == wm_mousewheel
    then 0x800
    else if flag == wm_rbuttondown
    then 0x8
    else if flag == wm_rbuttonup
    then 0x10
    else 0x1

-- `KeyboardFilter::findMatchingFlag`.
unfoldable pub find_key_flag : ℕ → ℕ
find_key_flag flag =
    if flag == wm_keydown
    then 0
    else if flag == wm_syskeydown
    then 0
    else if flag == wm_keyup
    then keyeventf_keyup
    else if flag == wm_syskeyup
    then keyeventf_keyup
    else 0

-- The two `switch`es of the thread.
unfoldable pub mouse_flags_of : (w_param : ℕ) → ℕ
mouse_flags_of w_param =
    if w_param == wm_lbuttondown
    then 0x2 + absolute
    else if w_param == wm_lbuttonup
    then 0x4 + absolute
    else if w_param == wm_mousewheel
    then 0x800 + absolute
    else if w_param == wm_rbuttondown
    then 0x8 + absolute
    else if w_param == wm_rbuttonup
    then 0x10 + absolute
    else 0x1 + absolute

-- For another message the variable keeps the flags of the event before.
unfoldable pub key_flags_of : (flags w_param : ℕ) → ℕ
key_flags_of flags w_param =
    if w_param == wm_keydown
    then 0
    else if w_param == wm_syskeydown
    then 0
    else if w_param == wm_keyup
    then keyeventf_keyup
    else if w_param == wm_syskeyup
    then keyeventf_keyup
    else flags

-- What `eventSenderThread` finds for an event of the queue when it reads through the event's pointer:
-- a point and mouse data, a key, or something of a type that is neither.
pub data HookData : Type 0 where
  mouse_hook : (w_param x y mouse_data : ℕ) → HookData
  keyboard_hook : (w_param vk_code : ℕ) → HookData
  other_hook : (type : ℕ) → HookData

-- The thread's `flags`, the storage of `packet.rtmp_data`, and what was sent.
pub record EventSender : Type 0 where
  pub flags : ℕ
  pub rtmp_data : Bytes
  pub sent : List Bytes

-- `eventType` and one member of the union are written; the other bytes stay.
unfoldable pub mouse_bytes : MouseData → Bytes → Bytes
mouse_bytes d b =
    0
    ∷ u8 b 1
    ∷ u8 b 2
    ∷ u8 b 3
    ∷ (le32 d.dx ++ (le32 d.dy ++ (le32 d.mouse_flags ++ le32 d.mouse_data)))

unfoldable pub keyboard_bytes : KeyboardData → Bytes → Bytes
keyboard_bytes d b =
    1
    ∷ u8 b 1
    ∷ u8 b 2
    ∷ u8 b 3
    ∷ (le32 d.vk_code
        ++ (le32 d.keyboard_flags
            ++ u8 b 12 ∷ u8 b 13 ∷ u8 b 14 ∷ u8 b 15 ∷ u8 b 16 ∷ u8 b 17 ∷ u8 b 18 ∷ u8 b 19 ∷ []))

abbrev pub event_header : Bytes → RtmpPacket
event_header rtmp_data = record {
  version = 0;
  type = packet_type_event;
  size = 0;
  sliding_window = 0;
  sequence_number = 0;
  flags = 0;
  rtmp_data = rtmp_data;
}

abbrev pub send_storage : EventSender → EventSender
send_storage s = record s { sent = s.sent ++ header_bytes (event_header s.rtmp_data) ∷ [] }

-- One event of `eventSenderThread`; `scale_x` and `scale_y` are the products with the floating-point
-- factors, cut to a LONG.
unfoldable pub send_event : (scale_x scale_y : ℕ → ℕ) → HookData → EventSender → EventSender
unfolding mouse_flags_of key_flags_of mouse_bytes keyboard_bytes
send_event scale_x scale_y (mouse_hook w_param x y mouse_data) s =
    let flags = mouse_flags_of w_param in
    let d : MouseData = record {
      dx = scale_x x;
      dy = scale_y y;
      mouse_flags = flags;
      mouse_data = mouse_data;
    } in
    send_storage (record s { flags = flags; rtmp_data = mouse_bytes d s.rtmp_data })
send_event scale_x scale_y (keyboard_hook w_param vk_code) s =
    let flags = key_flags_of s.flags w_param in
    let d : KeyboardData = record { vk_code = vk_code; keyboard_flags = flags } in
    send_storage (record s { flags = flags; rtmp_data = keyboard_bytes d s.rtmp_data })
send_event scale_x scale_y (other_hook type) s = send_storage s

-- What the host hands to Windows.
pub data Input : Type 0 where
  mouse_input : MouseData → Input
  keyboard_input : (vk flags scan : ℕ) → Input
  unfilled_input : (type : ℕ) → Input

-- `convertPacketToINPUT` reads the storage of the packet; `scan` is `MapVirtualKeyA`.
unfoldable pub convert_packet_to_input : (scan : ℕ → ℕ) → Bytes → Input
convert_packet_to_input scan b =
    if u8 b 0 == 0
    then mouse_input
        (record { dx = u32 b 4; dy = u32 b 8; mouse_flags = u32 b 12; mouse_data = u32 b 16 })
    else if u8 b 0 == 1
    then keyboard_input (u32 b 4 % word) (u32 b 8) (scan (u32 b 4 % word))
    else unfilled_input (u8 b 0)
