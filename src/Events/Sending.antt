-- ===== src/Events/Sending.antt =====
-- What the host makes of an event that VideoClient/main.cpp sent.
use lllsi.Base.{
  ℕ, ◌+◌, ◌%◌, ◌≡◌, ◌<◌, refl, ap, ◌∙◌, [], ◌∷◌, ◌++◌, ◌⊎◌, inl, inr, length, arith, append-nil,
  sym,
}
use lllsi.Packet.{
  Bytes, u32, word, dword, MouseData, KeyboardData, RtmpPacket, packet_type_event, header_bytes,
  header_of,
}
use lllsi.Packet.Codec.{IsHeader, header_of-header_bytes}
use lllsi.Events.{
  absolute, wm_keydown, wm_syskeydown, wm_keyup, wm_syskeyup, find_mouse_flag, find_key_flag,
  mouse_flags_of, key_flags_of, mouse_hook, keyboard_hook, EventSender, mouse_bytes, keyboard_bytes,
  event_header, send_event, Input, mouse_input, keyboard_input, convert_packet_to_input,
}

mouse_flags_of_lem : (w_param : ℕ) → mouse_flags_of w_param ≡ find_mouse_flag w_param + absolute
unfolding mouse_flags_of find_mouse_flag
mouse_flags_of_lem w_param = ground arith

find_mouse_flag-lt : (w_param : ℕ) → find_mouse_flag w_param + absolute < dword
unfolding find_mouse_flag
find_mouse_flag-lt w_param = ground arith

event_header-IsHeader : (b : Bytes) → length b ≡ 20 → IsHeader (event_header b)
event_header-IsHeader b sized = record {
  size = omega arith;
  sliding_window = omega arith;
  sequence_number = omega arith;
  rtmp_data = sized;
}

-- The sender sends one packet of type EVENT, and the host, when it converts what it reads there,
-- gets this input.
abbrev pub Delivers : (scan : ℕ → ℕ) → EventSender → EventSender → Input → Type 0
Delivers scan s t input =
    (datagram : Bytes) × (t.sent ≡ s.sent ++ datagram ∷ [])
    × ((header_of datagram).type ≡ packet_type_event)
    × (convert_packet_to_input scan (header_of datagram).rtmp_data ≡ input)

header_of-event_header :
    (b : Bytes) → length b ≡ 20 → header_of (header_bytes (event_header b)) ≡ event_header b
header_of-event_header b sized =
    ap header_of (sym (append-nil (header_bytes (event_header b))))
    ∙ header_of-header_bytes (event_header b) [] (event_header-IsHeader b sized)

length-mouse_bytes : (d : MouseData) (b : Bytes) → length (mouse_bytes d b) ≡ 20
unfolding mouse_bytes
length-mouse_bytes d b = refl

length-keyboard_bytes : (d : KeyboardData) (b : Bytes) → length (keyboard_bytes d b) ≡ 20
unfolding keyboard_bytes
length-keyboard_bytes d b = refl

convert-mouse_bytes :
    (scan : ℕ → ℕ) (d : MouseData) (b : Bytes)
    → d.dx < dword
    → d.dy < dword
    → d.mouse_flags < dword
    → d.mouse_data < dword
    → convert_packet_to_input scan (mouse_bytes d b) ≡ mouse_input d
unfolding mouse_bytes convert_packet_to_input
convert-mouse_bytes scan d b hx hy hf hd = ground arith

convert-keyboard_bytes :
    (scan : ℕ → ℕ) (d : KeyboardData) (b : Bytes)
    → d.vk_code < word
    → d.keyboard_flags < dword
    → convert_packet_to_input scan (keyboard_bytes d b)
      ≡ keyboard_input d.vk_code d.keyboard_flags (scan d.vk_code)
unfolding keyboard_bytes convert_packet_to_input
convert-keyboard_bytes scan d b hk hf =
    let vk : u32 (keyboard_bytes d b) 4 % word ≡ d.vk_code = omega arith in
    let held : u32 (keyboard_bytes d b) 8 ≡ d.keyboard_flags = omega arith in
    ap (λ (k : ℕ). keyboard_input k (u32 (keyboard_bytes d b) 8) (scan k)) vk
    ∙ ap (λ (f : ℕ). keyboard_input d.vk_code f (scan d.vk_code)) held

-- A mouse event whose scaled coordinates and data fit 32 bits is the host's mouse input: the scaled
-- point, the data, and the flag that `MouseFilter` finds for the message together with
-- MOUSEEVENTF_ABSOLUTE, whatever was sent before.
pub send_event-mouse_hook :
    (scale_x scale_y scan : ℕ → ℕ) (w_param x y mouse_data : ℕ) (s : EventSender)
    → scale_x x < dword
    → scale_y y < dword
    → mouse_data < dword
    → Delivers scan s (send_event scale_x scale_y (mouse_hook w_param x y mouse_data) s) (
        mouse_input (record {
          dx = scale_x x;
          dy = scale_y y;
          mouse_flags = find_mouse_flag w_param + absolute;
          mouse_data = mouse_data;
        }))
unfolding send_event
send_event-mouse_hook scale_x scale_y scan w_param x y mouse_data s hx hy hd =
    let d : MouseData = record {
      dx = scale_x x;
      dy = scale_y y;
      mouse_flags = mouse_flags_of w_param;
      mouse_data = mouse_data;
    } in
    let b = mouse_bytes d s.rtmp_data in
    let read = header_of-event_header b (length-mouse_bytes d s.rtmp_data) in
    (
      header_bytes (event_header b),
      refl,
      ap (λ (p : RtmpPacket). p.type) read,
      ap (λ (p : RtmpPacket). convert_packet_to_input scan p.rtmp_data) read
          ∙ convert-mouse_bytes scan d s.rtmp_data hx hy
              (omega (arith, mouse_flags_of_lem w_param, find_mouse_flag-lt w_param)) hd
          ∙ ap (λ (f : ℕ). mouse_input (record d { mouse_flags = f })) (mouse_flags_of_lem w_param),
    )

-- The four messages of a key.
abbrev pub KeyMessage : ℕ → Type 0
KeyMessage w_param =
    (w_param ≡ wm_keydown)
    ⊎ ((w_param ≡ wm_syskeydown) ⊎ ((w_param ≡ wm_keyup) ⊎ (w_param ≡ wm_syskeyup)))

key_flags_of_lem :
    (flags w_param : ℕ) → KeyMessage w_param → key_flags_of flags w_param ≡ find_key_flag w_param
unfolding key_flags_of find_key_flag
key_flags_of_lem flags w_param (inl down) = ground arith
key_flags_of_lem flags w_param (inr (inl sysdown)) = ground arith
key_flags_of_lem flags w_param (inr (inr (inl up))) = ground arith
key_flags_of_lem flags w_param (inr (inr (inr sysup))) = ground arith

find_key_flag-lt : (w_param : ℕ) → find_key_flag w_param < dword
unfolding find_key_flag
find_key_flag-lt w_param = ground arith

-- A key event, with one of the four messages of a key and a code of 16 bits, is the host's keyboard
-- input: the code, its scan code, and the flag that `KeyboardFilter` finds for the message, whatever
-- was sent before.
pub send_event-keyboard_hook :
    (scale_x scale_y scan : ℕ → ℕ) (w_param vk_code : ℕ) (s : EventSender)
    → KeyMessage w_param
    → vk_code < word
    → Delivers scan s
        (send_event scale_x scale_y (keyboard_hook w_param vk_code) s)
        (keyboard_input vk_code (find_key_flag w_param) (scan vk_code))
unfolding send_event
send_event-keyboard_hook scale_x scale_y scan w_param vk_code s key hk =
    let d : KeyboardData = record {
      vk_code = vk_code;
      keyboard_flags = key_flags_of s.flags w_param;
    } in
    let b = keyboard_bytes d s.rtmp_data in
    let read = header_of-event_header b (length-keyboard_bytes d s.rtmp_data) in
    let flag = key_flags_of_lem s.flags w_param key in
    (
      header_bytes (event_header b),
      refl,
      ap (λ (p : RtmpPacket). p.type) read,
      ap (λ (p : RtmpPacket). convert_packet_to_input scan p.rtmp_data) read
          ∙ convert-keyboard_bytes scan d s.rtmp_data hk
              (omega (arith, flag, find_key_flag-lt w_param))
          ∙ ap (λ (f : ℕ). keyboard_input vk_code f (scan vk_code)) flag,
    )
