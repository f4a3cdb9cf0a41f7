-- ===== src/Host/Sending.antt =====
-- `sendStream` of VideoHost/host.h sends each frame whole: what goes out, and what is counted.
use mathlib.Core.List.{flatten}
use mathlib.Core.Path.{ap₂}
use lllsi.Base.{
  ℕ, zero, suc, ◌+◌, ◌-◌, ◌*◌, ◌/◌, ◌%◌, ◌≤◌, ◌<◌, ◌≡◌, refl, ap, sym, ◌∙◌, All, true, false, List,
  [], ◌∷◌, ◌++◌, map, ltb, length, take, drop, ok, append_assoc, append-nil, length-append,
  drop-append, drop-drop, drop_eq, drop_past, take-append-drop, arith, Map, emplace,
}
use lllsi.Packet.{Bytes, dword, sizeof_rtmp_packet, header_bytes}
use lllsi.Packet.Codec.{length-header_bytes}
use lllsi.Host.{
  packet_size, PacketManager, StreamFrame, payload_size, total_packets, send_fragments, send_frame,
}
use lllsi.Host.Fragments.{
  payload_bytes, Fits, chunk_size_of, chunk, fragment, fragments, payload_size-Fits,
  total_packets-Fits, data_offset-lt, length-chunk, fragment_header-IsHeader, send_fragment_lem,
}

-- The map of packets to be acknowledged, after `rounds` packets of a frame.
pub remembered : (rounds i : ℕ) → StreamFrame → (frame_num s : ℕ) → Map Bytes → Map Bytes
remembered zero i f frame_num s r = r
remembered (suc rounds) i f frame_num s r =
    remembered rounds (i + 1) f frame_num ((s + 1) % dword) (emplace s (fragment f frame_num s i) r)

-- What a manager looks like after it sent `rounds` packets of a frame.
pub record Sent (rounds i : ℕ) (f : StreamFrame) (frame_num : ℕ) (m m' : PacketManager)
    : Type 0 where
  pub sent : m'.sent ≡ m.sent ++ fragments rounds i f frame_num m.sequence_number
  pub sequence_number : m'.sequence_number ≡ (m.sequence_number + rounds) % dword
  pub recent_packets :
      m'.recent_packets ≡ remembered rounds i f frame_num m.sequence_number m.recent_packets

module _ (f : StreamFrame) (v : Fits f) (frame_num : ℕ) where
  send_fragments-Sent :
      (rounds i : ℕ) (m : PacketManager)
      → i + rounds ≡ total_packets f
      → m.sequence_number < dword
      → (m' : PacketManager) × (send_fragments rounds i f frame_num m ≡ ok m')
        × Sent rounds i f frame_num m m'
  unfolding send_fragments fragments remembered
  send_fragments-Sent zero i m e h = (
    m,
    refl,
    record { sent = sym (append-nil _); sequence_number = omega arith; recent_packets = refl },
  )
  send_fragments-Sent (suc rounds) i m e h =
      let (m', run, s) =
        send_fragments-Sent rounds (i + 1)
          (record {
            recent_packets =
                emplace m.sequence_number (fragment f frame_num m.sequence_number i)
                  m.recent_packets;
            ack_flag = false;
            sequence_number = (m.sequence_number + 1) % dword;
            sent = m.sent ++ fragment f frame_num m.sequence_number i ∷ [];
          })
          (omega arith) (omega arith) in
      (
        m',
        rw (send_fragment_lem f v frame_num i m (omega arith)) run,
        record {
          sent = s.sent ∙ append_assoc m.sent (fragment f frame_num m.sequence_number i ∷ []) _;
          sequence_number = omega (arith, s.sequence_number);
          recent_packets = s.recent_packets;
        },
      )

  -- A frame that fits is sent, packet by packet from its first to its last.
  pub send_frame-Sent :
      (m : PacketManager)
      → m.sequence_number < dword
      → (m' : PacketManager) × (send_frame f frame_num m ≡ ok m')
        × Sent (total_packets f) 0 f frame_num m m'
  unfolding send_frame
  send_frame-Sent m h =
      let divides : ltb 0 (payload_size f) ≡ true = rw (payload_size-Fits f v) in
      rw divides (send_fragments-Sent (total_packets f) 0 m (omega arith) h)

  drop-chunk :
      (i : ℕ)
      → i < total_packets f
      → drop (i * payload_bytes) f.bytes ≡ chunk f.bytes i ++ drop ((i + 1) * payload_bytes) f.bytes
  drop-chunk i h =
      let rest = drop (i * payload_bytes) f.bytes in
      let c = chunk_size_of (length f.bytes) i in
      sym (take-append-drop c rest)
      ∙ ap (◌++◌ (take c rest)) (
          drop-drop c (i * payload_bytes) (i * payload_bytes + c) f.bytes refl
          ∙ drop_eq (i * payload_bytes + c) ((i + 1) * payload_bytes) f.bytes
              (omega (arith, data_offset-lt f v i h)))

  length-fragment :
      (s i : ℕ)
      → s < dword
      → i < total_packets f
      → length (fragment f frame_num s i) ≡ sizeof_rtmp_packet + chunk_size_of (length f.bytes) i
  unfolding fragment
  length-fragment s i hs h = omega (
    arith,
    length-append (header_bytes _) (chunk f.bytes i),
    length-header_bytes _ (fragment_header-IsHeader f v frame_num s i hs h),
    length-chunk f v i,
  )

  payload-fragment :
      (s i : ℕ)
      → s < dword
      → i < total_packets f
      → drop sizeof_rtmp_packet (fragment f frame_num s i) ≡ chunk f.bytes i
  unfolding fragment
  payload-fragment s i hs h =
      drop-append sizeof_rtmp_packet (header_bytes _) (chunk f.bytes i)
        (length-header_bytes _ (fragment_header-IsHeader f v frame_num s i hs h))

  payloads-fragments :
      (rounds i s : ℕ)
      → i + rounds ≡ total_packets f
      → s < dword
      → flatten (map (drop sizeof_rtmp_packet) (fragments rounds i f frame_num s))
        ≡ drop (i * payload_bytes) f.bytes
  unfolding fragments flatten
  payloads-fragments zero i s e hs =
      sym (drop_past (i * payload_bytes) f.bytes (omega (arith, total_packets-Fits f v)))
  payloads-fragments (suc rounds) i s e hs =
      ap₂ ◌++◌ (payload-fragment s i hs (omega arith))
        (payloads-fragments rounds (i + 1) ((s + 1) % dword) (omega arith) (omega arith))
      ∙ sym (drop-chunk i (omega arith))

  -- Each datagram fits the receiver's buffer.
  fragments-IsSmall :
      (rounds i s : ℕ)
      → i + rounds ≡ total_packets f
      → s < dword
      → All (λ b. length b ≤ packet_size) (fragments rounds i f frame_num s)
  unfolding fragments
  fragments-IsSmall zero i s e hs = tt
  fragments-IsSmall (suc rounds) i s e hs = (
    omega (arith, length-fragment s i hs (omega arith)),
    fragments-IsSmall rounds (i + 1) ((s + 1) % dword) (omega arith) (omega arith),
  )

  length-fragments : (rounds i s : ℕ) → length (fragments rounds i f frame_num s) ≡ rounds
  unfolding fragments
  length-fragments zero i s = refl
  length-fragments (suc rounds) i s = ap suc (length-fragments rounds (i + 1) ((s + 1) % dword))

-- The frame is sent from `m` without an error, as datagrams `out` that are small, as many as needed,
-- and whose payloads are the frame.
abbrev pub SentWhole : StreamFrame → ℕ → PacketManager → Type 0
SentWhole f frame_num m =
    (m' : PacketManager) × (out : List Bytes) × (send_frame f frame_num m ≡ ok m')
    × (m'.sent ≡ m.sent ++ out)
    × (length out ≡ (length f.bytes + (payload_bytes - 1)) / payload_bytes)
    × All (λ b. length b ≤ packet_size) out
    × (flatten (map (drop sizeof_rtmp_packet) out) ≡ f.bytes)
    × (m'.sequence_number ≡ (m.sequence_number + length out) % dword)

-- From a sequence number below 2 ^ 32, a frame of the sample host's packet size with at most
-- 65535 * 4060 bytes is sent without an error. The datagrams that go out, in order, are ⌈length /
-- 4060⌉ in number, none is longer than the packet size, and their payloads, put together, are the
-- frame. The sequence number advances by one for each, modulo 2 ^ 32.
pub send_frame_lem :
    (f : StreamFrame) (v : Fits f) (frame_num : ℕ) (m : PacketManager)
    → m.sequence_number < dword
    → SentWhole f frame_num m
send_frame_lem f v frame_num m h =
    let (m', run, s) = send_frame-Sent f v frame_num m h in
    let n = total_packets f in
    let sent_count = length-fragments f v frame_num n 0 m.sequence_number in
    (
      m',
      fragments n 0 f frame_num m.sequence_number,
      run,
      s.sent,
      omega (arith, sent_count, total_packets-Fits f v),
      fragments-IsSmall f v frame_num n 0 m.sequence_number (omega arith) h,
      payloads-fragments f v frame_num n 0 m.sequence_number (omega arith) h,
      rw sent_count s.sequence_number,
    )
