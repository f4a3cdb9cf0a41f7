-- ===== src/Host/Fragments.antt =====
-- The datagrams that `sendStream` (VideoHost/host.h) makes of one frame.
use lllsi.Base.{
  ℕ, zero, suc, ◌+◌, ◌-◌, ◌*◌, ◌%◌, ◌≤◌, ◌<◌, ◌≡◌, refl, min, true, false, List, [], ◌∷◌, ◌++◌, leb,
  length, take, drop, ok, length-take, length-drop, arith, emplace,
}
use lllsi.Packet.{Bytes, word, dword, header_bytes}
use lllsi.Packet.Codec.{IsHeader, length-rtsmp_bytes}
use lllsi.Host.{
  packet_size, PacketManager, StreamFrame, payload_size, total_packets, data_offset, data_size,
  fragment_header, send_fragment, send_packet, add_recent_packet,
}

-- The payload that a datagram of `packet_size` bytes carries.
abbrev pub payload_bytes : ℕ
payload_bytes = 4060

-- The frames of the sample host: its packet size, and no more packets than a `WORD` counts.
pub record Fits (f : StreamFrame) : Type 0 where
  pub chunk_size : f.chunk_size ≡ packet_size
  pub bytes : length f.bytes ≤ 65535 * payload_bytes

-- The size of chunk `i` of a frame of `l` bytes.
abbrev pub chunk_size_of : ℕ → ℕ → ℕ
chunk_size_of l i = min payload_bytes (l - i * payload_bytes)

abbrev pub chunk : Bytes → ℕ → Bytes
chunk b i = take (chunk_size_of (length b) i) (drop (i * payload_bytes) b)

unfoldable pub fragment : StreamFrame → (frame_num sequence_number i : ℕ) → Bytes
fragment f frame_num sequence_number i =
    header_bytes (fragment_header f frame_num sequence_number i) ++ chunk f.bytes i

unfoldable pub fragments :
    (rounds i : ℕ) → StreamFrame → (frame_num sequence_number : ℕ) → List Bytes
fragments zero i f frame_num s = []
fragments (suc rounds) i f frame_num s =
    fragment f frame_num s i ∷ fragments rounds (i + 1) f frame_num ((s + 1) % dword)

module _ (f : StreamFrame) (v : Fits f) where
  pub payload_size-Fits : payload_size f ≡ payload_bytes
  payload_size-Fits = rw v.chunk_size

  pub total_packets-Fits :
      (length f.bytes ≤ total_packets f * payload_bytes)
      × (total_packets f * payload_bytes < length f.bytes + payload_bytes)
      × (total_packets f < word)
  total_packets-Fits = rw v.chunk_size (omega (arith, v.bytes))

  pub data_offset-Fits : (i : ℕ) → data_offset f i ≡ i * payload_bytes
  data_offset-Fits i = rw v.chunk_size

  pub data_offset-lt : (i : ℕ) → i < total_packets f → i * payload_bytes < length f.bytes
  data_offset-lt i h = omega (arith, total_packets-Fits)

  pub data_size-Fits :
      (i : ℕ) → i < total_packets f → data_size f i ≡ chunk_size_of (length f.bytes) i
  data_size-Fits i h = rw v.chunk_size (omega (arith, data_offset-lt i h, v.bytes))

  pub length-chunk : (i : ℕ) → length (chunk f.bytes i) ≡ chunk_size_of (length f.bytes) i
  length-chunk i = omega (
    arith,
    length-take (chunk_size_of (length f.bytes) i) (drop (i * payload_bytes) f.bytes),
    length-drop (i * payload_bytes) f.bytes,
  )

  pub fragment_header-IsHeader :
      (frame_num s i : ℕ)
      → s < dword
      → i < total_packets f
      → IsHeader (fragment_header f frame_num s i)
  unfolding fragment_header
  fragment_header-IsHeader frame_num s i hs h = record {
    size = omega arith;
    sliding_window = omega arith;
    sequence_number = hs;
    rtmp_data = length-rtsmp_bytes _;
  }

  -- One round sends the fragment, remembers it under its number, and counts it.
  pub send_fragment_lem :
      (frame_num i : ℕ) (m : PacketManager)
      → i < total_packets f
      → send_fragment f frame_num i m
        ≡ ok (record {
          recent_packets =
              emplace m.sequence_number (fragment f frame_num m.sequence_number i) m.recent_packets;
          ack_flag = false;
          sequence_number = (m.sequence_number + 1) % dword;
          sent = m.sent ++ fragment f frame_num m.sequence_number i ∷ [];
        })
  unfolding send_fragment send_packet add_recent_packet fragment fragment_header
  send_fragment_lem frame_num i m h =
      let in_frame : leb (data_offset f i + data_size f i) (length f.bytes) ≡ true =
        rw (data_size-Fits i h, data_offset-Fits i) (ground (arith, data_offset-lt i h)) in
      rw (in_frame, data_size-Fits i h, data_offset-Fits i) refl
