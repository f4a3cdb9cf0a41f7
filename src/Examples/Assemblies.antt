-- ===== src/Examples/Assemblies.antt =====
-- The library's viewer on packets of VideoHost.
use lllsi.Base.{
  ◌++◌, ℕ, suc, ◌≡◌, refl, [], ◌∷◌, replicate, length, err, none, some, lookup, arith, Map,
}
use lllsi.Base.Error.{out_of_bounds}
use lllsi.Packet.{Bytes, RtmpPacket, header_of, header_bytes}
use lllsi.Host.{StreamFrame}
use lllsi.Host.Fragments.{Fits, fragment}
use lllsi.Viewer.{FrameBuffer, open_frame, or_empty}
use lllsi.Assembly.{FramePacketsStream, assemble}
use lllsi.Assembly.Bounds.{assemble_last}
use lllsi.Assembly.Answers.{Queued, receive_packet_lem}
use lllsi.Examples.Streaming.{
  two_packets, two_packets-Fits, idle_manager, control_header, control_header-IsHeader,
}

nothing_assembled : (k : ℕ) → lookup {V = FrameBuffer} k [] ≡ none
unfolding lookup
nothing_assembled k = refl

two_packets-opened :
    length (open_frame (length two_packets.bytes) 3 (or_empty (lookup 3 []))).chunks
    ≡ length two_packets.bytes
unfolding open_frame lookup
two_packets-opened = refl

assemble_last_example :
    assemble two_packets.chunk_size
      (record { bytes = fragment two_packets 3 1 1 ++ []; size = 976 })
      []
    ≡ err out_of_bounds
assemble_last_example =
    assemble_last two_packets 3 1 1 [] 976 [] two_packets-Fits (omega arith) (omega arith) refl
      (omega arith) two_packets-opened

abbrev one_packet : StreamFrame
one_packet = record { chunk_size = 4096; stream_type = 1; bytes = 8 ∷ 9 ∷ [] }

one_packet-Fits : Fits one_packet
one_packet-Fits = record { chunk_size = refl; bytes = omega arith }

abbrev idle_stream : FramePacketsStream
idle_stream = record { frame_size = 4096; packets = []; sent = [] }

receive_packet_lem_example :
    Queued control_header (8 ∷ 9 ∷ []) [] (replicate 36 0) idle_stream idle_manager
unfolding header_bytes
receive_packet_lem_example =
    receive_packet_lem control_header (8 ∷ 9 ∷ []) [] (replicate 36 0) idle_stream idle_manager
      control_header-IsHeader (omega arith) (omega arith) refl

-- A handler that counts its calls.
abbrev count_calls : Map (RtmpPacket → ℕ → ℕ)
count_calls = (2, λ packet n. suc n) ∷ []

abbrev control_bytes : Bytes
control_bytes = 0 ∷ 2 ∷ []

control_bytes-handled : lookup (header_of control_bytes).type count_calls ≡ some (λ packet n. suc n)
unfolding lookup header_of
control_bytes-handled = refl
