-- ===== src/Examples/Screens.antt =====
-- A frame of two datagrams that change places, and a frame of one, on the viewer's screen.
use mathlib.Core.List.{Perm}
use mathlib.Core.List.Perm
use lllsi.Base.{ℕ, ◌≡◌, refl, [], ◌∷◌, Option, some, none, ok, lookup-nil, arith}
use lllsi.Packet.{Bytes}
use lllsi.Host.{StreamFrame}
use lllsi.Host.Fragments.{Fits}
use lllsi.Delivery.Order.{range_from}
use lllsi.Delivery.Screen.{Journey, Arrives, Quiet, show_stream, show_stream_lem}
use lllsi.Examples.Streaming.{
  two_packets, two_packets-Fits, idle_manager, idle_viewer, second_first,
}

abbrev first_byte : Bytes → Option ℕ
first_byte [] = none
first_byte (b ∷ bs) = some b

abbrev small_frame : StreamFrame
small_frame = record { chunk_size = 4096; stream_type = 1; bytes = 9 ∷ 8 ∷ [] }

abbrev crossed : Journey
crossed = record { frame = two_packets; order = 1 ∷ 0 ∷ []; junk = λ i. [] }

abbrev direct : Journey
direct = record { frame = small_frame; order = 0 ∷ []; junk = λ i. [] }

crossed-Arrives : Arrives crossed
crossed-Arrives = record { fits = two_packets-Fits; content = omega arith; once = second_first }

small_frame-Fits : Fits small_frame
small_frame-Fits = record { chunk_size = refl; bytes = omega arith }

alone : Perm (0 ∷ []) (range_from 0 1)
unfolding range_from
alone = Perm.refl (0 ∷ [])

direct-Arrives : Arrives direct
direct-Arrives = record { fits = small_frame-Fits; content = omega arith; once = alone }

idle_viewer-Quiet : Quiet 3 idle_viewer
idle_viewer-Quiet = record {
  packets = refl;
  announced = refl;
  bitmaps = refl;
  fresh = λ g above. lookup-nil g;
}

show_stream_lem_example :
    show_stream first_byte (crossed ∷ direct ∷ []) 3 idle_manager idle_viewer
    ≡ ok (some (3, 7) ∷ some (4, 9) ∷ [])
show_stream_lem_example =
    show_stream_lem first_byte (crossed ∷ direct ∷ []) 3 idle_manager idle_viewer
      (crossed-Arrives, (direct-Arrives, tt)) (omega arith) (omega arith) idle_viewer-Quiet
