-- ===== src/Examples/Showing.antt =====
-- A frame that is complete while an earlier one waits to be shown.
use lllsi.Base.{ℕ, ◌≡◌, refl, false, [], ◌∷◌, Option, some, none, lookup}
use lllsi.Packet.{Bytes}
use lllsi.Viewer.{Viewer, active_frame}

abbrev first_byte : Bytes → Option ℕ
first_byte [] = none
first_byte (b ∷ bs) = some b

abbrev complete : Viewer ℕ
complete = record {
  packet_queue = [];
  active_frames =
      (
        8,
        record {
          chunks = 5 ∷ 6 ∷ [];
          total_size = 2;
          expected_size = 2;
          frame_number = 8;
          total_packets = 1;
        },
      )
      ∷ [];
  frame_num_queue = 8 ∷ [];
  latest_frame = 8;
  sent = [];
  bitmaps = (7, 4) ∷ [];
  load_frame = false;
}

decodes : first_byte (active_frame complete.active_frames 8).chunks ≡ some 5
unfolding lookup
decodes = refl
