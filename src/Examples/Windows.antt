-- ===== src/Examples/Windows.antt =====
-- Two pictures, of which one is drawn, and failures on the way.
use lllsi.Base.{ℕ, ◌≡◌, refl, true, false, List, [], ◌∷◌}
use lllsi.Viewer.Drawing.{DecodeAnswers, DrawAnswers, new_window, decoder_round, paint_window}
use lllsi.Viewer.Released.{Turn, decodes, ticks, paints, take_turns, NoLeak, take_turns-new_window}

abbrev good : ℕ → DecodeAnswers
good image = record { stream_made = true; status_ok = true; image = image }

abbrev broken : DecodeAnswers
broken = record { stream_made = true; status_ok = false; image = 99 }

abbrev drawing : DrawAnswers
drawing = record { hdc = true; last_status_ok = true; hdc_mem = true; h_bitmap = true }

abbrev turns : List Turn
turns =
    decodes (good 40) 4
    ∷ decodes broken 5
    ∷ decodes (good 60) 6
    ∷ paints drawing
    ∷ ticks
    ∷ paints drawing
    ∷ paints drawing
    ∷ []

one_drawn : (take_turns turns new_window).drawn ≡ 4 ∷ []
unfolding decoder_round paint_window
one_drawn = refl

take_turns-new_window_example : NoLeak (take_turns turns new_window)
take_turns-new_window_example = take_turns-new_window turns
