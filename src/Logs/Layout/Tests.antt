-- ===== src/Logs/Layout/Tests.antt =====
-- A run of the log's window.
use kubiq.Base.{◌+◌, ◌≡◌, refl, ◌≤◌, ◌<◌, ℕ, List, [], ◌∷◌, true, arith}
use kubiq.Logs.Layout.{window, offsets}
use kubiq.Logs.Layout.Index.{line_top, held_top, window_covers}

abbrev sample : List ℕ
sample = 3 ∷ 25 ∷ 1 ∷ 4 ∷ 9 ∷ []

five_lines :
    window (offsets sample 10 10 true) 30 25 1
    ≡ record { start = 0; end = 5; offset_top = 0; total_height = 70 }
unfolding window offsets
five_lines = refl

sample_above : line_top sample 10 10 true 2 ≤ held_top sample 10 10 true 30 + 25
unfolding offsets
sample_above = omega arith

sample_below : held_top sample 10 10 true 30 < line_top sample 10 10 true 3
unfolding offsets
sample_below = omega arith

window_covers_example :
    ((window (offsets sample 10 10 true) 30 25 1).start ≤ 2)
    × (2 < (window (offsets sample 10 10 true) 30 25 1).end)
window_covers_example =
    window_covers sample 10 10 true 30 25 1 2 (omega arith) sample_above sample_below
