-- ===== src/Ui/Age/Tests.antt =====
-- Ages in the column's units.
use kubiq.Ui.Age.{parse, text, s, m, d, y, format}
use kubiq.Ui.Age.Loss.{worth, format-loss}
use kubiq.Base.{none, some, String, ◌≡◌, ◌≤◌, ◌-◌, ◌*◌, ◌/◌, refl, [], ◌∷◌, arith}

two_minutes : format 1000 121000 ≡ (2, m) ∷ []
unfolding format
two_minutes = refl

before_start : format 5000 1000 ≡ (0, s) ∷ []
unfolding format
before_start = refl

three_years : format 0 94700000000 ≡ (3, y) ∷ (1, d) ∷ []
unfolding format
three_years = refl

format-loss_example :
    (worth (format 1000 40000000) ≤ (40000000 - 1000) / 1000)
    × (8 * ((40000000 - 1000) / 1000 - worth (format 1000 40000000)) ≤ (40000000 - 1000) / 1000)
    × (worth (format 1000 40000000) ≤ worth (format 1000 90000000))
format-loss_example = format-loss 1000 40000000 90000000 (omega arith) (omega arith)

empty_text : parse (λ (t : String). some 5) (text "") ≡ none
unfolding parse
empty_text = refl

a_text : parse (λ (t : String). some 5) (text "2020-01-01") ≡ some 5
unfolding parse
a_text = refl
