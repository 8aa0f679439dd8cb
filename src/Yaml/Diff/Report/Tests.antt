-- ===== src/Yaml/Diff/Report/Tests.antt =====
-- Runs of the diff's summary and of its condensing.
use kubiq.Base.{◌≡◌, ◌≢◌, refl, ◌↔◌, false, List, [], ◌∷◌, Text, codes}
use kubiq.Yaml.Diff.{Line, line, context, removed, gap, compare}
use kubiq.Yaml.Diff.Report.{has_changes, touched_lines, condense}
use kubiq.Yaml.Diff.Report.Counts.{has_changes_iff}

abbrev old_text : List Text
old_text = codes "a" ∷ codes "b" ∷ codes "d" ∷ []

abbrev new_text : List Text
new_text = codes "a" ∷ codes "c" ∷ codes "c" ∷ codes "d" ∷ []

abbrev sample : List Line
sample =
    line context (codes "a") 1 1
    ∷ line context (codes "b") 2 2
    ∷ line removed (codes "c") 3 0
    ∷ line context (codes "d") 4 3
    ∷ line context (codes "e") 5 4
    ∷ []

touched_sample : touched_lines sample ≡ 3 ∷ []
unfolding touched_lines
touched_sample = refl

condensed_sample :
    condense sample 1
    ≡ line gap [] 0 0
      ∷ line context (codes "b") 2 2
      ∷ line removed (codes "c") 3 0
      ∷ line context (codes "d") 4 3
      ∷ line gap [] 0 0
      ∷ []
unfolding condense
condensed_sample = refl

has_changes_iff_example : (has_changes (compare old_text new_text) ≡ false) ↔ (old_text ≡ new_text)
has_changes_iff_example = has_changes_iff old_text new_text

context≢gap : context ≢ gap
context≢gap e = cc e

removed≢gap : removed ≢ gap
removed≢gap e = cc e
