-- ===== src/Yaml/Diff/Tests.antt =====
-- Runs of the line diff on small documents.
use kubiq.Base.{◌≡◌, refl, ◌≤◌, List, [], ◌∷◌, Text, codes, length}
use kubiq.Yaml.Diff.{line, context, added, removed, compare, longest_common, runs}
use kubiq.Yaml.Diff.Align.{Aligned, Subseq}
use kubiq.Yaml.Diff.Longest.{longest_common_optimal}
use kubiq.Yaml.Diff.Views.{left_view, right_view}
use kubiq.Yaml.Diff.Rebuild.{entries, compare_rebuilds}

abbrev old_text : List Text
old_text = codes "a" ∷ codes "b" ∷ codes "d" ∷ []

abbrev new_text : List Text
new_text = codes "a" ∷ codes "c" ∷ codes "d" ∷ []

ab :
    compare (codes "a" ∷ codes "b" ∷ codes "d" ∷ []) (codes "a" ∷ codes "c" ∷ codes "d" ∷ [])
    ≡ line context (codes "a") 1 1
      ∷ line removed (codes "b") 2 0
      ∷ line added (codes "c") 0 2
      ∷ line context (codes "d") 3 3
      ∷ []
unfolding runs
ab = refl

longest_common_optimal_example :
    Aligned old_text new_text 0 0 (longest_common old_text new_text)
    × ((zs : List Text)
        → Subseq zs old_text
        → Subseq zs new_text
        → length zs ≤ length (longest_common old_text new_text))
longest_common_optimal_example = longest_common_optimal old_text new_text

compare_rebuilds_example :
    (left_view (compare old_text new_text) ≡ entries old_text)
    × (right_view (compare old_text new_text) ≡ entries new_text)
compare_rebuilds_example = compare_rebuilds old_text new_text
