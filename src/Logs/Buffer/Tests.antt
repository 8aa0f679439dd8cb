-- ===== src/Logs/Buffer/Tests.antt =====
-- Runs of the log buffer.
use kubiq.Base.{◌≡◌, refl, ◌++◌, [], ◌∷◌, Text, codes}
use kubiq.Logs.Buffer.{new, append, cut, trim, push_lines, strip_return, over_cap, minus_lines}
use kubiq.Logs.Buffer.Chunks.{new-IsSound, IsSound, content, append-IsSound, append-append}

two_lines :
    (append
      (new 2 100)
      (codes "a" ++ 13 ∷ 10 ∷ codes "b" ++ 10 ∷ codes "c" ++ 10 ∷ codes "d")).0.buffered
    ≡ codes "b" ∷ codes "c" ∷ []
unfolding append cut trim push_lines strip_return over_cap minus_lines
two_lines = refl

-- A chunk that ends inside a line end.
abbrev first_chunk : Text
first_chunk = codes "a" ++ 13 ∷ []

abbrev second_chunk : Text
second_chunk = 10 ∷ codes "b" ++ 10 ∷ codes "c" ++ 10 ∷ codes "d"

append-IsSound_example : IsSound (append (new 2 100) second_chunk).0
append-IsSound_example = append-IsSound (new 2 100) second_chunk (new-IsSound 2 100)

append-append_example :
    content (append (append (new 2 100) first_chunk).0 second_chunk).0
    ≡ content (append (new 2 100) (first_chunk ++ second_chunk)).0
append-append_example = append-append (new 2 100) first_chunk second_chunk (new-IsSound 2 100)
