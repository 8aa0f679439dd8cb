-- ===== src/Pod/Environment/Copy.antt =====
-- PodEnvironmentText.ts, and copyGroup of PodEnvironmentService.ts.
use kubiq.Pod.Environment.Report.{Built, Entry, as_literal, resolved}
use kubiq.Resource.Filter.{is_empty}
use kubiq.Base.{
  ℕ, Bool, true, false, not, ◌&&◌, ◌||◌, List, [], ◌∷◌, ◌++◌, Text, codes, if◌then◌else◌, length,
}

-- `PodEnvironmentText`
abbrev pub has_value : Built → Bool
has_value b =
    not (is_empty b.variable) && elim b.state [ as_literal ↦ true | resolved ↦ true | _ ↦ false ]

unfoldable pub copyable : List Entry → List Entry
copyable [] = []
copyable (e ∷ es) = let rest = copyable es in if has_value e.built then e ∷ rest else rest

abbrev pub line_of : Entry → Text
line_of e = e.built.variable ++ codes "=" ++ e.built.value

unfoldable pub text_of : List Entry → Text
text_of [] = []
text_of (e ∷ []) = line_of e
text_of (e ∷ es) = line_of e ++ 10 ∷ text_of es

unfoldable pub hides_secret : List Entry → Bool
hides_secret [] = false
hides_secret (e ∷ es) = e.built.masked || hides_secret es

-- What `copyGroup` writes, and the count that it gives.
unfoldable pub copy_group : List Entry → Text × ℕ
unfolding copyable text_of
copy_group es = (text_of (copyable es), length (copyable es))
