-- ===== src/Yaml/Diff/Report.antt =====
-- summary, hasChanges, touchedLines and condense of YamlDiff.ts.
pub mod Counts
pub mod Condensed
mod Tests
use kubiq.Base.{
  ℕ, zero, suc, ◌+◌, ◌-◌, ◌≡◌, refl, Bool, true, false, ◌&&◌, ◌||◌, List, [], ◌∷◌, ◌++◌, ltb, leb,
  ◌==◌, if◌then◌else◌, Text, length, build, codes,
}
use kubiq.Yaml.Diff.{Kind, context, added, removed, gap, Line, line, compare, runs}

pub is_kind : Kind → Kind → Bool
is_kind context context = true
is_kind added added = true
is_kind removed removed = true
is_kind gap gap = true
is_kind _ _ = false

pub record Summary : Type 0 where
  pub added : ℕ
  pub removed : ℕ

pub count_kind : Kind → List Line → ℕ
unfolding is_kind
count_kind k [] = 0
count_kind k (l ∷ ls) = (if is_kind l.kind k then 1 else 0) + count_kind k ls

pub summary : List Line → Summary
unfolding count_kind
summary lines = record {
  added = count_kind Kind.added lines;
  removed = count_kind Kind.removed lines;
}

pub has_changes : List Line → Bool
unfolding is_kind
has_changes [] = false
has_changes (l ∷ ls) = (is_kind l.kind Kind.added || is_kind l.kind Kind.removed) || has_changes ls

-- The loop of `nextRightNumber` over the lines behind `from`.
pub next_right_number : List Line → ℕ
next_right_number [] = 0
next_right_number (l ∷ ls) = if ltb 0 l.right_number then l.right_number else next_right_number ls

-- A `Set` of numbers in insertion order.
pub set_has : List ℕ → ℕ → Bool
set_has [] n = false
set_has (m ∷ ms) n = m == n || set_has ms n

pub set_add : List ℕ → ℕ → List ℕ
unfolding set_has
set_add ms n = if set_has ms n then ms else ms ++ n ∷ []

-- `sort((a, b) => a - b)`
pub sort_insert : ℕ → List ℕ → List ℕ
sort_insert n [] = n ∷ []
sort_insert n (m ∷ ms) = if leb n m then n ∷ m ∷ ms else m ∷ sort_insert n ms

pub sort : List ℕ → List ℕ
unfolding sort_insert
sort [] = []
sort (n ∷ ns) = sort_insert n (sort ns)

-- One round of `touchedLines` at the line `l`, with the lines behind it.
pub touch : List ℕ → Line → List Line → List ℕ
unfolding is_kind set_add next_right_number
touch touched l ls =
    if is_kind l.kind Kind.added
    then set_add touched l.right_number
    else if is_kind l.kind Kind.removed
    then (let anchor = next_right_number ls in
        if ltb 0 anchor then set_add touched anchor else touched)
    else touched

pub touch_all : List ℕ → List Line → List ℕ
unfolding touch
touch_all touched [] = touched
touch_all touched (l ∷ ls) = touch_all (touch touched l ls) ls

pub touched_lines : List Line → List ℕ
unfolding touch_all sort
touched_lines lines = sort (touch_all [] lines)

-- The indexes that a changed line at `index` keeps: `index - width` to `index + width`, in range.
pub keep_around : ℕ → ℕ → ℕ → ℕ → List ℕ → List ℕ
unfolding set_add
keep_around zero at width total keep = keep
keep_around (suc rounds) at width total keep =
    keep_around rounds (at + 1) width total (if ltb at total then set_add keep at else keep)

pub keep_from : List Line → ℕ → ℕ → ℕ → List ℕ → List ℕ
unfolding is_kind keep_around
keep_from [] index width total keep = keep
keep_from (l ∷ ls) index width total keep = keep_from ls (index + 1) width total (
    if is_kind l.kind Kind.context
    then keep
    else keep_around (index + width + 1 - (index - width)) (index - width) width total keep)

pub condense_from : List Line → ℕ → List ℕ → Bool → List Line
unfolding set_has
condense_from [] index keep skipping = []
condense_from (l ∷ ls) index keep skipping =
    let kept = l ∷ condense_from ls (index + 1) keep false in
    let skipped = condense_from ls (index + 1) keep true in
    if set_has keep index then kept else if skipping then skipped else line gap [] 0 0 ∷ skipped

pub condense : List Line → ℕ → List Line
unfolding keep_from condense_from
condense lines width = condense_from lines 0 (keep_from lines 0 width (length lines) []) false
