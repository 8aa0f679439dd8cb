-- ===== src/Yaml/Diff/Report/Condensed.antt =====
-- condense of YamlDiff.ts: what is left of a diff, and where it puts gaps.
use kubiq.Base.{
  ℕ, zero, suc, ◌+◌, ◌-◌, ◌≤◌, ◌<◌, ◌≡◌, refl, ◌≢◌, inl, inr, Bool, true, false, ◌||◌, Bool-cases,
  List, [], ◌∷◌, ◌++◌, arith, ltb, ◌==◌, if◌then◌else◌, length, All,
}
use kubiq.Yaml.Diff.{context, added, removed, gap, Line}
use kubiq.Yaml.Diff.Report.{
  is_kind, set_has, set_add, keep_around, keep_from, condense_from, condense,
}

set_has-append : (ms : List ℕ) (n k : ℕ) → set_has (ms ++ n ∷ []) k ≡ (set_has ms k || (n == k))
unfolding set_has
set_has-append [] n k = ground arith
set_has-append (m ∷ ms) n k = ground (arith, set_has-append ms n k)

set_has-add_self : (ms : List ℕ) (n : ℕ) → set_has (set_add ms n) n ≡ true
unfolding set_add
set_has-add_self ms n = ground (arith, set_has-append ms n n)

set_has-add : (ms : List ℕ) (n k : ℕ) → set_has ms k ≡ true → set_has (set_add ms n) k ≡ true
unfolding set_add
set_has-add ms n k h = ground (arith, set_has-append ms n k)

keep_around_mono :
    (rounds at width total k : ℕ) (keep : List ℕ)
    → set_has keep k ≡ true
    → set_has (keep_around rounds at width total keep) k ≡ true
unfolding keep_around
keep_around_mono zero at width total k keep h = h
keep_around_mono (suc rounds) at width total k keep h =
    keep_around_mono rounds (at + 1) width total k (if ltb at total then set_add keep at else keep)
      (ground (arith, set_has-add keep at k))

keep_around-has :
    (rounds at width total k : ℕ) (keep : List ℕ)
    → at ≤ k
    → k < at + rounds
    → k < total
    → set_has (keep_around rounds at width total keep) k ≡ true
unfolding keep_around
keep_around-has zero at width total k keep lo hi t = absurd (omega arith)
keep_around-has (suc rounds) at width total k keep lo hi t = elim (Bool-cases (at == k)) [
  | inl here ↦
      keep_around_mono rounds (at + 1) width total k _ (ground (arith, set_has-add_self keep at))
  | inr later ↦ keep_around-has rounds (at + 1) width total k _ (ground arith) (omega arith) t
]

keep_from_mono :
    (ls : List Line) (index width total k : ℕ) (keep : List ℕ)
    → set_has keep k ≡ true
    → set_has (keep_from ls index width total keep) k ≡ true
unfolding keep_from
keep_from_mono [] index width total k keep h = h
keep_from_mono (l ∷ ls) index width total k keep h = keep_from_mono ls (index + 1) width total k _ (
    ground (
      arith,
      keep_around_mono (index + width + 1 - (index - width)) (index - width) width total k keep,
    ))

-- `keep` holds the index of every line that is not context, counted from `index`.
abbrev Marked : List Line → ℕ → List ℕ → Type 0
Marked [] index keep = Unit
Marked (l ∷ ls) index keep =
    (is_kind l.kind context ≡ false → set_has keep index ≡ true) × Marked ls (index + 1) keep

keep_from-Marked :
    (ls : List Line) (index width total : ℕ) (keep : List ℕ)
    → index + length ls ≤ total
    → Marked ls index (keep_from ls index width total keep)
unfolding keep_from
keep_from-Marked [] index width total keep h = tt
keep_from-Marked (l ∷ ls) index width total keep h = (
  λ e. keep_from_mono ls (index + 1) width total index _ (
      ground (
        arith,
        keep_around-has (index + width + 1 - (index - width)) (index - width) width total index
            keep,
      )),
  keep_from-Marked ls (index + 1) width total _ (omega arith),
)

-- The added and removed lines of a diff.
abbrev pub changes : List Line → List Line
changes [] = []
changes (l ∷ ls) =
    if is_kind l.kind added || is_kind l.kind removed then l ∷ changes ls else changes ls

changes-condense_from :
    (ls : List Line) (index : ℕ) (keep : List ℕ) (skipping : Bool)
    → Marked ls index keep
    → changes (condense_from ls index keep skipping) ≡ changes ls
unfolding condense_from is_kind
changes-condense_from [] index keep skipping h = refl
changes-condense_from (l ∷ ls) index keep skipping h = ground (
  arith,
  h.0,
  changes-condense_from ls (index + 1) keep false h.1,
  changes-condense_from ls (index + 1) keep true h.1,
)

-- Condensing a diff, with any number of context lines, keeps its added and removed lines, all of
-- them and in order.
pub changes-condense : (ls : List Line) (width : ℕ) → changes (condense ls width) ≡ changes ls
unfolding condense
changes-condense ls width =
    changes-condense_from ls 0 _ false (keep_from-Marked ls 0 width (length ls) [] (omega arith))

-- No gap stands at the head, nor right behind a gap.
abbrev pub StartsFull : List Line → Type 0
StartsFull [] = Unit
StartsFull (l ∷ ls) = l.kind ≢ gap

abbrev pub SingleGaps : List Line → Type 0
SingleGaps [] = Unit
SingleGaps (l ∷ ls) = (l.kind ≡ gap → StartsFull ls) × SingleGaps ls

condense_from-StartsFull :
    (ls : List Line) (index : ℕ) (keep : List ℕ)
    → All (λ l. l.kind ≢ gap) ls
    → StartsFull (condense_from ls index keep true)
unfolding condense_from
condense_from-StartsFull [] index keep h = tt
condense_from-StartsFull (l ∷ ls) index keep h = elim (Bool-cases (set_has keep index)) [
  | inl e ↦ rw e h.0
  | inr e ↦ rw e (condense_from-StartsFull ls (index + 1) keep h.1)
]

condense_from-SingleGaps :
    (ls : List Line) (index : ℕ) (keep : List ℕ) (skipping : Bool)
    → All (λ l. l.kind ≢ gap) ls
    → SingleGaps (condense_from ls index keep skipping)
unfolding condense_from
condense_from-SingleGaps [] index keep skipping h = tt
condense_from-SingleGaps (l ∷ ls) index keep skipping h =
    let kept = condense_from-SingleGaps ls (index + 1) keep false h.1 in
    let skipped = condense_from-SingleGaps ls (index + 1) keep true h.1 in
    let start = condense_from-StartsFull ls (index + 1) keep h.1 in
    elim (Bool-cases (set_has keep index)) [
      | inl e ↦ rw e (λ g. absurd (h.0 g), kept)
      | inr e ↦ elim (Bool-cases skipping) [
        | inl s ↦ rw (e, s) skipped
        | inr s ↦ rw (e, s) (λ g. start, skipped)
      ]
    ]

-- A condensed diff never shows two gaps in a row, if the diff had none.
pub condense-SingleGaps :
    (ls : List Line) (width : ℕ) → All (λ l. l.kind ≢ gap) ls → SingleGaps (condense ls width)
unfolding condense
condense-SingleGaps ls width h = condense_from-SingleGaps ls 0 _ false h
