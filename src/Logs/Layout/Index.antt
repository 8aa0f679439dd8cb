-- ===== src/Logs/Layout/Index.antt =====
-- offsets, indexAt and window of PodLogLayout.ts: the window holds every line in the viewport.
use kubiq.Base.{
  ℕ, zero, suc, ◌+◌, ◌-◌, ◌*◌, if◌then◌else◌, min, ◌≤◌, ◌<◌, ◌≡◌, refl, Bool, List, [], ◌∷◌, arith,
  length, get_or,
}
use kubiq.Logs.Layout.{ceil_div, rows_of, offsets_from, offsets, search_index, index_at, window}

-- The offsets never fall.
abbrev pub IsRising : List ℕ → Type 0
IsRising offs = (i j : ℕ) → i ≤ j → j < length offs → get_or offs i 0 ≤ get_or offs j 0

-- The search ends at the last line that starts at `position` or above it.
search_index_lem :
    (rounds : ℕ) (offs : List ℕ) (position low high : ℕ)
    → high ≤ low + rounds
    → low ≤ high
    → get_or offs low 0 ≤ position
    → (low ≤ search_index rounds offs position low high)
      × (search_index rounds offs position low high ≤ high)
      × (get_or offs (search_index rounds offs position low high) 0 ≤ position)
unfolding search_index
search_index_lem zero offs position low high h le p = (omega arith, le, p)
search_index_lem (suc rounds) offs position low high h le p = ground (
  arith,
  search_index_lem rounds offs position (ceil_div (low + high) 2) high,
  search_index_lem rounds offs position low (ceil_div (low + high) 2 - 1),
)

-- Every line behind the result, up to `high`, starts below `position`.
search_index_last :
    (rounds : ℕ) (offs : List ℕ) (position low high k : ℕ)
    → IsRising offs
    → high < length offs
    → high ≤ low + rounds
    → low ≤ high
    → search_index rounds offs position low high < k
    → k ≤ high
    → position < get_or offs k 0
unfolding search_index
search_index_last zero offs position low high k r b h le lo hi = absurd (omega arith)
search_index_last (suc rounds) offs position low high k r b h le lo hi = ground (
  arith,
  search_index_last rounds offs position (ceil_div (low + high) 2) high k r b,
  search_index_last rounds offs position low (ceil_div (low + high) 2 - 1) k r,
  r (ceil_div (low + high) 2) k,
)

index_at_lem :
    (offs : List ℕ) (position : ℕ)
    → 2 ≤ length offs
    → get_or offs 0 0 ≤ position
    → (index_at offs position ≤ length offs - 2)
      × (get_or offs (index_at offs position) 0 ≤ position)
unfolding index_at
index_at_lem offs position n p = ground (
  arith,
  search_index_lem (length offs - 2) offs position 0 (length offs - 2) (omega arith) (omega arith)
      p,
)

index_at_last :
    (offs : List ℕ) (position k : ℕ)
    → IsRising offs
    → 2 ≤ length offs
    → index_at offs position < k
    → k ≤ length offs - 2
    → position < get_or offs k 0
unfolding index_at
index_at_last offs position k r n lo hi = ground (
  arith,
  search_index_last (length offs - 2) offs position 0 (length offs - 2) k r (omega arith)
      (omega arith) (omega arith),
)

offsets_from-ge :
    (at : ℕ) (ws : List ℕ) (h c : ℕ) (wrap : Bool) (i : ℕ)
    → i < length (offsets_from at ws h c wrap)
    → at ≤ get_or (offsets_from at ws h c wrap) i 0
unfolding offsets_from
offsets_from-ge at [] h c wrap zero lt = omega arith
offsets_from-ge at [] h c wrap (suc i) lt = absurd (omega arith)
offsets_from-ge at (w ∷ ws) h c wrap zero lt = omega arith
offsets_from-ge at (w ∷ ws) h c wrap (suc i) lt = omega (
  arith,
  offsets_from-ge (at + (if wrap then rows_of w c else 1) * h) ws h c wrap i (omega arith),
)

offsets_from-IsRising :
    (at : ℕ) (ws : List ℕ) (h c : ℕ) (wrap : Bool) → IsRising (offsets_from at ws h c wrap)
unfolding offsets_from
offsets_from-IsRising at [] h c wrap zero zero le lt = omega arith
offsets_from-IsRising at [] h c wrap i (suc j) le lt = absurd (omega arith)
offsets_from-IsRising at [] h c wrap (suc i) zero le lt = absurd (omega arith)
offsets_from-IsRising at (w ∷ ws) h c wrap zero zero le lt = omega arith
offsets_from-IsRising at (w ∷ ws) h c wrap zero (suc j) le lt = omega (
  arith,
  offsets_from-ge (at + (if wrap then rows_of w c else 1) * h) ws h c wrap j (omega arith),
)
offsets_from-IsRising at (w ∷ ws) h c wrap (suc i) zero le lt = absurd (omega arith)
offsets_from-IsRising at (w ∷ ws) h c wrap (suc i) (suc j) le lt =
    offsets_from-IsRising (at + (if wrap then rows_of w c else 1) * h) ws h c wrap i j (omega arith)
      (omega arith)

length-offsets_from :
    (at : ℕ) (ws : List ℕ) (h c : ℕ) (wrap : Bool)
    → length (offsets_from at ws h c wrap) ≡ length ws + 1
unfolding offsets_from
length-offsets_from at [] h c wrap = omega arith
length-offsets_from at (w ∷ ws) h c wrap =
    omega (arith, length-offsets_from (at + (if wrap then rows_of w c else 1) * h) ws h c wrap)

offsets_from_first :
    (at : ℕ) (ws : List ℕ) (h c : ℕ) (wrap : Bool) → get_or (offsets_from at ws h c wrap) 0 0 ≡ at
unfolding offsets_from
offsets_from_first at [] h c wrap = refl
offsets_from_first at (w ∷ ws) h c wrap = refl

window_covers_rising :
    (offs : List ℕ) (scroll_top viewport_height overscan k : ℕ)
    → IsRising offs
    → 2 ≤ length offs
    → get_or offs 0 0 ≡ 0
    → k ≤ length offs - 2
    → get_or offs k 0 ≤ min scroll_top (get_or offs (length offs - 1) 0) + viewport_height
    → min scroll_top (get_or offs (length offs - 1) 0) < get_or offs (k + 1) 0
    → ((window offs scroll_top viewport_height overscan).start ≤ k)
      × (k < (window offs scroll_top viewport_height overscan).end)
unfolding window
window_covers_rising offs scroll_top viewport_height overscan k r n z inside above below =
    let top = min scroll_top (get_or offs (length offs - 1) 0) in
    let bottom = top + viewport_height in
    ground (
      arith,
      index_at_lem offs top n (omega arith),
      index_at_lem offs bottom n (omega arith),
      index_at_last offs bottom k r n,
      r (k + 1) (index_at offs top),
    )

-- Where line `k` starts, and the scroll position held to the total height.
abbrev pub line_top : List ℕ → ℕ → ℕ → Bool → ℕ → ℕ
line_top widths row_height columns wrap k = get_or (offsets widths row_height columns wrap) k 0

abbrev pub held_top : List ℕ → ℕ → ℕ → Bool → ℕ → ℕ
held_top widths row_height columns wrap scroll_top =
    let offs = offsets widths row_height columns wrap in
    min scroll_top (get_or offs (length offs - 1) 0)

-- Every line that shows in the viewport lies in the window: with any lines, row height above or
-- equal to 0, wrapping and overscan, and the scroll position held to the total height, a line that
-- starts no lower than the bottom edge and ends below the top edge is from `start` on, and before
-- `end`.
pub window_covers :
    (widths : List ℕ) (row_height columns : ℕ) (wrap : Bool)
    (scroll_top viewport_height overscan k : ℕ)
    → k < length widths
    → line_top widths row_height columns wrap k
      ≤ held_top widths row_height columns wrap scroll_top + viewport_height
    → held_top widths row_height columns wrap scroll_top
      < line_top widths row_height columns wrap (k + 1)
    → ((window (offsets widths row_height columns wrap) scroll_top viewport_height overscan).start
        ≤ k)
      × (k
          < (window
              (offsets widths row_height columns wrap)
              scroll_top
              viewport_height
              overscan).end)
unfolding offsets
window_covers ws h c wrap scroll_top viewport_height overscan k inside above below =
    let n = length-offsets_from 0 ws h c wrap in
    window_covers_rising (offsets_from 0 ws h c wrap) scroll_top viewport_height overscan k
      (offsets_from-IsRising 0 ws h c wrap) (omega arith) (offsets_from_first 0 ws h c wrap)
      (omega arith) above below
