-- ===== src/Logs/Layout.antt =====
-- frontend/src/components/logs/PodLogLayout.ts: which log lines the viewport shows. Pixels are
-- natural numbers, and `width` is the display width of a line, which PodLogAnsi computes.
pub mod Index
mod Tests
use kubiq.Base.{
  ℕ, zero, suc, ◌+◌, ◌-◌, ◌*◌, ◌/◌, min, max, ◌≡◌, refl, Bool, true, false, ◌||◌, List, [], ◌∷◌,
  leb, ltb, ◌==◌, if◌then◌else◌, length, get_or,
}

-- `Math.ceil(a / b)` for `b > 0`
abbrev pub ceil_div : ℕ → ℕ → ℕ
ceil_div a b = (a + b - 1) / b

pub rows_of : ℕ → ℕ → ℕ
rows_of width columns = if columns == 0 || leb width columns then 1 else ceil_div width columns

-- `offsets` from the running sum; `widths` stands for the lines.
pub offsets_from : ℕ → List ℕ → ℕ → ℕ → Bool → List ℕ
unfolding rows_of
offsets_from at [] row_height columns wrap = at ∷ []
offsets_from at (width ∷ widths) row_height columns wrap =
    let rows = if wrap then rows_of width columns else 1 in
    at ∷ offsets_from (at + rows * row_height) widths row_height columns wrap

pub offsets : List ℕ → ℕ → ℕ → Bool → List ℕ
unfolding offsets_from
offsets = offsets_from 0

-- The binary search; each round at least halves `high - low`, so `high - low` rounds are enough.
pub search_index : ℕ → List ℕ → ℕ → ℕ → ℕ → ℕ
search_index zero offs position low high = low
search_index (suc rounds) offs position low high =
    let mid = ceil_div (low + high) 2 in
    let right = search_index rounds offs position mid high in
    let left = search_index rounds offs position low (mid - 1) in
    if ltb low high then (if leb (get_or offs mid 0) position then right else left) else low

pub index_at : List ℕ → ℕ → ℕ
unfolding search_index
index_at offs position =
    let high = length offs - 2 in if high == 0 then 0 else search_index high offs position 0 high

pub record Window : Type 0 where
  pub start : ℕ
  pub end : ℕ
  pub offset_top : ℕ
  pub total_height : ℕ

pub window : List ℕ → ℕ → ℕ → ℕ → Window
unfolding index_at
window offs scroll_top viewport_height overscan =
    let count = length offs - 1 in
    let total = get_or offs count 0 in
    let top = min scroll_top total in
    let start = index_at offs top - overscan in
    let end = min count (index_at offs (top + viewport_height) + 1 + overscan) in
    if count == 0
    then record { start = 0; end = 0; offset_top = 0; total_height = 0 }
    else record { start = start; end = end; offset_top = get_or offs start 0; total_height = total }

pub columns_for : ℕ → ℕ → ℕ → ℕ
columns_for width char_width fallback =
    if width == 0 || char_width == 0 then fallback else max 1 (width / char_width)
