-- ===== src/Resource/Filter.antt =====
-- frontend/src/components/resource/ResourceFilter.ts: what is typed above a list of resources, a text or
-- a label selector. The three regular expressions and `toLowerCase` are parameters, `trim` is
-- JavaScript's. The walk by characters goes by code units here, which differ for no character that it
-- looks for.
pub mod Trim
pub mod Round
mod Tests
use kubiq.Base.{
  ℕ, suc, ◌+◌, ◌-◌, Bool, true, false, ◌&&◌, ◌||◌, not, List, [], ◌∷◌, ◌++◌, Text, leb, ◌==◌,
  if◌then◌else◌,
}

-- The white space and line terminators of JavaScript.
unfoldable pub is_space : ℕ → Bool
is_space c =
    (leb 9 c && leb c 13)
    || c == 32
    || c == 160
    || c == 5760
    || (leb 8192 c && leb c 8202)
    || c == 8232
    || c == 8233
    || c == 8239
    || c == 8287
    || c == 12288
    || c == 65279

unfoldable pub trim_start : Text → Text
unfolding is_space
trim_start [] = []
trim_start (c ∷ s) = if is_space c then trim_start s else c ∷ s

abbrev pub is_empty : Text → Bool
is_empty [] = true
is_empty (c ∷ s) = false

unfoldable pub trim_end : Text → Text
unfolding is_space
trim_end [] = []
trim_end (c ∷ s) = let rest = trim_end s in if is_empty rest && is_space c then [] else c ∷ rest

unfoldable pub trim : Text → Text
unfolding trim_start trim_end
trim text = trim_end (trim_start text)

-- How deep the parentheses are behind a character.
abbrev pub depth_after : ℕ → ℕ → ℕ
depth_after character depth =
    if character == 40 then depth + 1 else if character == 41 then depth - 1 else depth

-- The loop of `split`, with its two variables.
unfoldable pub split_from : Text → ℕ → Text → List Text
unfolding trim
split_from current depth [] = trim current ∷ []
split_from current depth (character ∷ query) =
    let after = depth_after character depth in
    let next = split_from [] after query in
    let same = split_from (current ++ character ∷ []) after query in
    if character == 44 && after == 0 then trim current ∷ next else same

unfoldable pub all_filled : List Text → Bool
all_filled [] = true
all_filled (r ∷ rs) = not (is_empty r) && all_filled rs

unfoldable pub split : Text → List Text
unfolding split_from all_filled
split query =
    let requirements = split_from [] 0 query in if all_filled requirements then requirements else []

-- `join(',')`
unfoldable pub join : List Text → Text
join [] = []
join (r ∷ []) = r
join (r ∷ s ∷ rs) = r ++ 44 ∷ join (s ∷ rs)

unfoldable pub normalise : Text → Text
unfolding split join
normalise query = join (split query)

abbrev pub starts_with_bang : Text → Bool
starts_with_bang [] = false
starts_with_bang (c ∷ s) = c == 33

-- TResourceFilter
pub record Filter : Type 0 where
  pub text : Text
  pub label_selector : Text

module _ (equality set exists : Text → Bool) where
  -- The loop of `isLabelSelector`.
  unfoldable pub decisive_from : Bool → List Text → Bool
  decisive_from decisive [] = decisive
  decisive_from decisive (r ∷ rs) =
      let decided = decisive_from true rs in
      let kept = decisive_from (decisive || starts_with_bang r) rs in
      if equality r || set r then decided else if exists r then kept else false

  unfoldable pub is_label_selector : Text → Bool
  unfolding split decisive_from
  is_label_selector query = elim (split query) [
    | [] ↦ false
    | r ∷ rs ↦ decisive_from false (r ∷ rs)
  ]

  unfoldable pub parse : Text → Filter
  unfolding trim is_label_selector normalise
  parse query =
      let trimmed = trim query in
      if is_label_selector trimmed
      then record { text = []; label_selector = normalise trimmed }
      else record { text = trimmed; label_selector = [] }

-- `text.includes(part)`
pub starts_with : Text → Text → Bool
starts_with [] text = true
starts_with (c ∷ part) [] = false
starts_with (c ∷ part) (d ∷ text) = c == d && starts_with part text

pub contains : Text → Text → Bool
unfolding starts_with
contains part [] = is_empty part
contains part (c ∷ text) = starts_with part (c ∷ text) || contains part text

module _ {R : Type 0} (name : R → Text) (lower : Text → Text) where
  pub matches : R → Text → Bool
  unfolding contains
  matches row text = is_empty text || contains (lower text) (lower (name row))

  pub matching : List R → Text → List R
  unfolding matches
  matching [] text = []
  matching (row ∷ rows) text =
      if matches row text then row ∷ matching rows text else matching rows text

  pub apply : List R → Text → List R
  unfolding matching
  apply rows text = if is_empty text then rows else matching rows text
