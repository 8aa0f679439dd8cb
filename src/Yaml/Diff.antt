-- ===== src/Yaml/Diff.antt =====
-- frontend/src/application/services/resourceYaml/models/YamlDiff.ts: the line diff of two manifests.
pub mod Ends
pub mod Align
pub mod Views
pub mod Rebuild
pub mod Report
pub mod Longest
mod Tests
use kubiq.Base.{
  ℕ, zero, suc, ◌+◌, ◌-◌, min, max, ◌≡◌, refl, Bool, true, false, ◌&&◌, ◌||◌, List, [], ◌∷◌, ◌++◌,
  leb, ltb, ◌==◌, if◌then◌else◌, Text, text_eq, length, get_or, take, drop, replicate, build, codes,
}

pub data Kind : Type 0 where
  context added removed gap : Kind

pub record Line : Type 0 where
  pub kind : Kind
  pub text : Text
  pub left_number : ℕ
  pub right_number : ℕ

abbrev pub line : Kind → Text → ℕ → ℕ → Line
line kind text left_number right_number = record {
  kind = kind;
  text = text;
  left_number = left_number;
  right_number = right_number;
}

abbrev pub max_aligned_lines : ℕ
max_aligned_lines = 1200

-- `xs[i]`; the code below reads in range only.
abbrev pub at : List Text → ℕ → Text
at xs i = get_or xs i []

-- The rounds that `while (count < limit && …)` has left count down.
pub prefix_from : ℕ → ℕ → List Text → List Text → ℕ
prefix_from zero count left right = count
prefix_from (suc rounds) count left right =
    let more = prefix_from rounds (count + 1) left right in
    if text_eq (at left count) (at right count) then more else count

pub common_prefix : List Text → List Text → ℕ
common_prefix left right = prefix_from (min (length left) (length right)) 0 left right

pub suffix_from : ℕ → ℕ → List Text → List Text → ℕ
suffix_from zero count left right = count
suffix_from (suc rounds) count left right =
    let more = suffix_from rounds (count + 1) left right in
    if text_eq (at left (length left - 1 - count)) (at right (length right - 1 - count))
    then more
    else count

pub common_suffix : List Text → List Text → ℕ → ℕ
common_suffix left right head = suffix_from (min (length left) (length right) - head) 0 left right

-- Row `i` of the table from row `i + 1`, right to left; each row ends in the 0 of column `columns`.
pub table_row : Text → List Text → List ℕ → List ℕ
table_row x [] below = 0 ∷ []
table_row x (y ∷ ys) below =
    let rest = table_row x ys (drop 1 below) in
    (if text_eq x y then get_or below 1 0 + 1 else max (get_or below 0 0) (get_or rest 0 0)) ∷ rest

-- The rows from the bottom up; row `rows` is all 0.
pub table : List Text → List Text → List (List ℕ)
table [] right = replicate (suc (length right)) 0 ∷ []
table (x ∷ xs) right = let below = table xs right in table_row x right (get_or below 0 []) ∷ below

abbrev pub cell : List (List ℕ) → ℕ → ℕ → ℕ
cell rows i j = get_or (get_or rows i []) j 0

-- The walk through the table, at most `rows + columns` rounds.
pub trace : ℕ → ℕ → ℕ → List Text → List Text → List (List ℕ) → List (ℕ × ℕ)
trace zero i j left right rows = []
trace (suc rounds) i j left right rows = elim (ltb i (length left) && ltb j (length right)) [
  | false ↦ []
  | true ↦ elim (text_eq (at left i) (at right j)) [
    | true ↦ (i, j) ∷ trace rounds (i + 1) (j + 1) left right rows
    | false ↦ elim (leb (cell rows i (j + 1)) (cell rows (i + 1) j)) [
      | true ↦ trace rounds (i + 1) j left right rows
      | false ↦ trace rounds i (j + 1) left right rows
    ]
  ]
]

pub longest_common : List Text → List Text → List (ℕ × ℕ)
longest_common left right = trace (length left + length right) 0 0 left right (table left right)

-- `emit(untilLeft, untilRight)` from `(left_at, right_at)`.
pub emit : List Text → List Text → ℕ → ℕ → ℕ → ℕ → ℕ → List Line
emit left right offset left_at right_at until_left until_right =
    build (until_left - left_at) left_at (λ i. line removed (at left i) (offset + i + 1) 0)
    ++ build (until_right - right_at) right_at (λ i. line added (at right i) 0 (offset + i + 1))

pub walk_from : List Text → List Text → List (ℕ × ℕ) → ℕ → ℕ → ℕ → List Line
walk_from left right [] offset left_at right_at =
    emit left right offset left_at right_at (length left) (length right)
walk_from left right ((until_left, until_right) ∷ common) offset left_at right_at =
    let l = max left_at until_left in
    let r = max right_at until_right in
    emit left right offset left_at right_at until_left until_right
    ++ (line context (at left l) (offset + l + 1) (offset + r + 1)
        ∷ walk_from left right common offset (l + 1) (r + 1))

pub walk : List Text → List Text → List (ℕ × ℕ) → ℕ → List Line
walk left right common offset = walk_from left right common offset 0 0

pub is_alignable : ℕ → ℕ → Bool
is_alignable left_length right_length =
    leb left_length max_aligned_lines && leb right_length max_aligned_lines

-- `xs.slice(from, to)`
abbrev pub slice : List Text → ℕ → ℕ → List Text
slice xs from to = drop from (take to xs)

pub align_middle : List Text → List Text → ℕ → ℕ → List Line
align_middle left right head tail =
    let left_middle = slice left head (length left - tail) in
    let right_middle = slice right head (length right - tail) in
    let aligned =
      if is_alignable (length left_middle) (length right_middle)
      then longest_common left_middle right_middle
      else [] in
    elim (length left_middle == 0 && length right_middle == 0) [
      | true ↦ []
      | false ↦ walk left_middle right_middle aligned head
    ]

pub compare : List Text → List Text → List Line
compare left right =
    let head = common_prefix left right in
    let tail = common_suffix left right head in
    build head 0 (λ i. line context (at left i) (i + 1) (i + 1))
    ++ (align_middle left right head tail
        ++ build tail 0 (λ i.
          let left_number = length left - tail + i + 1 in
          line context (at left (left_number - 1)) left_number (length right - tail + i + 1)))

pub runs : Unit {0}
unfolding compare align_middle walk walk_from is_alignable longest_common trace table table_row emit
    common_prefix prefix_from common_suffix suffix_from text_eq
runs = tt
