-- ===== src/Yaml/Diff/Align.antt =====
-- longestCommon of YamlDiff.ts: the pairs that the table gives are a longest common subsequence.
use kubiq.Base.{
  ℕ, zero, suc, ◌+◌, max, ◌≤◌, ◌<◌, ◌≡◌, refl, ◌∙◌, inl, inr, true, false, ◌&&◌, Bool-cases, List,
  [], ◌∷◌, arith, ltb, leb, Text, text_eq, text_eq_iff, length, get_or, drop, replicate,
}
use kubiq.Yaml.Diff.{at, cell, table, table_row, trace, longest_common}

-- The length of a longest common subsequence, by the plain recurrence.
unfoldable pub lcs : List Text → List Text → ℕ
lcs [] right = 0
lcs (x ∷ xs) [] = 0
lcs (x ∷ xs) (y ∷ ys) = elim (text_eq x y) [
  | true ↦ suc (lcs xs ys)
  | false ↦ max (lcs xs (y ∷ ys)) (lcs (x ∷ xs) ys)
]

-- `zs` is a subsequence of `xs`.
pub data Subseq : List Text → List Text → Type 0 where
  done : Subseq [] []
  skip : {zs xs : List Text} (x : Text) → Subseq zs xs → Subseq zs (x ∷ xs)
  keep : {zs xs : List Text} (x : Text) → Subseq zs xs → Subseq (x ∷ zs) (x ∷ xs)

pub lcs-nil : (xs : List Text) → lcs xs [] ≡ 0
unfolding lcs
lcs-nil [] = refl
lcs-nil (x ∷ xs) = refl

get_or-replicate : (n i : ℕ) → ◌≡◌ {A = ℕ} (get_or (replicate n 0) i 0) 0
get_or-replicate zero i = refl
get_or-replicate (suc n) zero = refl
get_or-replicate (suc n) (suc i) = get_or-replicate n i

get_or-drop_one : (xs : List ℕ) (i : ℕ) → get_or (drop 1 xs) i 0 ≡ get_or xs (suc i) 0
get_or-drop_one [] i = refl
get_or-drop_one (x ∷ xs) i = refl

drop-nil : (n : ℕ) → drop {A = Text} n [] ≡ []
drop-nil zero = refl
drop-nil (suc n) = refl

-- One row of the table holds the values of the recurrence, if the row below does.
table_row-lcs :
    (x : Text) (xs ys : List Text) (below : List ℕ)
    → ((j : ℕ) → get_or below j 0 ≡ lcs xs (drop j ys))
    → (j : ℕ) → get_or (table_row x ys below) j 0 ≡ lcs (x ∷ xs) (drop j ys)
unfolding table_row lcs
table_row-lcs x xs [] below h zero = refl
table_row-lcs x xs [] below h (suc j) = refl
table_row-lcs x xs (y ∷ ys) below h zero =
    let diagonal : get_or below 1 0 ≡ lcs xs ys = h 1 in
    let along = table_row-lcs x xs ys (drop 1 below) (λ k. get_or-drop_one below k ∙ h (suc k)) 0 in
    elim (Bool-cases (text_eq x y)) [
      | inl same ↦ rw (same, lcs) (omega (arith, diagonal))
      | inr other ↦ rw (other, lcs, h 0, along)
    ]
table_row-lcs x xs (y ∷ ys) below h (suc j) =
    table_row-lcs x xs ys (drop 1 below) (λ k. get_or-drop_one below k ∙ h (suc k)) j

pub table-lcs :
    (left right : List Text) (i j : ℕ)
    → cell (table left right) i j ≡ lcs (drop i left) (drop j right)
unfolding table lcs
table-lcs [] right zero j = get_or-replicate (suc (length right)) j
table-lcs [] right (suc i) j = refl
table-lcs (x ∷ xs) right zero j =
    table_row-lcs x xs right (get_or (table xs right) 0 []) (table-lcs xs right 0) j
table-lcs (x ∷ xs) right (suc i) j = table-lcs xs right i j

-- What the walk pushes: rising positions in both documents, at equal lines.
abbrev pub Aligned : List Text → List Text → ℕ → ℕ → List (ℕ × ℕ) → Type 0
Aligned left right i j [] = Unit
Aligned left right i j ((p, q) ∷ rest) =
    (i ≤ p)
    × (j ≤ q)
    × (p < length left)
    × (q < length right)
    × (at left p ≡ at right q)
    × Aligned left right (p + 1) (q + 1) rest

-- Starting earlier is no obstacle.
Aligned-le :
    (left right : List Text) (i j i' j' : ℕ) (ps : List (ℕ × ℕ))
    → i' ≤ i
    → j' ≤ j
    → Aligned left right i j ps
    → Aligned left right i' j' ps
Aligned-le left right i j i' j' [] hi hj a = tt
Aligned-le left right i j i' j' ((p, q) ∷ rest) hi hj a =
    (omega arith, omega arith, a.2, a.3, a.4, a.5)

pub in_range : (i j m n : ℕ) → (ltb i m && ltb j n) ≡ true → (i < m) × (j < n)
in_range i j m n h = ground arith

trace-Aligned :
    (rounds i j : ℕ) (left right : List Text) (rows : List (List ℕ))
    → Aligned left right i j (trace rounds i j left right rows)
unfolding trace
trace-Aligned zero i j left right rows = tt
trace-Aligned (suc rounds) i j left right rows =
    elim (Bool-cases (ltb i (length left) && ltb j (length right))) [
      | inr out ↦ rw (out, trace) tt
      | inl within ↦ elim (Bool-cases (text_eq (at left i) (at right j))) [
        | inl same ↦
            let (hi, hj) = in_range i j (length left) (length right) within in
            rw (within, same, trace)
              (
                omega arith,
                omega arith,
                hi,
                hj,
                (text_eq_iff _ _).0 same,
                trace-Aligned rounds (i + 1) (j + 1) left right rows,
              )
        | inr other ↦ elim (Bool-cases (leb (cell rows i (j + 1)) (cell rows (i + 1) j))) [
          | inl down ↦
              rw (within, other, down, trace)
                (Aligned-le left right (i + 1) j i j _ (omega arith) (omega arith)
                  (trace-Aligned rounds (i + 1) j left right rows))
          | inr along ↦
              rw (within, other, along, trace)
                (Aligned-le left right i (j + 1) i j _ (omega arith) (omega arith)
                  (trace-Aligned rounds i (j + 1) left right rows))
        ]
      ]
    ]

pub longest_common-Aligned :
    (left right : List Text) → Aligned left right 0 0 (longest_common left right)
unfolding longest_common
longest_common-Aligned left right = trace-Aligned _ 0 0 left right _
