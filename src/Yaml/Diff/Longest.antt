-- ===== src/Yaml/Diff/Longest.antt =====
-- longestCommon of YamlDiff.ts: no common subsequence is longer than the pairs it returns.
use kubiq.Base.{
  ℕ, zero, suc, ◌+◌, ◌-◌, max, ◌≤◌, ◌<◌, ◌≡◌, refl, sym, ap, ◌∙◌, ◌⊎◌, inl, inr, true, false, ◌&&◌,
  Bool-cases, List, [], ◌∷◌, arith, ltb, leb, leb→le, leb-false, Text, text_eq, text_eq_refl,
  length, drop,
}
use kubiq.Yaml.Diff.{at, cell, table, trace, longest_common}
use kubiq.Yaml.Diff.Align.{
  lcs, lcs-nil, Subseq, done, skip, keep, table-lcs, in_range, Aligned, longest_common-Aligned,
}

drop-at : (xs : List Text) (i : ℕ) → i < length xs → drop i xs ≡ at xs i ∷ drop (i + 1) xs
drop-at [] i h = elim h [ ]
drop-at (x ∷ xs) zero h = refl
drop-at (x ∷ xs) (suc i) h =
    let e : suc i + 1 ≡ suc (i + 1) = omega arith in rw e (drop-at xs i (omega arith))

drop_past : (xs : List Text) (i : ℕ) → length xs ≤ i → drop i xs ≡ []
drop_past [] zero h = refl
drop_past [] (suc i) h = refl
drop_past (x ∷ xs) zero h = elim h [ ]
drop_past (x ∷ xs) (suc i) h = drop_past xs i (omega arith)

module _ (left right : List Text) (i j : ℕ) where
  lcs_same :
      i < length left
      → j < length right
      → text_eq (at left i) (at right j) ≡ true
      → lcs (drop i left) (drop j right) ≡ suc (lcs (drop (i + 1) left) (drop (j + 1) right))
  unfolding lcs
  lcs_same hi hj e = rw (drop-at left i hi, drop-at right j hj) (rw (e, lcs))

  lcs_other :
      i < length left
      → j < length right
      → text_eq (at left i) (at right j) ≡ false
      → lcs (drop i left) (drop j right)
        ≡ max (lcs (drop (i + 1) left) (drop j right)) (lcs (drop i left) (drop (j + 1) right))
  unfolding lcs
  lcs_other hi hj e = rw (drop-at left i hi, drop-at right j hj) (rw (e, lcs))

  out_of_range :
      (ltb i (length left) && ltb j (length right)) ≡ false → lcs (drop i left) (drop j right) ≡ 0
  unfolding lcs
  out_of_range h = elim (Bool-cases (ltb i (length left))) [
    | inr high ↦ rw (drop_past left i (ground arith))
    | inl low ↦ rw (drop_past right j (ground arith)) (lcs-nil (drop i left))
  ]

length-trace :
    (left right : List Text) (rounds i j : ℕ)
    → (length left - i) + (length right - j) ≤ rounds
    → length (trace rounds i j left right (table left right)) ≡ lcs (drop i left) (drop j right)
unfolding trace
length-trace left right zero i j h = ground (arith, out_of_range left right i j)
length-trace left right (suc rounds) i j h =
    elim (Bool-cases (ltb i (length left) && ltb j (length right))) [
      | inr out ↦ rw (out, trace) (sym (out_of_range left right i j out))
      | inl within ↦
          let (hi, hj) = in_range i j (length left) (length right) within in
          elim (Bool-cases (text_eq (at left i) (at right j))) [
            | inl same ↦
                rw (within, same, trace)
                  (ap suc (length-trace left right rounds (i + 1) (j + 1) (omega arith))
                    ∙ sym (lcs_same left right i j hi hj same))
            | inr other ↦
                rest hi hj within other (length-trace left right rounds (i + 1) j (omega arith))
                  (length-trace left right rounds i (j + 1) (omega arith))
          ]
    ]
  where
    rows : List (List ℕ)
    rows = table left right

    rest :
        i < length left
        → j < length right
        → (ltb i (length left) && ltb j (length right)) ≡ true
        → text_eq (at left i) (at right j) ≡ false
        → length (trace rounds (i + 1) j left right (table left right))
          ≡ lcs (drop (i + 1) left) (drop j right)
        → length (trace rounds i (j + 1) left right (table left right))
          ≡ lcs (drop i left) (drop (j + 1) right)
        → length (trace (suc rounds) i j left right (table left right))
          ≡ lcs (drop i left) (drop j right)
    rest hi hj within other down along =
        let split = lcs_other left right i j hi hj other in
        let below = table-lcs left right (i + 1) j in
        let beside = table-lcs left right i (j + 1) in
        elim (Bool-cases (leb (cell rows i (j + 1)) (cell rows (i + 1) j))) [
          | inl e ↦ rw (within, other, e, trace) (omega (arith, leb→le _ _ e))
          | inr e ↦ rw (within, other, e, trace) (omega (arith, leb-false _ _ e))
        ]

Subseq-behind : {z : Text} {zs xs : List Text} → Subseq (z ∷ zs) xs → Subseq zs xs
Subseq-behind (skip x s) = skip x (Subseq-behind s)
Subseq-behind (keep x s) = skip x s

Subseq-tail : {z x : Text} {zs xs : List Text} → Subseq (z ∷ zs) (x ∷ xs) → Subseq zs xs
Subseq-tail (skip x s) = Subseq-behind s
Subseq-tail (keep x s) = s

-- Where the first lines differ, a common subsequence leaves one of them out.
differ :
    {x y : Text} {zs xs ys : List Text}
    → text_eq x y ≡ false
    → Subseq zs (x ∷ xs)
    → Subseq zs (y ∷ ys)
    → Subseq zs xs ⊎ Subseq zs ys
differ e (skip x s) t = inl s
differ e (keep x s) (skip y t) = inr t
differ e (keep x s) (keep y t) = cc (text_eq_refl x)

pub length-le-lcs : (xs ys zs : List Text) → Subseq zs xs → Subseq zs ys → length zs ≤ lcs xs ys
unfolding lcs
length-le-lcs [] ys zs done t = omega arith
length-le-lcs (x ∷ xs) [] zs s done = omega arith
length-le-lcs (x ∷ xs) (y ∷ ys) [] s t = omega arith
length-le-lcs (x ∷ xs) (y ∷ ys) (z ∷ zs) s t = elim (Bool-cases (text_eq x y)) [
  | inl same ↦
      rw (same, lcs) (omega (arith, length-le-lcs xs ys zs (Subseq-tail s) (Subseq-tail t)))
  | inr other ↦
      rw (other, lcs)
        (elim (differ other s t) [
          | inl s' ↦ omega (arith, length-le-lcs xs (y ∷ ys) (z ∷ zs) s' t)
          | inr t' ↦ omega (arith, length-le-lcs (x ∷ xs) ys (z ∷ zs) s t')
        ])
]

-- The pairs of `longest_common` rise in both documents and stand at equal lines, and there are as
-- many of them as lines in any common subsequence, or more. No bound on the documents is needed.
pub longest_common_optimal :
    (left right : List Text)
    → Aligned left right 0 0 (longest_common left right)
      × ((zs : List Text)
          → Subseq zs left
          → Subseq zs right
          → length zs ≤ length (longest_common left right))
unfolding longest_common
longest_common_optimal left right = (
  longest_common-Aligned left right,
  λ zs s t. omega (
    arith,
    length-le-lcs left right zs s t,
    length-trace left right (length left + length right) 0 0 (omega arith),
  ),
)
