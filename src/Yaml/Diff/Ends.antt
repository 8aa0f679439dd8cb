-- ===== src/Yaml/Diff/Ends.antt =====
-- commonPrefix and commonSuffix of YamlDiff.ts: what the two counts say of the documents.
use kubiq.Base.{
  ℕ, zero, suc, ◌+◌, ◌-◌, min, ◌≤◌, ◌<◌, ◌≡◌, inl, inr, Bool-cases, List, arith, Text, text_eq,
  text_eq_iff, length, subst, dec_lt,
}
use kubiq.Yaml.Diff.{at, prefix_from, common_prefix, suffix_from, common_suffix}

-- The first `n` lines agree.
abbrev pub AgreeBelow : ℕ → List Text → List Text → Type 0
AgreeBelow n left right = (i : ℕ) → i < n → at left i ≡ at right i

-- The last `n` lines agree.
abbrev pub AgreeAbove : ℕ → List Text → List Text → Type 0
AgreeAbove n left right =
    (k : ℕ) → k < n → at left (length left - 1 - k) ≡ at right (length right - 1 - k)

-- A fact of every number below `count`, and of `count`.
extend :
    (P : ℕ → Type 0) (count : ℕ)
    → ((i : ℕ) → i < count → P i)
    → P count
    → (i : ℕ) → i < count + 1
    → P i
extend P count h p i hi = elim (dec_lt i count) [
  | yes below ↦ h i below
  | no above ↦ let e : count ≡ i = omega arith in subst P e p
]

prefix_from_lem :
    (rounds count : ℕ) (left right : List Text)
    → AgreeBelow count left right
    → (prefix_from rounds count left right ≤ count + rounds)
      × AgreeBelow (prefix_from rounds count left right) left right
unfolding prefix_from
prefix_from_lem zero count left right h = (omega arith, h)
prefix_from_lem (suc rounds) count left right h =
    elim (Bool-cases (text_eq (at left count) (at right count))) [
      | inl same ↦
          let agree = extend (λ i. at left i ≡ at right i) count h ((text_eq_iff _ _).0 same) in
          let (bound, all) = prefix_from_lem rounds (count + 1) left right agree in
          rw same (omega arith, all)
      | inr other ↦ rw other (omega arith, h)
    ]

suffix_from_lem :
    (rounds count : ℕ) (left right : List Text)
    → AgreeAbove count left right
    → (suffix_from rounds count left right ≤ count + rounds)
      × AgreeAbove (suffix_from rounds count left right) left right
unfolding suffix_from
suffix_from_lem zero count left right h = (omega arith, h)
suffix_from_lem (suc rounds) count left right h =
    elim (Bool-cases
      (text_eq (at left (length left - 1 - count)) (at right (length right - 1 - count)))) [
        | inl same ↦
            let agree =
              extend (λ k. at left (length left - 1 - k) ≡ at right (length right - 1 - k)) count h
                ((text_eq_iff _ _).0 same) in
            let (bound, all) = suffix_from_lem rounds (count + 1) left right agree in
            rw same (omega arith, all)
        | inr other ↦ rw other (omega arith, h)
      ]

pub common_prefix_lem :
    (left right : List Text)
    → (common_prefix left right ≤ min (length left) (length right))
      × AgreeBelow (common_prefix left right) left right
unfolding common_prefix
common_prefix_lem left right =
    let (bound, all) =
      prefix_from_lem (min (length left) (length right)) 0 left right (λ i hi. elim hi [ ]) in
    (omega arith, all)

pub common_suffix_lem :
    (left right : List Text) (head : ℕ)
    → (common_suffix left right head ≤ min (length left) (length right) - head)
      × AgreeAbove (common_suffix left right head) left right
unfolding common_suffix
common_suffix_lem left right head =
    let (bound, all) =
      suffix_from_lem (min (length left) (length right) - head) 0 left right
        (λ k hk. elim hk [ ]) in
    (omega arith, all)
