-- ===== src/Yaml/Diff/Rebuild.antt =====
-- compare of YamlDiff.ts: the diff shows every line of both documents, once and in order.
use kubiq.Base.{
  ℕ, zero, suc, ◌+◌, ◌-◌, min, ◌≤◌, ◌<◌, ◌≡◌, refl, sym, ap, ap₂, ◌∙◌, inl, inr, Bool, true, false,
  ◌&&◌, Bool-cases, List, [], ◌∷◌, ◌++◌, arith, ◌==◌, if◌then◌else◌, Text, length, length-take,
  length-drop, take, drop, build, build-append, build-shift, build_congr,
}
use kubiq.Yaml.Diff.{
  Line, line, context, at, common_prefix, common_suffix, longest_common, walk, is_alignable, slice,
  align_middle, compare,
}
use kubiq.Yaml.Diff.Ends.{AgreeAbove, common_prefix_lem, common_suffix_lem}
use kubiq.Yaml.Diff.Align.{Aligned, longest_common-Aligned}
use kubiq.Yaml.Diff.Views.{
  left_view, right_view, left_view-append, right_view-append, left_view-build, right_view-build,
  left_view-walk_from, right_view-walk_from, numbered,
}

-- Line `k` of a document with its number.
abbrev pub entry : List Text → ℕ → ℕ × Text
entry xs k = (k + 1, at xs k)

-- Every line of a document with its number.
abbrev pub entries : List Text → List (ℕ × Text)
entries xs = build (length xs) 0 (entry xs)

at-drop : (n : ℕ) (xs : List Text) (k : ℕ) → at (drop n xs) k ≡ at xs (k + n)
at-drop zero xs k = let e : k + 0 ≡ k = omega arith in rw e
at-drop (suc n) [] k = refl
at-drop (suc n) (x ∷ xs) k = let e : k + suc n ≡ suc (k + n) = omega arith in rw e (at-drop n xs k)

at-take : (n : ℕ) (xs : List Text) (k : ℕ) → k < n → at (take n xs) k ≡ at xs k
at-take zero xs k h = elim h [ ]
at-take (suc n) [] k h = refl
at-take (suc n) (x ∷ xs) zero h = refl
at-take (suc n) (x ∷ xs) (suc k) h = at-take n xs k (omega arith)

length-slice :
    (xs : List Text) (from to : ℕ) → length (slice xs from to) ≡ min to (length xs) - from
length-slice xs from to = omega (arith, length-drop from (take to xs), length-take to xs)

numbered-slice :
    (xs : List Text) (from to : ℕ)
    → to ≤ length xs
    → numbered (slice xs from to) from (length (slice xs from to)) 0
      ≡ build (to - from) from (entry xs)
numbered-slice xs from to h =
    let n : length (slice xs from to) ≡ to - from = omega (arith, length-slice xs from to) in
    let z : 0 + from ≡ from = omega arith in
    rw n (
      build_congr (to - from) 0 _ (λ k. entry xs (k + from))
        (λ k lo hi.
          ap₂ (λ a (b : Text). (a, b)) (omega arith)
            (at-drop from (take to xs) k ∙ at-take to xs (k + from) (omega arith)))
      ∙ sym (build-shift (to - from) 0 from (entry xs))
      ∙ ap (λ a. build (to - from) a (entry xs)) z)

-- A head, a middle and a tail make the whole.
join :
    (n h t : ℕ) (e : ℕ → ℕ × Text)
    → h + t ≤ n
    → build h 0 e ++ (build (n - t - h) h e ++ build t (n - t) e) ≡ build n 0 e
join n h t e le =
    let total : h + ((n - t - h) + t) ≡ n = omega arith in
    ap (λ r. build h 0 e ++ r) (build-append (n - t - h) t h (n - t) e (omega arith))
    ∙ build-append h ((n - t - h) + t) 0 h e (omega arith)
    ∙ ap (λ m. build m 0 e) total

Aligned-or_none :
    (b : Bool) (left right : List Text)
    → Aligned left right 0 0 (if b then longest_common left right else [])
Aligned-or_none true left right = longest_common-Aligned left right
Aligned-or_none false left right = tt

both_empty : (m n : ℕ) → ((m == 0) && (n == 0)) ≡ true → (m ≡ 0) × (n ≡ 0)
both_empty m n h = ground arith

module _ (left right : List Text) (h t : ℕ) (bound : h + t ≤ min (length left) (length right)) where
  left_view-align_middle :
      left_view (align_middle left right h t) ≡ build (length left - t - h) h (entry left)
  unfolding align_middle walk
  left_view-align_middle =
      let l = slice left h (length left - t) in
      let r = slice right h (length right - t) in
      let n = length-slice left h (length left - t) in
      let z : length l - 0 ≡ length l = omega arith in
      elim (Bool-cases (length l == 0 && length r == 0)) [
        | inl e ↦
            let (zero_l, zero_r) = both_empty (length l) (length r) e in
            let m : length left - t - h ≡ 0 = omega arith in rw (e, align_middle, m)
        | inr e ↦
            rw (e, align_middle)
              (left_view-walk_from l r _ h 0 0
                  (Aligned-or_none (is_alignable (length l) (length r)) l r)
                ∙ ap (λ m. numbered l h m 0) z
                ∙ numbered-slice left h (length left - t) (omega arith))
      ]

  right_view-align_middle :
      right_view (align_middle left right h t) ≡ build (length right - t - h) h (entry right)
  unfolding align_middle walk
  right_view-align_middle =
      let l = slice left h (length left - t) in
      let r = slice right h (length right - t) in
      let n = length-slice right h (length right - t) in
      let z : length r - 0 ≡ length r = omega arith in
      elim (Bool-cases (length l == 0 && length r == 0)) [
        | inl e ↦
            let (zero_l, zero_r) = both_empty (length l) (length r) e in
            let m : length right - t - h ≡ 0 = omega arith in rw (e, align_middle, m)
        | inr e ↦
            rw (e, align_middle)
              (right_view-walk_from l r _ h 0 0
                  (Aligned-or_none (is_alignable (length l) (length r)) l r)
                ∙ ap (λ m. numbered r h m 0) z
                ∙ numbered-slice right h (length right - t) (omega arith))
      ]

  -- The lines after the middle; their text is the left document's.
  abbrev tail_line : ℕ → Line
  tail_line i =
      let left_number = length left - t + i + 1 in
      line context (at left (left_number - 1)) left_number (length right - t + i + 1)

  left_view-tail : left_view (build t 0 tail_line) ≡ build t (length left - t) (entry left)
  left_view-tail =
      let start : 0 + (length left - t) ≡ length left - t = omega arith in
      left_view-build t 0 tail_line (λ k. refl)
      ∙ build_congr t 0 _ (λ k. entry left (k + (length left - t)))
          (λ k lo hi. ap₂ (λ a (b : Text). (a, b)) (omega arith) (ap (at left) (omega arith)))
      ∙ sym (build-shift t 0 (length left - t) (entry left))
      ∙ ap (λ a. build t a (entry left)) start

  right_view-tail :
      AgreeAbove t left right
      → right_view (build t 0 tail_line) ≡ build t (length right - t) (entry right)
  right_view-tail agree =
      let start : 0 + (length right - t) ≡ length right - t = omega arith in
      right_view-build t 0 tail_line (λ k. refl)
      ∙ build_congr t 0 _ (λ k. entry right (k + (length right - t)))
          (λ k lo hi.
            ap₂ (λ a (b : Text). (a, b)) (omega arith)
              (ap (at left) (omega arith)
                ∙ agree (t - 1 - k) (omega arith)
                ∙ ap (at right) (omega arith)))
      ∙ sym (build-shift t 0 (length right - t) (entry right))
      ∙ ap (λ a. build t a (entry right)) start

-- The diff of two documents shows, on the left, every line of the left document with its number,
-- and on the right every line of the right one, each once and in order, whatever the documents.
pub compare_rebuilds :
    (left right : List Text)
    → (left_view (compare left right) ≡ entries left)
      × (right_view (compare left right) ≡ entries right)
unfolding compare
compare_rebuilds left right = (
  left_view-append (build h 0 _) _
      ∙ ap₂ ◌++◌ (left_view-build h 0 _ (λ k. refl)) (
          left_view-append (align_middle left right h t) _
          ∙ ap₂ ◌++◌ (left_view-align_middle left right h t bound)
              (left_view-tail left right h t bound))
      ∙ join (length left) h t (entry left) (omega (arith, bound)),
  right_view-append (build h 0 _) _
      ∙ ap₂ ◌++◌ (right_view-build h 0 _ (λ k. refl) ∙ same_head) (
          right_view-append (align_middle left right h t) _
          ∙ ap₂ ◌++◌ (right_view-align_middle left right h t bound)
              (right_view-tail left right h t bound (common_suffix_lem left right h).1))
      ∙ join (length right) h t (entry right) (omega (arith, bound)),
)
  where
    h : ℕ
    h = common_prefix left right

    t : ℕ
    t = common_suffix left right h

    bound : h + t ≤ min (length left) (length right)
    bound = omega (arith, (common_prefix_lem left right).0, (common_suffix_lem left right h).0)

    same_head : build h 0 (λ k. (k + 1, at left k)) ≡ build h 0 (entry right)
    same_head = build_congr h 0 _ _ (λ k lo hi.
        ap (λ (b : Text). (k + 1, b)) ((common_prefix_lem left right).1 k (omega arith)))
