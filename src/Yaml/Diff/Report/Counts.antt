-- ===== src/Yaml/Diff/Report/Counts.antt =====
-- summary and hasChanges of YamlDiff.ts, for the diffs that compare makes.
use kubiq.Base.{
  ℕ, zero, suc, ◌+◌, ◌-◌, min, ◌≡◌, refl, sym, ap, ◌∙◌, ◌↔◌, false, ◌||◌, List, [], ◌∷◌, ◌++◌,
  arith, Text, text_eq_refl, length, length-take, length-drop, take, build, build-shift,
  build_congr, length-build,
}
use kubiq.Yaml.Diff.{
  Kind, context, Line, at, compare, prefix_from, common_prefix, common_suffix, suffix_from,
  align_middle, slice,
}
use kubiq.Yaml.Diff.Views.{left_view, right_view}
use kubiq.Yaml.Diff.Rebuild.{entry, entries, compare_rebuilds}
use kubiq.Yaml.Diff.Report.{count_kind, summary, has_changes}

length-views :
    (ls : List Line)
    → length (left_view ls) + count_kind Kind.added ls
      ≡ length (right_view ls) + count_kind Kind.removed ls
unfolding count_kind
length-views [] = refl
length-views (l ∷ ls) = ground (arith, length-views ls)

-- The added lines of a diff and the lines of the left document are as many as the removed ones and
-- the lines of the right document.
pub summary_balance :
    (left right : List Text)
    → length left + (summary (compare left right)).added
      ≡ length right + (summary (compare left right)).removed
unfolding summary
summary_balance left right =
    let (l, r) = compare_rebuilds left right in
    let n = ap length l ∙ length-build (length left) 0 (entry left) in
    let m = ap length r ∙ length-build (length right) 0 (entry right) in
    omega (arith, length-views (compare left right))

texts : List (ℕ × Text) → List Text
texts [] = []
texts ((n, s) ∷ r) = s ∷ texts r

texts-build : (n k : ℕ) (f : ℕ → ℕ × Text) → texts (build n k f) ≡ build n k (λ i. (f i).1)
unfolding texts
texts-build zero k f = refl
texts-build (suc n) k f = ap (λ r. (f k).1 ∷ r) (texts-build n (k + 1) f)

build-at : (xs : List Text) → build (length xs) 0 (at xs) ≡ xs
build-at [] = refl
build-at (x ∷ xs) =
    let shift = build-shift (length xs) 0 1 (at (x ∷ xs)) in
    let one : 0 + 1 ≡ 1 = refl in
    ap (λ r. x ∷ r)
      (shift
        ∙ build_congr (length xs) 0 (λ i. at (x ∷ xs) (i + 1)) (at xs)
            (λ i lo hi. let e : i + 1 ≡ suc i = omega arith in rw e)
        ∙ build-at xs)

texts-entries : (xs : List Text) → texts (entries xs) ≡ xs
texts-entries xs = texts-build (length xs) 0 (entry xs) ∙ build-at xs

texts-views :
    (ls : List Line) → has_changes ls ≡ false → texts (left_view ls) ≡ texts (right_view ls)
unfolding has_changes texts
texts-views [] h = refl
texts-views (l ∷ ls) h = ground (arith, texts-views ls)

prefix_from_self :
    (rounds count : ℕ) (xs : List Text) → prefix_from rounds count xs xs ≡ count + rounds
unfolding prefix_from
prefix_from_self zero count xs = omega arith
prefix_from_self (suc rounds) count xs =
    rw (text_eq_refl (at xs count)) (omega (arith, prefix_from_self rounds (count + 1) xs))

has_changes-build :
    (n k : ℕ) (f : ℕ → Line) → ((i : ℕ) → (f i).kind ≡ context) → has_changes (build n k f) ≡ false
unfolding has_changes
has_changes-build zero k f h = refl
has_changes-build (suc n) k f h = rw (h k) (has_changes-build n (k + 1) f h)

has_changes-append :
    (xs ys : List Line) → has_changes (xs ++ ys) ≡ (has_changes xs || has_changes ys)
unfolding has_changes
has_changes-append [] ys = refl
has_changes-append (l ∷ ls) ys = ground (arith, has_changes-append ls ys)

align_middle_self : (xs : List Text) → align_middle xs xs (length xs) 0 ≡ []
unfolding align_middle
align_middle_self xs =
    let none : length (slice xs (length xs) (length xs - 0)) ≡ 0 =
      omega (
        arith,
        length-drop (length xs) (take (length xs - 0) xs),
        length-take (length xs - 0) xs,
      ) in
    rw (none, align_middle)

compare_self : (xs : List Text) → has_changes (compare xs xs) ≡ false
unfolding compare common_prefix common_suffix suffix_from has_changes
compare_self xs =
    let full : min (length xs) (length xs) ≡ length xs = omega arith in
    let rest : length xs - length xs ≡ 0 = omega arith in
    let whole : prefix_from (length xs) 0 xs xs ≡ length xs =
      omega (arith, prefix_from_self (length xs) 0 xs) in
    rw (full, whole, rest, align_middle_self xs)
      (has_changes-append (build (length xs) 0 _) _
        ∙ ap (λ b. b || false) (has_changes-build (length xs) 0 _ (λ i. refl)))

-- A diff that compare makes has no changes exactly when the two documents are equal.
pub has_changes_iff :
    (left right : List Text) → (has_changes (compare left right) ≡ false) ↔ (left ≡ right)
has_changes_iff left right =
    let (l, r) = compare_rebuilds left right in
    (
      λ h.
          sym (texts-entries left)
          ∙ ap texts (sym l)
          ∙ texts-views (compare left right) h
          ∙ ap texts r
          ∙ texts-entries right,
      λ e. rw e (compare_self right),
    )
