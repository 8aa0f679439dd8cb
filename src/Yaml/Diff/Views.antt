-- ===== src/Yaml/Diff/Views.antt =====
-- What a diff of YamlDiff.ts shows of each document, and the same for the loops that push lines.
use kubiq.Base.{
  ℕ, zero, suc, ◌+◌, ◌-◌, max, ◌≤◌, ◌<◌, ◌≡◌, refl, ap, ap₂, ◌∙◌, Bool, true, false, List, [], ◌∷◌,
  ◌++◌, append-nil, arith, if◌then◌else◌, Text, length, build, build-append,
}
use kubiq.Yaml.Diff.{Kind, context, added, removed, Line, at, emit, walk_from}
use kubiq.Yaml.Diff.Align.{Aligned}

abbrev pub on_left : Kind → Bool
on_left context = true
on_left removed = true
on_left _ = false

abbrev pub on_right : Kind → Bool
on_right context = true
on_right added = true
on_right _ = false

-- The lines that stand on the left (on the right), with their numbers there.
abbrev pub left_view : List Line → List (ℕ × Text)
left_view [] = []
left_view (l ∷ ls) = if on_left l.kind then (l.left_number, l.text) ∷ left_view ls else left_view ls

abbrev pub right_view : List Line → List (ℕ × Text)
right_view [] = []
right_view (l ∷ ls) =
    if on_right l.kind then (l.right_number, l.text) ∷ right_view ls else right_view ls

pub left_view-append : (xs ys : List Line) → left_view (xs ++ ys) ≡ left_view xs ++ left_view ys
left_view-append [] ys = refl
left_view-append (x ∷ xs) ys = ground (arith, left_view-append xs ys)

pub right_view-append : (xs ys : List Line) → right_view (xs ++ ys) ≡ right_view xs ++ right_view ys
right_view-append [] ys = refl
right_view-append (x ∷ xs) ys = ground (arith, right_view-append xs ys)

-- Lines `i` to `i + n` of a document, numbered from `offset + 1`.
abbrev pub numbered : List Text → ℕ → ℕ → ℕ → List (ℕ × Text)
numbered xs offset n i = build n i (λ k. (offset + k + 1, at xs k))

abbrev shown : (Line → ℕ) → Line → ℕ × Text
shown number l = (number l, l.text)

pub left_view-build :
    (n i : ℕ) (f : ℕ → Line)
    → ((k : ℕ) → on_left (f k).kind ≡ true)
    → left_view (build n i f) ≡ build n i (λ k. ((f k).left_number, (f k).text))
left_view-build zero i f h = refl
left_view-build (suc n) i f h =
    rw (h i) (ap (λ r. ((f i).left_number, (f i).text) ∷ r) (left_view-build n (i + 1) f h))

pub left_view-build_none :
    (n i : ℕ) (f : ℕ → Line) → ((k : ℕ) → on_left (f k).kind ≡ false) → left_view (build n i f) ≡ []
left_view-build_none zero i f h = refl
left_view-build_none (suc n) i f h = rw (h i) (left_view-build_none n (i + 1) f h)

pub right_view-build :
    (n i : ℕ) (f : ℕ → Line)
    → ((k : ℕ) → on_right (f k).kind ≡ true)
    → right_view (build n i f) ≡ build n i (λ k. ((f k).right_number, (f k).text))
right_view-build zero i f h = refl
right_view-build (suc n) i f h =
    rw (h i) (ap (λ r. ((f i).right_number, (f i).text) ∷ r) (right_view-build n (i + 1) f h))

pub right_view-build_none :
    (n i : ℕ) (f : ℕ → Line)
    → ((k : ℕ) → on_right (f k).kind ≡ false)
    → right_view (build n i f) ≡ []
right_view-build_none zero i f h = refl
right_view-build_none (suc n) i f h = rw (h i) (right_view-build_none n (i + 1) f h)

module _ (left right : List Text) (offset i j p q : ℕ) where
  left_view-emit : left_view (emit left right offset i j p q) ≡ numbered left offset (p - i) i
  unfolding emit
  left_view-emit =
      left_view-append (build (p - i) i _) (build (q - j) j _)
      ∙ ap₂ ◌++◌ (left_view-build (p - i) i _ (λ k. refl))
          (left_view-build_none (q - j) j _ (λ k. refl))
      ∙ append-nil _

  right_view-emit : right_view (emit left right offset i j p q) ≡ numbered right offset (q - j) j
  unfolding emit
  right_view-emit =
      right_view-append (build (p - i) i _) (build (q - j) j _)
      ∙ ap₂ ◌++◌ (right_view-build_none (p - i) i _ (λ k. refl))
          (right_view-build (q - j) j _ (λ k. refl))

-- A stretch, the line behind it and the rest are one stretch.
numbered_join :
    (xs : List Text) (offset i p n : ℕ)
    → i ≤ p
    → p < n
    → numbered xs offset (p - i) i
        ++ ((offset + p + 1, at xs p) ∷ numbered xs offset (n - (p + 1)) (p + 1))
      ≡ numbered xs offset (n - i) i
numbered_join xs offset i p n lo hi =
    let rest : suc (n - (p + 1)) ≡ n - p = omega arith in
    let total : (p - i) + (n - p) ≡ n - i = omega arith in
    ap (λ m. numbered xs offset (p - i) i ++ numbered xs offset m p) rest
    ∙ build-append (p - i) (n - p) i p _ (omega arith)
    ∙ ap (λ m. numbered xs offset m i) total

pub left_view-walk_from :
    (left right : List Text) (common : List (ℕ × ℕ)) (offset i j : ℕ)
    → Aligned left right i j common
    → left_view (walk_from left right common offset i j) ≡ numbered left offset (length left - i) i
unfolding walk_from
left_view-walk_from left right [] offset i j a =
    left_view-emit left right offset i j (length left) (length right)
left_view-walk_from left right ((p, q) ∷ common) offset i j a =
    let l : max i p ≡ p = omega arith in
    let r : max j q ≡ q = omega arith in
    rw (l, r)
      (left_view-append (emit left right offset i j p q) _
        ∙ ap₂ ◌++◌ (left_view-emit left right offset i j p q) (
            ap (λ v. (offset + p + 1, at left p) ∷ v)
              (left_view-walk_from left right common offset (p + 1) (q + 1) a.5))
        ∙ numbered_join left offset i p (length left) a.0 a.2)

pub right_view-walk_from :
    (left right : List Text) (common : List (ℕ × ℕ)) (offset i j : ℕ)
    → Aligned left right i j common
    → right_view (walk_from left right common offset i j)
      ≡ numbered right offset (length right - j) j
unfolding walk_from
right_view-walk_from left right [] offset i j a =
    right_view-emit left right offset i j (length left) (length right)
right_view-walk_from left right ((p, q) ∷ common) offset i j a =
    let l : max i p ≡ p = omega arith in
    let r : max j q ≡ q = omega arith in
    rw (l, r, a.4)
      (right_view-append (emit left right offset i j p q) _
        ∙ ap₂ ◌++◌ (right_view-emit left right offset i j p q) (
            ap (λ v. (offset + q + 1, at right q) ∷ v)
              (right_view-walk_from left right common offset (p + 1) (q + 1) a.5))
        ∙ numbered_join right offset j q (length right) a.1 a.3)
