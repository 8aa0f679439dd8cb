-- ===== src/Resource/Filter/Trim.antt =====
-- JavaScript's trim, as ResourceFilter.ts uses it.
use kubiq.Resource.Filter.{is_space, trim_start, is_empty, trim_end, trim, depth_after}
use kubiq.Base.{
  ℕ, ◌≡◌, refl, sym, ap, ◌∙◌, inl, inr, true, ◌&&◌, [], ◌∷◌, Option, none, some, arith, Text, ◌==◌,
  if◌then◌else◌, Bool-cases,
}

-- The depth behind a text that has no comma outside of parentheses.
unfoldable pub scan : ℕ → Text → Option ℕ
scan depth [] = some depth
scan depth (c ∷ s) =
    let rest = scan (depth_after c depth) s in
    if c == 44 && depth_after c depth == 0 then none else rest

scan-space : (d c : ℕ) (s : Text) → is_space c ≡ true → scan d (c ∷ s) ≡ scan d s
unfolding scan is_space
scan-space d c s h = elim (Bool-cases (c == 40)) [
  | inl a ↦ absurd (ground (arith, a, h))
  | inr a ↦ elim (Bool-cases (c == 41)) [
    | inl b ↦ absurd (ground (arith, b, h))
    | inr b ↦ elim (Bool-cases (c == 44)) [
      | inl e ↦ absurd (ground (arith, e, h))
      | inr e ↦ rw (a, b, e, scan) refl
    ]
  ]
]

scan-trim_start : (d : ℕ) (t : Text) → scan d (trim_start t) ≡ scan d t
unfolding trim_start
scan-trim_start d [] = refl
scan-trim_start d (c ∷ s) = elim (Bool-cases (is_space c)) [
  | inl e ↦ rw (e, trim_start) (scan-trim_start d s ∙ sym (scan-space d c s e))
  | inr e ↦ rw (e, trim_start) refl
]

scan-trim_end : (d e : ℕ) (t : Text) → scan d t ≡ some e → scan d (trim_end t) ≡ some e
unfolding trim_end scan
scan-trim_end d e [] h = h
scan-trim_end d e (c ∷ s) h = elim (Bool-cases (is_empty (trim_end s) && is_space c)) [
  | inl q ↦ ground (arith, q, h, scan-space d c s, scan-trim_end d e s)
  | inr q ↦ rw (q, trim_end) (ground (arith, h, scan-trim_end (depth_after c d) e s))
]

pub scan-trim : (d e : ℕ) (t : Text) → scan d t ≡ some e → scan d (trim t) ≡ some e
unfolding trim
scan-trim d e t h = scan-trim_end d e (trim_start t) (scan-trim_start d t ∙ h)

trim_end-trim_end : (t : Text) → trim_end (trim_end t) ≡ trim_end t
unfolding trim_end
trim_end-trim_end [] = refl
trim_end-trim_end (c ∷ s) = elim (Bool-cases (is_empty (trim_end s) && is_space c)) [
  | inl q ↦ rw (q, trim_end) refl
  | inr q ↦ rw (q, trim_end) (rw (trim_end-trim_end s, q, trim_end) refl)
]

trim_start-trim : (t : Text) → trim_start (trim t) ≡ trim t
unfolding trim trim_start trim_end
trim_start-trim [] = refl
trim_start-trim (c ∷ s) = elim (Bool-cases (is_space c)) [
  | inl e ↦ rw (e, trim_start) (trim_start-trim s)
  | inr e ↦ ground (arith, e)
]

pub trim-trim : (t : Text) → trim (trim t) ≡ trim t
unfolding trim
trim-trim t = ap trim_end (trim_start-trim t) ∙ trim_end-trim_end (trim_start t)
