-- ===== src/Resource/Filter/Round.antt =====
-- split, normalise and isLabelSelector of ResourceFilter.ts: a normalised selector reads the same.
use kubiq.Resource.Filter.{
  trim, depth_after, split_from, all_filled, split, join, normalise, is_label_selector,
}
use kubiq.Resource.Filter.Trim.{scan, scan-trim, trim-trim}
use kubiq.Base.{
  ℕ, ◌≡◌, refl, sym, ap, ◌∙◌, inl, inr, Bool, true, ◌&&◌, List, [], ◌∷◌, ◌++◌, append-nil,
  append_assoc, some, arith, Text, ◌==◌, Bool-cases,
}

-- A text without a comma outside of parentheses is taken whole.
split_from-scan :
    (current : Text) (d e : ℕ) (p rest : Text)
    → scan d p ≡ some e
    → split_from current d (p ++ rest) ≡ split_from (current ++ p) e rest
unfolding scan split_from
split_from-scan current d e [] rest h =
    let same : d ≡ e = ground (arith, h) in rw (same, append-nil current) refl
split_from-scan current d e (c ∷ s) rest h = elim (Bool-cases (c == 44 && depth_after c d == 0)) [
  | inl q ↦ absurd (ground (arith, h, q))
  | inr q ↦
      let deeper : scan (depth_after c d) s ≡ some e = ground (arith, h, q) in
      rw (q, split_from)
        (split_from-scan (current ++ c ∷ []) (depth_after c d) e s rest deeper
          ∙ ap (λ t. split_from t e rest) (append_assoc current (c ∷ []) s))
]

scan-append : (d e : ℕ) (p t : Text) → scan d p ≡ some e → scan d (p ++ t) ≡ scan e t
unfolding scan
scan-append d e [] t h = let same : d ≡ e = ground (arith, h) in rw same refl
scan-append d e (c ∷ s) t h = elim (Bool-cases (c == 44 && depth_after c d == 0)) [
  | inl q ↦ absurd (ground (arith, h, q))
  | inr q ↦
      let deeper : scan (depth_after c d) s ≡ some e = ground (arith, h, q) in
      rw (q, scan) (scan-append (depth_after c d) e s t deeper)
]

-- Trimmed texts without a comma, which close their parentheses before the next.
Pieces : List Text → Type 0
Pieces [] = Unit
Pieces (p ∷ []) = (e : ℕ) × (scan 0 p ≡ some e) × (trim p ≡ p)
Pieces (p ∷ q ∷ rs) = (scan 0 p ≡ some 0) × (trim p ≡ p) × Pieces (q ∷ rs)

Pieces-cons :
    (p : Text) (rs : List Text) → scan 0 p ≡ some 0 → trim p ≡ p → Pieces rs → Pieces (p ∷ rs)
unfolding Pieces
Pieces-cons p [] h t r = (0, h, t)
Pieces-cons p (q ∷ rs) h t r = (h, t, r)

split_from-Pieces :
    (current : Text) (d : ℕ) (query : Text)
    → scan 0 current ≡ some d
    → Pieces (split_from current d query)
unfolding split_from Pieces scan
split_from-Pieces current d [] h = (d, scan-trim 0 d current h, trim-trim current)
split_from-Pieces current d (c ∷ s) h = elim (Bool-cases (c == 44 && depth_after c d == 0)) [
  | inl q ↦
      let flat : d ≡ 0 = ground (arith, q) in
      let reset : depth_after c d ≡ 0 = ground (arith, q) in
      let closed : scan 0 current ≡ some 0 = h ∙ ap some flat in
      rw (q, reset, split_from)
        (Pieces-cons (trim current) (split_from [] 0 s) (scan-trim 0 0 current closed)
          (trim-trim current) (split_from-Pieces [] 0 s refl))
  | inr q ↦
      let one : scan d (c ∷ []) ≡ some (depth_after c d) = ground (arith, q) in
      rw (q, split_from)
        (split_from-Pieces (current ++ c ∷ []) (depth_after c d) s
          (scan-append 0 d current (c ∷ []) h ∙ one))
]

split_from-join :
    (p : Text) (rs : List Text) → Pieces (p ∷ rs) → split_from [] 0 (join (p ∷ rs)) ≡ p ∷ rs
unfolding Pieces join split_from
split_from-join p [] (e, closed, trimmed) =
    ap (split_from [] 0) (sym (append-nil p))
    ∙ split_from-scan [] 0 e p [] closed
    ∙ ap (λ t. t ∷ []) trimmed
split_from-join p (q ∷ rs) (closed, trimmed, more) =
    split_from-scan [] 0 0 p (44 ∷ join (q ∷ rs)) closed
    ∙ ap (λ t. t ∷ split_from [] 0 (join (q ∷ rs))) trimmed
    ∙ ap (λ l. p ∷ l) (split_from-join q rs more)

join_back : (rs : List Text) → Pieces rs → all_filled rs ≡ true → split (join rs) ≡ rs
unfolding split join split_from all_filled
join_back [] h f = refl
join_back (p ∷ rs) h f = rw (split_from-join p rs h, f) refl

split-Pieces : (query : Text) → Pieces (split query) × (all_filled (split query) ≡ true)
unfolding split Pieces all_filled scan
split-Pieces query = elim (Bool-cases (all_filled (split_from [] 0 query))) [
  | inl f ↦ rw (f, split) (split_from-Pieces [] 0 query refl, f)
  | inr f ↦ rw (f, split) (tt, refl)
]

split-normalise : (query : Text) → split (normalise query) ≡ split query
unfolding normalise
split-normalise query =
    let (pieces, filled) = split-Pieces query in join_back (split query) pieces filled

-- Normalising what was typed changes none of its requirements, and not whether it is a label
-- selector, whatever the regular expressions accept.
pub is_label_selector-normalise :
    (equality set exists : Text → Bool) (query : Text)
    → (split (normalise query) ≡ split query)
      × (is_label_selector equality set exists (normalise query)
          ≡ is_label_selector equality set exists query)
unfolding is_label_selector
is_label_selector-normalise equality set exists query =
    (split-normalise query, rw (split-normalise query, is_label_selector) refl)
