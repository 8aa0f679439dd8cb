-- ===== src/Logs/Buffer/Cut.antt =====
-- The split at line ends in append of PodLogBuffer.ts, where a chunk is cut anywhere.
use kubiq.Base.{ℕ, ◌≡◌, refl, inl, inr, Bool-cases, List, [], ◌∷◌, ◌++◌, ◌==◌, Text, false}
use kubiq.Logs.Buffer.{prepend, cut}

-- Text without a line end.
abbrev pub IsPartial : Text → Type 0
IsPartial s = cut s ≡ ([], s)

cut-prepend :
    (c : ℕ) (t : Text) (r : List Text × Text)
    → (c == 10) ≡ false
    → prepend c (r.0 ++ (cut (r.1 ++ t)).0, (cut (r.1 ++ t)).1)
      ≡ ((prepend c r).0 ++ (cut ((prepend c r).1 ++ t)).0, (cut ((prepend c r).1 ++ t)).1)
unfolding cut
cut-prepend c t ([], p) e = rw e
cut-prepend c t (l ∷ ls, p) e = refl

pub cut-append :
    (s t : Text) → cut (s ++ t) ≡ ((cut s).0 ++ (cut ((cut s).1 ++ t)).0, (cut ((cut s).1 ++ t)).1)
unfolding cut
cut-append [] t = refl
cut-append (c ∷ s) t = elim (Bool-cases (c == 10)) [
  | inl e ↦ rw (e, cut-append s t)
  | inr e ↦ rw (e, cut-append s t) (cut-prepend c t (cut s) e)
]

prepend-rest :
    (c : ℕ) (r : List Text × Text) → (c == 10) ≡ false → IsPartial r.1 → IsPartial (prepend c r).1
unfolding cut
prepend-rest c ([], p) e h = rw (e, h)
prepend-rest c (l ∷ ls, p) e h = h

pub cut_rest : (s : Text) → IsPartial (cut s).1
unfolding cut
cut_rest [] = refl
cut_rest (c ∷ s) = elim (Bool-cases (c == 10)) [
  | inl e ↦ rw e (cut_rest s)
  | inr e ↦ rw e (prepend-rest c (cut s) e (cut_rest s))
]
