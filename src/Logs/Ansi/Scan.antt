-- ===== src/Logs/Ansi/Scan.antt =====
-- exec, strip and runs of PodLogAnsi.ts: the loops end, and the runs show what strip leaves.
use kubiq.Logs.Ansi.{
  escape, is_parameter, is_intermediate, push, body_at, sequence_at, push_before, exec, has,
  strip_from, strip, Run, applied, run_of, runs_from, or_plain, runs,
}
use kubiq.Logs.Ansi.Codes.{Style, plain, Code}
use kubiq.Base.{
  inl, inr, ℕ, zero, suc, ◌≤◌, ◌<◌, ◌≡◌, refl, sym, ap, ap₂, ◌∙◌, Bool, true, false, ◌&&◌, not,
  List, [], ◌∷◌, ◌++◌, append_assoc, append-nil, Option, none, some, arith, ◌==◌, Text, length,
  length-append, Bool-cases, Option-cases,
}

push_inv :
    (c : ℕ) (o : Option (Text × Text)) (body rest : Text)
    → push c o ≡ some (body, rest)
    → (s : Text) × (body ≡ c ∷ s) × (o ≡ some (s, rest))
push_inv c none body rest h = cc
push_inv c (some (s, r)) body rest h = (s, cc, cc)

body_at-append :
    (late : Bool) (t body rest : Text) → body_at late t ≡ some (body, rest) → t ≡ body ++ rest
unfolding body_at
body_at-append late [] body rest h = cc
body_at-append late (c ∷ s) body rest h = elim (Bool-cases (not late && is_parameter c)) [
  | inl p ↦
      let e : push c (body_at false s) ≡ some (body, rest) = ground (arith, h, p) in
      let (r, whole, tail) = push_inv c (body_at false s) body rest e in
      rw whole (ap (λ x. c ∷ x) (body_at-append false s r rest tail))
  | inr np ↦ elim (Bool-cases (is_intermediate c)) [
    | inl i ↦
        let e : push c (body_at true s) ≡ some (body, rest) = ground (arith, h, np, i) in
        let (r, whole, tail) = push_inv c (body_at true s) body rest e in
        rw whole (ap (λ x. c ∷ x) (body_at-append true s r rest tail))
    | inr ni ↦ ground (arith, h, np, ni)
  ]
]

sequence_at-append :
    (t body rest : Text) → sequence_at t ≡ some (body, rest) → t ≡ 27 ∷ 91 ∷ (body ++ rest)
unfolding sequence_at
sequence_at-append [] body rest h = cc
sequence_at-append (e ∷ []) body rest h = cc
sequence_at-append (e ∷ b ∷ s) body rest h = elim (Bool-cases (e == escape && b == 91)) [
  | inl hit ↦
      let inner : body_at false s ≡ some (body, rest) = ground (arith, h, hit) in
      let first : e ≡ 27 = ground (arith, hit) in
      let second : b ≡ 91 = ground (arith, hit) in
      rw (first, second) (ap (λ x. 27 ∷ 91 ∷ x) (body_at-append false s body rest inner))
  | inr miss ↦ ground (arith, h, miss)
]

push_before_inv :
    (c : ℕ) (o : Option (Text × Text × Text)) (before body rest : Text)
    → push_before c o ≡ some (before, body, rest)
    → (s : Text) × (before ≡ c ∷ s) × (o ≡ some (s, body, rest))
push_before_inv c none before body rest h = cc
push_before_inv c (some (s, b, r)) before body rest h = (s, cc, cc)

exec-append :
    (t before body rest : Text)
    → exec t ≡ some (before, body, rest)
    → t ≡ before ++ 27 ∷ 91 ∷ (body ++ rest)
unfolding exec
exec-append [] before body rest h = cc
exec-append (c ∷ s) before body rest h = elim (Option-cases (sequence_at (c ∷ s))) [
  | inl e ↦
      let later : push_before c (exec s) ≡ some (before, body, rest) = ground (arith, h, e) in
      let (b, whole, found) = push_before_inv c (exec s) before body rest later in
      rw whole (ap (λ x. c ∷ x) (exec-append s b body rest found))
  | inr (p, e) ↦
      let start : before ≡ [] = ground (arith, h, e) in
      let whole : p.0 ≡ body = ground (arith, h, e) in
      let tail : p.1 ≡ rest = ground (arith, h, e) in
      rw start (sequence_at-append (c ∷ s) body rest (e ∙ λ i. some (whole i, tail i)))
]

exec-shorter :
    (t before body rest : Text) → exec t ≡ some (before, body, rest) → length rest < length t
exec-shorter t before body rest h = omega (
  arith,
  ap length (exec-append t before body rest h),
  length-append before (27 ∷ 91 ∷ (body ++ rest)),
  length-append body rest,
)

-- A text without an escape character has no match.
exec-plain : (t : Text) → has t ≡ false → exec t ≡ none
unfolding has exec sequence_at
exec-plain [] h = refl
exec-plain (c ∷ []) h = refl
exec-plain (c ∷ d ∷ s) h = ground (arith, exec-plain (d ∷ s))

-- What the loop of `strip` does with a match.
abbrev without : Text → Option (Text × Text × Text) → Text
without t none = t
without t (some (before, body, rest)) = before ++ strip rest

-- Rounds for every character are enough, and more change nothing.
strip_from_enough :
    (n m : ℕ) (t : Text) → length t ≤ n → length t ≤ m → strip_from n t ≡ strip_from m t
unfolding strip_from exec
strip_from_enough zero zero t h k = refl
strip_from_enough zero (suc m) [] h k = refl
strip_from_enough zero (suc m) (c ∷ s) h k = absurd (omega arith)
strip_from_enough (suc n) zero [] h k = refl
strip_from_enough (suc n) zero (c ∷ s) h k = absurd (omega arith)
strip_from_enough (suc n) (suc m) t h k = elim (Option-cases (exec t)) [
  | inl e ↦ rw (e, strip_from) refl
  | inr (p, e) ↦
      let less = exec-shorter t p.0 p.1 p.2 e in
      rw (e, strip_from)
        (ap (λ r. p.0 ++ r) (strip_from_enough n m p.2 (omega arith) (omega arith)))
]

strip_from_plain : (n : ℕ) (t : Text) → exec t ≡ none → strip_from n t ≡ t
unfolding strip_from
strip_from_plain zero t e = refl
strip_from_plain (suc n) t e = rw (e, strip_from) refl

strip-strip_from : (n : ℕ) (t : Text) → length t ≤ n → strip t ≡ strip_from n t
unfolding strip
strip-strip_from n t h = elim (Bool-cases (has t)) [
  | inl e ↦ rw e (strip_from_enough (length t) n t (omega arith) h)
  | inr e ↦ rw e (sym (strip_from_plain n t (exec-plain t e)))
]

-- `strip` is what the loop of the expression's matches gives, with no bound on its rounds: a text
-- without a match as it is, and otherwise what stands before the first match and then the same of what
-- follows it.
strip-exec : (t : Text) → strip t ≡ without t (exec t)
unfolding strip_from
strip-exec t = elim (Option-cases (exec t)) [
  | inl e ↦ strip-strip_from (length t) t (omega arith) ∙ rw e (strip_from_plain (length t) t e)
  | inr (p, e) ↦
      let less = exec-shorter t p.0 p.1 p.2 e in
      strip-strip_from (suc (length t)) t (omega arith)
      ∙ rw (e, strip_from)
          (ap (λ r. p.0 ++ r) (sym (strip-strip_from (length t) p.2 (omega arith))))
]

-- The texts of the runs, in a row.
pub texts : List Run → Text
texts [] = []
texts (r ∷ rs) = r.text ++ texts rs

texts-append : (xs ys : List Run) → texts (xs ++ ys) ≡ texts xs ++ texts ys
unfolding texts
texts-append [] ys = refl
texts-append (r ∷ xs) ys =
    ap (λ t. r.text ++ t) (texts-append xs ys) ∙ sym (append_assoc r.text (texts xs) (texts ys))

module _ (number : Text → Code) where
  texts-run_of : (t : Text) (style : Style) → texts (run_of number t style) ≡ t
  unfolding texts
  texts-run_of [] style = refl
  texts-run_of (c ∷ s) style = append-nil (c ∷ s)

  texts-runs_from :
      (n : ℕ) (style : Style) (t : Text) → texts (runs_from number n style t) ≡ strip_from n t
  unfolding runs_from strip_from
  texts-runs_from zero style t = texts-run_of t style
  texts-runs_from (suc n) style t = elim (Option-cases (exec t)) [
    | inl e ↦ rw (e, runs_from, strip_from) (texts-run_of t style)
    | inr (p, e) ↦
        rw (e, runs_from, strip_from)
          (texts-append (run_of number p.0 style)
              (runs_from number n (applied number style p.1) p.2)
            ∙ ap₂ (λ a b. a ++ b) (texts-run_of p.0 style)
                (texts-runs_from n (applied number style p.1) p.2))
  ]

  texts-or_plain : (rs : List Run) → texts (or_plain number rs) ≡ texts rs
  unfolding texts
  texts-or_plain [] = refl
  texts-or_plain (r ∷ rs) = refl

  -- The texts of a line's runs, in a row, are the line without its escape sequences, whatever the
  -- sequences say.
  pub texts-runs : (t : Text) → texts (runs number t) ≡ strip t
  unfolding runs strip texts
  texts-runs t = elim (Bool-cases (has t)) [
    | inl e ↦
        rw e (
          texts-or_plain (runs_from number (length t) plain t) ∙ texts-runs_from (length t) plain t)
    | inr e ↦ rw e (append-nil t)
  ]
