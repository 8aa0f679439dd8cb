-- ===== src/Logs/Buffer/Newest.antt =====
-- trim of PodLogBuffer.ts keeps the longest run of newest lines that both caps allow.
use kubiq.Base.{
  ℕ, zero, suc, ◌+◌, ◌-◌, ◌≤◌, ◌≡◌, refl, ap, ap₂, ==_iff, length-drop, ◌∙◌, inl, inr, Bool, true,
  false, ◌&&◌, Bool-cases, List, [], ◌∷◌, ◌++◌, arith, ltb, leb, ◌==◌, if◌then◌else◌, Text, length,
  drop, length-append,
}
use kubiq.Logs.Buffer.{Buffer, total, minus_lines, over_cap, trim}

-- Whether both caps allow the lines.
abbrev pub fits : ℕ → ℕ → List Text → Bool
fits lines chars ls = leb (length ls) lines && leb (total ls) chars

-- The longest run of the newest lines that fits.
pub newest : ℕ → ℕ → List Text → List Text
newest lines chars [] = []
newest lines chars (l ∷ ls) = if fits lines chars (l ∷ ls) then l ∷ ls else newest lines chars ls

pub total-append : (xs ys : List Text) → total (xs ++ ys) ≡ total xs + total ys
unfolding total
total-append [] ys = omega arith
total-append (x ∷ xs) ys = omega (arith, total-append xs ys)

fits-tail :
    (lines chars : ℕ) (l : Text) (ls : List Text)
    → fits lines chars (l ∷ ls) ≡ true
    → fits lines chars ls ≡ true
unfolding total
fits-tail lines chars l ls h = ground arith

pub newest_fitting :
    (lines chars : ℕ) (ls : List Text) → fits lines chars ls ≡ true → newest lines chars ls ≡ ls
unfolding newest
newest_fitting lines chars [] h = refl
newest_fitting lines chars (l ∷ ls) h = rw h

pub newest-fits :
    (lines chars : ℕ) (ls : List Text) → fits lines chars (newest lines chars ls) ≡ true
unfolding newest total
newest-fits lines chars [] = ground arith
newest-fits lines chars (l ∷ ls) = ground (arith, newest-fits lines chars ls)

-- More lines behind do not help.
fits-append :
    (lines chars : ℕ) (xs ys : List Text)
    → fits lines chars xs ≡ false
    → fits lines chars (xs ++ ys) ≡ false
fits-append lines chars xs ys h = ground (arith, length-append xs ys, total-append xs ys)

-- Trimming first, and again behind new lines, is trimming once.
pub newest-append :
    (lines chars : ℕ) (xs ys : List Text)
    → newest lines chars (newest lines chars xs ++ ys) ≡ newest lines chars (xs ++ ys)
unfolding newest
newest-append lines chars [] ys = refl
newest-append lines chars (x ∷ xs) ys = elim (Bool-cases (fits lines chars (x ∷ xs))) [
  | inl e ↦ rw e
  | inr e ↦ rw (e, fits-append lines chars (x ∷ xs) ys e) (newest-append lines chars xs ys)
]

-- The first loop of `trim` leaves `chars` the total of what stays.
minus_lines-total : (n : ℕ) (ls : List Text) → minus_lines n ls (total ls) ≡ total (drop n ls)
unfolding minus_lines total
minus_lines-total zero ls = refl
minus_lines-total (suc n) [] = refl
minus_lines-total (suc n) (l ∷ ls) =
    let e : length l + 1 + total ls - (length l + 1) ≡ total ls = omega arith in
    rw e (minus_lines-total n ls)

pub length-newest : (lines chars : ℕ) (ls : List Text) → length (newest lines chars ls) ≤ length ls
unfolding newest
length-newest lines chars [] = omega arith
length-newest lines chars (l ∷ ls) = ground (arith, length-newest lines chars ls)

-- What is kept stands at the end.
newest-drop :
    (lines chars : ℕ) (ls : List Text)
    → drop (length ls - length (newest lines chars ls)) ls ≡ newest lines chars ls
unfolding newest
newest-drop lines chars [] = refl
newest-drop lines chars (l ∷ ls) = elim (Bool-cases (fits lines chars (l ∷ ls))) [
  | inl e ↦ let z : suc (length ls) - suc (length ls) ≡ 0 = omega arith in rw (e, z)
  | inr e ↦
      let s : suc (length ls) - length (newest lines chars ls)
          ≡ suc (length ls - length (newest lines chars ls)) =
        omega (arith, length-newest lines chars ls) in
      rw (e, s) (newest-drop lines chars ls)
]

-- Lines beyond the line cap may be dropped at once.
newest-drop_long :
    (lines chars n : ℕ) (ls : List Text)
    → n ≤ length ls - lines
    → newest lines chars (drop n ls) ≡ newest lines chars ls
unfolding newest
newest-drop_long lines chars zero ls h = refl
newest-drop_long lines chars (suc n) [] h = refl
newest-drop_long lines chars (suc n) (l ∷ ls) h =
    let long : fits lines chars (l ∷ ls) ≡ false = ground arith in
    rw long (newest-drop_long lines chars n ls (omega arith))

over_cap-newest :
    (lines cap : ℕ) (ls : List Text) (n : ℕ)
    → length ls ≤ lines
    → over_cap cap ls n (total ls)
      ≡ (n + (length ls - length (newest lines cap ls)), total (newest lines cap ls))
unfolding over_cap newest total
over_cap-newest lines cap [] n h = ap (λ (m : ℕ). (m, total [])) (omega arith)
over_cap-newest lines cap (l ∷ ls) n h = elim (Bool-cases (ltb cap (total (l ∷ ls)))) [
  | inl over ↦
      let out : fits lines cap (l ∷ ls) ≡ false = ground arith in
      let rest : length l + 1 + total ls - (length l + 1) ≡ total ls = omega arith in
      let m : n + 1 + (length ls - length (newest lines cap ls))
          ≡ n + (suc (length ls) - length (newest lines cap ls)) =
        omega (arith, length-newest lines cap ls) in
      rw (over, out, rest)
        (over_cap-newest lines cap ls (n + 1) (omega arith)
          ∙ ap (λ (k : ℕ). (k, total (newest lines cap ls))) m)
  | inr under ↦
      let within : fits lines cap (l ∷ ls) ≡ true = ground arith in
      rw (under, within) (ap (λ (m : ℕ). (m, total (l ∷ ls))) (omega arith))
]

-- The lines that `trim` keeps.
abbrev pub kept : Buffer → List Text
kept b = newest b.line_cap b.char_cap b.buffered

-- What the two loops of `trim` come to.
trim_loops :
    (b : Buffer)
    → over_cap b.char_cap
        (drop (length b.buffered - b.line_cap) b.buffered)
        (length b.buffered - b.line_cap)
        (minus_lines (length b.buffered - b.line_cap) b.buffered (total b.buffered))
      ≡ (length b.buffered - length (kept b), total (kept b))
trim_loops b =
    let first = length b.buffered - b.line_cap in
    let rest = drop first b.buffered in
    let n = length-drop first b.buffered in
    let same : newest b.line_cap b.char_cap rest ≡ kept b =
      newest-drop_long b.line_cap b.char_cap first b.buffered (omega arith) in
    rw (minus_lines-total first b.buffered) (
      over_cap-newest b.line_cap b.char_cap rest first (omega arith)
      ∙ ap₂ (λ (m c : ℕ). (m, c))
          (omega (arith, ap length same, length-newest b.line_cap b.char_cap rest)) (ap total same))

-- `trim` leaves the newest lines that fit, with their total and the count of what it dropped.
pub trim_lem :
    (b : Buffer)
    → b.chars ≡ total b.buffered
    → trim b ≡ record b {
      buffered = kept b;
      chars = total (kept b);
      dropped = b.dropped + (length b.buffered - length (kept b));
    }
unfolding trim
trim_lem b h =
    rw (h, trim_loops b)
      (elim (Bool-cases (length b.buffered - length (kept b) == 0)) [
        | inl e ↦
            let none : length b.buffered - length (kept b) ≡ 0 = (==_iff _ _).0 e in
            let all : b.buffered ≡ kept b =
              rw none at (newest-drop b.line_cap b.char_cap b.buffered) in
            let n : b.dropped ≡ b.dropped + (length b.buffered - length (kept b)) = omega arith in
            rw e (λ i. record b { buffered = all i; chars = ap total all i; dropped = n i })
        | inr e ↦ rw e (λ i. record b {
          buffered = newest-drop b.line_cap b.char_cap b.buffered i;
          chars = total (kept b);
          dropped = b.dropped + (length b.buffered - length (kept b));
        })
      ])
