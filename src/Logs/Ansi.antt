-- ===== src/Logs/Ansi.antt =====
-- frontend/src/components/logs/PodLogAnsi.ts: the escape sequences of a log line, and the coloured runs
-- between them. A text is its code units. JavaScript's `Number` is the parameter `number`: `none`
-- stands for NaN, and the parts of a sequence hold no sign or exponent that would give another number.
pub mod Codes
pub mod Scan
pub mod Colours
mod Tests
use kubiq.Logs.Ansi.Codes.{Style, plain, Code, apply_codes}
use kubiq.Base.{
  ℕ, zero, suc, ◌+◌, ◌-◌, ◌*◌, ◌/◌, ◌%◌, min, ◌≡◌, refl, Bool, true, false, ◌&&◌, ◌||◌, not, List,
  [], ◌∷◌, ◌++◌, map, Option, none, some, ltb, leb, ◌==◌, if◌then◌else◌, Text, codes, length,
  get_elem?, get_or, String,
}

abbrev pub escape : ℕ
escape = 27

-- [0-?], [ -/] and [@-~]
abbrev pub is_parameter : ℕ → Bool
is_parameter c = leb 48 c && leb c 63

abbrev pub is_intermediate : ℕ → Bool
is_intermediate c = leb 32 c && leb c 47

abbrev pub is_final : ℕ → Bool
is_final c = leb 64 c && leb c 126

abbrev pub push : ℕ → Option (Text × Text) → Option (Text × Text)
push c none = none
push c (some (s, rest)) = some (c ∷ s, rest)

-- The sequence behind its bracket, and what follows it. The three classes share no character, so the
-- expression has one way to match.
unfoldable pub body_at : Bool → Text → Option (Text × Text)
body_at late [] = none
body_at late (c ∷ s) =
    let parameter = push c (body_at false s) in
    let intermediate = push c (body_at true s) in
    if not late && is_parameter c
    then parameter
    else if is_intermediate c
    then intermediate
    else if is_final c
    then some (c ∷ [], s)
    else none

-- The match of the pattern at the start of a text: its body, and what follows it.
unfoldable pub sequence_at : Text → Option (Text × Text)
unfolding body_at
sequence_at (e ∷ b ∷ s) = if e == escape && b == 91 then body_at false s else none
sequence_at _ = none

abbrev pub push_before : ℕ → Option (Text × Text × Text) → Option (Text × Text × Text)
push_before c none = none
push_before c (some (before, body, rest)) = some (c ∷ before, body, rest)

-- `pattern.exec`: what stands before the first match, its body, and what follows it.
unfoldable pub exec : Text → Option (Text × Text × Text)
unfolding sequence_at
exec [] = none
exec (c ∷ s) =
    let later = push_before c (exec s) in
    elim (sequence_at (c ∷ s)) [ some (body, rest) ↦ some ([], body, rest) | none ↦ later ]

unfoldable pub has : Text → Bool
has [] = false
has (c ∷ s) = c == escape || has s

-- `text.replace(pattern, '')`, on as many rounds as the text has characters.
unfoldable pub strip_from : ℕ → Text → Text
unfolding exec
strip_from zero text = text
strip_from (suc rounds) text = elim (exec text) [
  | none ↦ text
  | some (before, body, rest) ↦ before ++ strip_from rounds rest
]

unfoldable pub strip : Text → Text
unfolding has strip_from
strip text = if has text then strip_from (length text) text else text

unfoldable pub width : Text → ℕ
unfolding has strip
width text = if has text then length (strip text) else length text

pub record Run : Type 0 where
  pub text : Text
  pub style : Style

abbrev pub push_part : ℕ → List Text → List Text
push_part c [] = (c ∷ []) ∷ []
push_part c (part ∷ parts) = (c ∷ part) ∷ parts

-- `split(';')`
unfoldable pub split : Text → List Text
split [] = [] ∷ []
split (c ∷ s) = if c == 59 then [] ∷ split s else push_part c (split s)

module _ (number : Text → Code) where
  abbrev pub part_code : Text → Code
  part_code [] = some 0
  part_code (c ∷ s) = number (c ∷ s)

  -- The codes of a sequence's body, without its final character.
  abbrev pub codes_of : Text → List Code
  codes_of [] = some 0 ∷ []
  codes_of (c ∷ s) = map part_code (split (c ∷ s))

  -- `found[0].endsWith('m')`, and the body without it.
  unfoldable pub ends_in_m : Text → Bool
  ends_in_m [] = false
  ends_in_m (c ∷ []) = c == 109
  ends_in_m (c ∷ d ∷ s) = ends_in_m (d ∷ s)

  abbrev pub without_last : Text → Text
  without_last [] = []
  without_last (c ∷ []) = []
  without_last (c ∷ d ∷ s) = c ∷ without_last (d ∷ s)

  unfoldable pub applied : Style → Text → Style
  unfolding ends_in_m apply_codes split
  applied style body =
      if ends_in_m body then apply_codes 0 style (codes_of (without_last body)) else style

  abbrev pub run_of : Text → Style → List Run
  run_of [] style = []
  run_of (c ∷ s) style = record { text = c ∷ s; style = style } ∷ []

  -- The loop of `runs`, on as many rounds as the text has characters.
  unfoldable pub runs_from : ℕ → Style → Text → List Run
  unfolding exec applied
  runs_from zero style text = run_of text style
  runs_from (suc rounds) style text = elim (exec text) [
    | none ↦ run_of text style
    | some (before, body, rest) ↦ run_of before style ++ runs_from rounds (applied style body) rest
  ]

  abbrev pub or_plain : List Run → List Run
  or_plain [] = record { text = []; style = plain } ∷ []
  or_plain (r ∷ rs) = r ∷ rs

  unfoldable pub runs : Text → List Run
  unfolding has runs_from
  runs text =
      if has text
      then or_plain (runs_from (length text) plain text)
      else record { text = text; style = plain } ∷ []
