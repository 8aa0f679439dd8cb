-- ===== src/Logs/Ansi/Codes.antt =====
-- applied, simple, indexed, token and rgb of PodLogAnsi.ts: what the numbers of a sequence do to a
-- style. A colour is a value, of which `token` and `rgb` write the text.
use kubiq.Base.{
  ℕ, zero, suc, ◌+◌, ◌-◌, ◌*◌, ◌/◌, ◌%◌, min, Bool, true, false, ◌&&◌, ◌||◌, not, List, [], ◌∷◌,
  Option, none, some, ltb, leb, ◌==◌, if◌then◌else◌, get_elem?, get_or,
}

pub data Colour : Type 0 where
  unset : Colour
  token : ℕ → Colour
  rgb : ℕ → ℕ → ℕ → Colour

pub record Style : Type 0 where
  pub color : Colour
  pub background : Colour
  pub bold : Bool
  pub dim : Bool
  pub italic : Bool
  pub underline : Bool

abbrev pub plain : Style
plain = record {
  color = unset;
  background = unset;
  bold = false;
  dim = false;
  italic = false;
  underline = false;
}

-- How many names there are for a token.
abbrev pub name_count : ℕ
name_count = 16

abbrev pub steps : List ℕ
steps = 0 ∷ 95 ∷ 135 ∷ 175 ∷ 215 ∷ 255 ∷ []

-- A number of a sequence, if it is one, and one that may be missing.
abbrev pub Code : Type 0
Code = Option ℕ

abbrev pub is_code : Option Code → ℕ → Bool
is_code (some (some c)) n = c == n
is_code _ n = false

abbrev pub channel : Option Code → ℕ
channel (some (some v)) = min v 255
channel _ = 0

-- `indexed` past its check for an integer.
unfoldable pub indexed_at : ℕ → Colour
indexed_at index =
    let grey = 8 + (index - 232) * 10 in
    let offset = index - 16 in
    if ltb 255 index
    then unset
    else if ltb index name_count
    then token index
    else if leb 232 index
    then rgb (min grey 255) (min grey 255) (min grey 255)
    else rgb (min (get_or steps (offset / 36) 0) 255) (min (get_or steps ((offset / 6) % 6) 0) 255)
        (min (get_or steps (offset % 6) 0) 255)

abbrev pub indexed : Option Code → Colour
indexed (some (some index)) = indexed_at index
indexed _ = unset

unfoldable pub simple_code : Style → ℕ → Style
simple_code style code =
    if code == 0
    then plain
    else if code == 1
    then record style { bold = true }
    else if code == 2
    then record style { dim = true }
    else if code == 3
    then record style { italic = true }
    else if code == 4
    then record style { underline = true }
    else if code == 21 || code == 22
    then record style { bold = false; dim = false }
    else if code == 23
    then record style { italic = false }
    else if code == 24
    then record style { underline = false }
    else if code == 39
    then record style { color = unset }
    else if code == 49
    then record style { background = unset }
    else if leb 30 code && leb code 37
    then record style { color = token (code - 30) }
    else if leb 40 code && leb code 47
    then record style { background = token (code - 40) }
    else if leb 90 code && leb code 97
    then record style { color = token (code - 82) }
    else if leb 100 code && leb code 107
    then record style { background = token (code - 92) }
    else style

-- `simple`: NaN passes no test.
abbrev pub simple : Style → Code → Style
simple style none = style
simple style (some code) = simple_code style code

-- `code === 38 ? color : background`
abbrev pub paint : Code → Colour → Style → Style
paint code colour style =
    if is_code (some code) 38
    then record style { color = colour }
    else record style { background = colour }

-- One round of `applied` at `code`, with the codes behind it: the style, and how many to skip.
unfoldable pub apply_code : Style → Code → List Code → Style × ℕ
unfolding simple_code indexed_at
apply_code style code later =
    if not (is_code (some code) 38) && not (is_code (some code) 48)
    then (simple style code, 0)
    else if is_code (get_elem? later 0) 2
    then (
      paint code
          (rgb (channel (get_elem? later 1)) (channel (get_elem? later 2))
            (channel (get_elem? later 3)))
          style,
      4,
    )
    else if is_code (get_elem? later 0) 5
    then (paint code (indexed (get_elem? later 1)) style, 2)
    else (style, 0)

unfoldable pub apply_codes : ℕ → Style → List Code → Style
unfolding apply_code
apply_codes skip style [] = style
apply_codes zero style (code ∷ later) =
    let (style', skip) = apply_code style code later in apply_codes skip style' later
apply_codes (suc skip) style (code ∷ later) = apply_codes skip style later
