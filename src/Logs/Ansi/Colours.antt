-- ===== src/Logs/Ansi/Colours.antt =====
-- simple, indexed, rgb, applied and runs of PodLogAnsi.ts: the colours that a line can give.
use kubiq.Logs.Ansi.{
  Run, codes_of, without_last, ends_in_m, applied, run_of, runs_from, or_plain, runs, has, exec,
}
use kubiq.Logs.Ansi.Codes.{
  Colour, unset, token, rgb, Style, plain, Code, is_code, channel, indexed_at, indexed, simple_code,
  simple, paint, apply_code, apply_codes,
}
use kubiq.Base.{
  inl, inr, ℕ, zero, suc, ◌≤◌, ◌<◌, ◌&&◌, not, List, [], ◌∷◌, Option, none, some, arith, ltb, leb,
  Text, length, get_elem?, Bool-cases, Option-cases, All, All-append,
}

-- A token has one of the sixteen names, and a channel is a byte.
pub IsColour : Colour → Type 0
IsColour unset = Unit
IsColour (token i) = i < 16
IsColour (rgb r g b) = (r ≤ 255) × (g ≤ 255) × (b ≤ 255)

pub IsColoured : Style → Type 0
IsColoured s = IsColour s.color × IsColour s.background

indexed_at-IsColour : (i : ℕ) → IsColour (indexed_at i)
unfolding indexed_at IsColour
indexed_at-IsColour i = elim (Bool-cases (ltb 255 i)) [
  | inl e ↦ rw (e, indexed_at) tt
  | inr e ↦ elim (Bool-cases (ltb i 16)) [
    | inl f ↦ rw (e, f, indexed_at) (ground (arith, f))
    | inr f ↦ elim (Bool-cases (leb 232 i)) [
      | inl g ↦ rw (e, f, g, indexed_at) (omega arith, omega arith, omega arith)
      | inr g ↦ rw (e, f, g, indexed_at) (omega arith, omega arith, omega arith)
    ]
  ]
]

channel-bound : (c : Option Code) → channel c ≤ 255
channel-bound none = omega arith
channel-bound (some none) = omega arith
channel-bound (some (some v)) = omega arith

simple_code-IsColoured : (s : Style) (c : ℕ) → IsColoured s → IsColoured (simple_code s c)
unfolding simple_code IsColour IsColoured
simple_code-IsColoured s c h = ground (arith, h)

paint-IsColoured :
    (code : Code) (colour : Colour) (s : Style)
    → IsColour colour
    → IsColoured s
    → IsColoured (paint code colour s)
unfolding IsColoured
paint-IsColoured code colour s c h = elim (Bool-cases (is_code (some code) 38)) [
  | inl e ↦ rw e (c, h.1)
  | inr e ↦ rw e (h.0, c)
]

indexed-IsColour : (c : Option Code) → IsColour (indexed c)
unfolding IsColour
indexed-IsColour none = tt
indexed-IsColour (some none) = tt
indexed-IsColour (some (some i)) = indexed_at-IsColour i

simple-IsColoured : (s : Style) (c : Code) → IsColoured s → IsColoured (simple s c)
simple-IsColoured s none h = h
simple-IsColoured s (some c) h = simple_code-IsColoured s c h

rgb-IsColour :
    (later : List Code)
    → IsColour (
        rgb
          (channel (get_elem? later 1))
          (channel (get_elem? later 2))
          (channel (get_elem? later 3)))
unfolding IsColour
rgb-IsColour later = (
  channel-bound (get_elem? later 1),
  channel-bound (get_elem? later 2),
  channel-bound (get_elem? later 3),
)

apply_code-IsColoured :
    (s : Style) (c : Code) (later : List Code)
    → IsColoured s
    → IsColoured ((apply_code s c later).0)
unfolding apply_code
apply_code-IsColoured s c later h =
    elim (Bool-cases (not (is_code (some c) 38) && not (is_code (some c) 48))) [
      | inl e ↦ rw e (simple-IsColoured s c h)
      | inr e ↦ elim (Bool-cases (is_code (get_elem? later 0) 2)) [
        | inl f ↦ rw (e, f) (paint-IsColoured c _ s (rgb-IsColour later) h)
        | inr f ↦ elim (Bool-cases (is_code (get_elem? later 0) 5)) [
          | inl g ↦ rw (e, f, g) (paint-IsColoured c _ s (indexed-IsColour (get_elem? later 1)) h)
          | inr g ↦ rw (e, f, g) h
        ]
      ]
    ]

apply_codes-IsColoured :
    (skip : ℕ) (s : Style) (codes : List Code)
    → IsColoured s
    → IsColoured (apply_codes skip s codes)
unfolding apply_codes
apply_codes-IsColoured skip s [] h = h
apply_codes-IsColoured zero s (c ∷ later) h =
    apply_codes-IsColoured ((apply_code s c later).1) ((apply_code s c later).0) later
      (apply_code-IsColoured s c later h)
apply_codes-IsColoured (suc skip) s (c ∷ later) h = apply_codes-IsColoured skip s later h

plain-IsColoured : IsColoured plain
unfolding IsColour IsColoured
plain-IsColoured = (tt, tt)

pub IsColouredRun : Run → Type 0
IsColouredRun r = IsColoured r.style

module _ (number : Text → Code) where
  applied-IsColoured : (s : Style) (body : Text) → IsColoured s → IsColoured (applied number s body)
  unfolding applied
  applied-IsColoured s body h = elim (Bool-cases (ends_in_m number body)) [
    | inl e ↦ rw e (apply_codes-IsColoured 0 s (codes_of number (without_last number body)) h)
    | inr e ↦ rw e h
  ]

  run_of-IsColoured : (t : Text) (s : Style) → IsColoured s → All IsColouredRun (run_of number t s)
  unfolding IsColouredRun
  run_of-IsColoured [] s h = tt
  run_of-IsColoured (c ∷ t) s h = (h, tt)

  runs_from-IsColoured :
      (n : ℕ) (s : Style) (t : Text) → IsColoured s → All IsColouredRun (runs_from number n s t)
  unfolding runs_from
  runs_from-IsColoured zero s t h = run_of-IsColoured t s h
  runs_from-IsColoured (suc n) s t h = elim (Option-cases (exec t)) [
    | inl e ↦ rw (e, runs_from) (run_of-IsColoured t s h)
    | inr (p, e) ↦
        rw (e, runs_from)
          (All-append IsColouredRun (run_of number p.0 s)
            (runs_from number n (applied number s p.1) p.2) (run_of-IsColoured p.0 s h)
            (runs_from-IsColoured n (applied number s p.1) p.2 (applied-IsColoured s p.1 h)))
  ]

  or_plain-IsColoured :
      (rs : List Run) → All IsColouredRun rs → All IsColouredRun (or_plain number rs)
  unfolding IsColouredRun
  or_plain-IsColoured [] h = (plain-IsColoured, tt)
  or_plain-IsColoured (r ∷ rs) h = h

  -- Whatever the numbers of a line's sequences, every run's colour and background is none, one of
  -- the sixteen names, or three channels of at most 255.
  pub runs-IsColoured : (t : Text) → All IsColouredRun (runs number t)
  unfolding runs IsColouredRun
  runs-IsColoured t = elim (Bool-cases (has t)) [
    | inl e ↦ rw e (
        or_plain-IsColoured (runs_from number (length t) plain t)
          (runs_from-IsColoured (length t) plain t plain-IsColoured))
    | inr e ↦ rw e (plain-IsColoured, tt)
  ]
