-- ===== src/Ui/Age/Loss.antt =====
-- format of UiAgeFormatter.ts: how much of an age its text leaves out.
use kubiq.Ui.Age.{Scale, s, m, h, d, y, with_rest, format_days, format_seconds, format}
use kubiq.Base.{
  inl, inr, ℕ, ◌+◌, ◌-◌, ◌*◌, ◌/◌, ◌%◌, ◌≤◌, ◌≡◌, ◌&&◌, not, List, [], ◌∷◌, arith, ltb, ◌==◌,
  if◌then◌else◌, Bool-cases,
}

-- The seconds that a scale stands for: a year has 365 days.
abbrev pub seconds_of : Scale → ℕ
seconds_of s = 1
seconds_of m = 60
seconds_of h = 3600
seconds_of d = 86400
seconds_of y = 31536000

pub worth : List (ℕ × Scale) → ℕ
worth [] = 0
worth ((n, scale) ∷ parts) = n * seconds_of scale + worth parts

with_rest-worth :
    (n r : ℕ) (a b : Scale) → worth (with_rest n a r b) ≡ n * seconds_of a + r * seconds_of b
unfolding worth
with_rest-worth n r a b = elim (Bool-cases (r == 0)) [
  | inl e ↦ let z : r ≡ 0 = ground (arith, e) in rw (e, z) (omega arith)
  | inr e ↦ rw e (omega arith)
]

-- The seconds rounded down: to minutes from ten minutes, to hours from eight hours, to days from eight
-- days and to years from eight years on.
rounded : ℕ → ℕ
rounded t =
    if ltb t 600
    then t
    else if ltb t 28800
    then t / 60 * 60
    else if ltb t 691200
    then t / 3600 * 3600
    else if ltb t 252288000
    then t / 86400 * 86400
    else t / 31536000 * 31536000

format_days-worth : (t : ℕ) → 172800 ≤ t → worth (format_days t) ≡ rounded t
unfolding format_days worth rounded
format_days-worth t long = elim (Bool-cases (ltb (t / 3600) 192)) [
  | inl a ↦
      rw (a, format_days, with_rest-worth (t / 86400) (t / 3600 % 24) d h) (ground (arith, a, long))
  | inr a ↦ elim (Bool-cases (ltb (t / 3600) 17520)) [
    | inl b ↦ rw (a, b, format_days) (ground (arith, a, b))
    | inr b ↦ elim (Bool-cases (ltb (t / 3600) 70080 && not (t / 86400 % 365 == 0))) [
      | inl c ↦ rw (a, b, c, format_days) (ground (arith, a, b, c))
      | inr c ↦ rw (a, b, c, format_days) (ground (arith, a, b, c))
    ]
  ]
]

format_seconds-worth : (t : ℕ) → worth (format_seconds t) ≡ rounded t
unfolding format_seconds worth rounded
format_seconds-worth t = elim (Bool-cases (ltb t 120)) [
  | inl a ↦ rw (a, format_seconds) (ground (arith, a))
  | inr a ↦ elim (Bool-cases (ltb (t / 60) 10)) [
    | inl b ↦
        rw (a, b, format_seconds, with_rest-worth (t / 60) (t % 60) m s) (ground (arith, a, b))
    | inr b ↦ elim (Bool-cases (ltb (t / 60) 180)) [
      | inl c ↦ rw (a, b, c, format_seconds) (ground (arith, a, b, c))
      | inr c ↦ elim (Bool-cases (ltb (t / 3600) 8)) [
        | inl e ↦
            rw (a, b, c, e, format_seconds, with_rest-worth (t / 3600) (t / 60 % 60) h m)
              (ground (arith, a, b, c, e))
        | inr e ↦ elim (Bool-cases (ltb (t / 3600) 48)) [
          | inl f ↦ rw (a, b, c, e, f, format_seconds) (ground (arith, c, e, f))
          | inr f ↦ rw (a, b, c, e, f, format_seconds) (format_days-worth t (ground (arith, f)))
        ]
      ]
    ]
  ]
]

rounded_le : (t : ℕ) → rounded t ≤ t
unfolding rounded
rounded_le t = ground arith

rounded-loss : (t : ℕ) → 8 * (t - rounded t) ≤ t
unfolding rounded
rounded-loss t = ground arith

rounded_mono : (t u : ℕ) → t ≤ u → rounded t ≤ rounded u
unfolding rounded
rounded_mono t u le = ground arith

format-worth : (from now : ℕ) → from ≤ now → worth (format from now) ≡ rounded ((now - from) / 1000)
unfolding format
format-worth from now le = elim (Bool-cases (ltb now from)) [
  | inl e ↦ absurd (ground (arith, e, le))
  | inr e ↦ rw (e, format) (format_seconds-worth ((now - from) / 1000))
]

-- For a start that is not in the future, the text of an age, read back in seconds with years of 365
-- days, is never more than the age in whole seconds, leaves out at most an eighth of it, and never
-- shrinks while time goes on.
pub format-loss :
    (from now later : ℕ)
    → from ≤ now
    → now ≤ later
    → (worth (format from now) ≤ (now - from) / 1000)
      × (8 * ((now - from) / 1000 - worth (format from now)) ≤ (now - from) / 1000)
      × (worth (format from now) ≤ worth (format from later))
format-loss from now later le up =
    let grows : (now - from) / 1000 ≤ (later - from) / 1000 = omega arith in
    rw (format-worth from now le, format-worth from later (omega arith))
      (
        rounded_le ((now - from) / 1000),
        rounded-loss ((now - from) / 1000),
        rounded_mono ((now - from) / 1000) ((later - from) / 1000) grows,
      )
