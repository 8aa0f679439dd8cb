-- ===== src/Ui/Age.antt =====
-- frontend/src/components/common/time/UiAgeFormatter.ts: the age of an object as kubectl prints it. A
-- text such as `2d3h` is the list of its parts, and the times are whole milliseconds.
pub mod Loss
mod Tests
use kubiq.Base.{
  Option, none, some, String, str_eq, ℕ, ◌+◌, ◌-◌, ◌*◌, ◌/◌, ◌%◌, Bool, true, false, ◌&&◌, not,
  List, [], ◌∷◌, ltb, ◌==◌, if◌then◌else◌,
}

pub data Scale : Type 0 where
  s m h d y : Scale

abbrev pub minute : ℕ
minute = 60

abbrev pub hour : ℕ
hour = 3600

abbrev pub day : ℕ
day = 86400

-- `${amount}${scale}${rest}${smaller}`, or without the rest where there is none.
abbrev pub with_rest : ℕ → Scale → ℕ → Scale → List (ℕ × Scale)
with_rest amount scale rest smaller =
    if rest == 0 then (amount, scale) ∷ [] else (amount, scale) ∷ (rest, smaller) ∷ []

-- `format` from the number of days on.
unfoldable pub format_days : ℕ → List (ℕ × Scale)
format_days seconds =
    let minutes = seconds / minute in
    let hours = seconds / hour in
    let days = seconds / day in
    let years = days / 365 in
    let rest = days % 365 in
    if ltb hours (24 * 8)
    then with_rest days d (hours % 24) h
    else if ltb hours (24 * 365 * 2)
    then (days, d) ∷ []
    else if ltb hours (24 * 365 * 8) && not (rest == 0)
    then (years, y) ∷ (rest, d) ∷ []
    else (years, y) ∷ []

-- `format` of a number of seconds that is not negative.
unfoldable pub format_seconds : ℕ → List (ℕ × Scale)
unfolding format_days
format_seconds seconds =
    let minutes = seconds / minute in
    let hours = seconds / hour in
    if ltb seconds (minute * 2)
    then (seconds, s) ∷ []
    else if ltb minutes 10
    then with_rest minutes m (seconds % minute) s
    else if ltb minutes (minute * 3)
    then (minutes, m) ∷ []
    else if ltb hours 8
    then with_rest hours h (minutes % 60) m
    else if ltb hours 48
    then (hours, h) ∷ []
    else format_days seconds

unfoldable pub format : ℕ → ℕ → List (ℕ × Scale)
unfolding format_seconds
format from_ms now_ms =
    if ltb now_ms from_ms then (0, s) ∷ [] else format_seconds ((now_ms - from_ms) / 1000)

-- What stands for a time: nothing, a text, a number if it is finite, or a Date if it is valid.
pub data Moment : Type 0 where
  nothing : Moment
  text : String → Moment
  number date : Option ℕ → Moment

module _ (date_parse : String → Option ℕ) where
  -- `parse`, with the parameter for `Date.parse`; `none` is null, and NaN before it.
  unfoldable pub parse : Moment → Option ℕ
  parse nothing = none
  parse (text t) = if str_eq t "" then none else date_parse t
  parse (number n) = n
  parse (date n) = n
