-- ===== src/Ui/RouteQuery/Tests.antt =====
-- Tests of RouteQueryState.ts.
use kubiq.Ui.RouteQuery.{
  one, many, Query, Field, typed, moved, perform, next_query, turn, text, schedule, set, set_field,
  same_snapshot, navigate, apply, read_back, loop, stop, turn_fails, idle, replacing, start,
}
use kubiq.Ui.RouteQuery.Settling.{Agrees, Distinct}
use kubiq.Ui.RouteQuery.Flush.{event-settles, AgreesBefore, ended, flushed}
use kubiq.Base.{
  ◌≡◌, refl, true, [], ◌∷◌, none, some, String, str_eq, if◌then◌else◌, All, map_get, map_set,
  map_delete,
}

abbrev search : Field
search = record { key = "q"; default_value = none; value = "" }

abbrev tab : Field
tab = record { key = "tab"; default_value = some "list"; value = "list" }

-- A tab only reads what it knows.
abbrev known_tab : String → String → String
known_tab k v = if str_eq k "tab" then "list" else v

abbrev address : Query
address = ("page", one (some "2")) ∷ []

agrees-before : AgreesBefore (typed "q" "pods") address (search ∷ tab ∷ [])
unfolding AgreesBefore text map_get
agrees-before = (refl, (refl, tt))

event-settles_example :
    (after : Query) × (flushed known_tab
        (perform known_tab (typed "q" "pods") (ended (search ∷ tab ∷ []) address))
      ≡ ended
          (perform known_tab (typed "q" "pods") (ended (search ∷ tab ∷ []) address)).fields
          after)
    × (All
        (Agrees after)
        (perform known_tab (typed "q" "pods") (ended (search ∷ tab ∷ []) address)).fields)
    × Distinct (perform known_tab (typed "q" "pods") (ended (search ∷ tab ∷ []) address)).fields
event-settles_example =
    event-settles known_tab (search ∷ tab ∷ []) (typed "q" "pods") address ((refl, tt), (tt, tt))
      agrees-before

settled-typed :
    (flushed known_tab
      (perform known_tab (typed "q" "pods") (ended (search ∷ tab ∷ []) address))).query
    ≡ ("page", one (some "2")) ∷ ("q", one (some "pods")) ∷ []
unfolding perform set set_field same_snapshot schedule turn next_query text navigate apply read_back
    loop map_get map_set map_delete
settled-typed = refl

-- An address that names an unknown tab is put right.
settled-refused :
    (flushed known_tab (
      perform known_tab
        (moved (("tab", many (some "none" ∷ [])) ∷ []))
        (ended (search ∷ tab ∷ []) address))).query
    ≡ []
unfolding perform set set_field same_snapshot schedule turn next_query text navigate apply read_back
    loop map_get map_set map_delete
settled-refused = refl

started : (start known_tab (stop (ended (search ∷ []) (("q", one (some "x")) ∷ [])))).pending ≡ true
unfolding start stop apply read_back schedule text map_get
started = refl

failed-turn :
    (turn_fails (record (ended (search ∷ []) address) { phase = replacing address })).phase ≡ idle
unfolding turn_fails
failed-turn = refl

-- The value that a field has, typed again, starts no flush.
typed-again : (perform known_tab (typed "q" "") (ended (search ∷ []) address)).phase ≡ idle
unfolding perform set set_field same_snapshot schedule
typed-again = refl
