-- ===== src/Ui/RouteQuery.antt =====
-- frontend/src/lib/router/query/RouteQueryState.ts: fields of a view that the address mirrors. A field
-- holds what it reads; `kept` is what it reads after a write, which may be refused or changed. Vue's
-- watcher runs at once when what is read changes, and vue-router's `replace` makes the query what it is
-- given. `phase` is what the running flush waits for: nothing runs, a microtask, or a navigation.
pub mod Settling
pub mod Keys
pub mod Flush
mod Tests
use kubiq.Base.{
  Bool, true, false, ◌&&◌, ◌||◌, not, List, [], ◌∷◌, Option, none, some, String, str_eq,
  if◌then◌else◌, map_get, map_set, map_delete,
}

-- LocationQueryValue, alone or in an array.
pub data QueryValue : Type 0 where
  one : Option String → QueryValue
  many : List (Option String) → QueryValue

abbrev pub Query : Type 0
Query = List (String × QueryValue)

-- TRouteQueryField, with the value that it reads.
pub record Field : Type 0 where
  pub key : String
  pub default_value : Option String
  pub value : String

pub data Phase : Type 0 where
  idle resting : Phase
  replacing : Query → Phase

pub record State : Type 0 where
  pub fields : List Field
  pub query : Query
  pub watching : Bool
  pub pending : Bool
  pub phase : Phase

abbrev pub fallback : Field → String
fallback f = elim f.default_value [ none ↦ "" | some d ↦ d ]

unfoldable pub text : Option QueryValue → Option String
text none = none
text (some (one v)) = v
text (some (many [])) = none
text (some (many (v ∷ vs))) = v

-- `raw ?? fallback`
abbrev pub or_fallback : Field → Option String → String
or_fallback f none = fallback f
or_fallback f (some t) = t

abbrev pub same_text : Option String → Option String → Bool
same_text none none = true
same_text (some a) (some b) = str_eq a b
same_text _ _ = false

-- What the address should say of a field.
abbrev pub wanted : Field → Option String
wanted f = if str_eq f.value (fallback f) then none else some f.value

abbrev pub write_query : String → Option String → Query → Query
write_query k none next = map_delete k next
write_query k (some t) next = map_set k (one (some t)) next

-- The loop of `nextQuery`, with its two variables.
unfoldable pub next_from : Query → List Field → Query → Bool → Query × Bool
unfolding text
next_from current [] next changed = (next, changed)
next_from current (f ∷ fs) next changed =
    let skipped = next_from current fs next changed in
    let written = next_from current fs (write_query f.key (wanted f) next) true in
    if same_text (wanted f) (text (map_get f.key current)) then skipped else written

unfoldable pub next_query : List Field → Query → Option Query
unfolding next_from
next_query fields current =
    let (next, changed) = next_from current fields current false in
    if changed then some next else none

unfoldable pub schedule : State → State
schedule s = elim s.phase [
  | idle ↦ record s { phase = resting; pending = false }
  | _ ↦ record s { pending = true }
]

-- What happens to a view at rest.
pub data Event : Type 0 where
  typed : String → String → Event
  moved : Query → Event

unfoldable pub stop : State → State
stop s = record s { watching = false }

-- The test of the loop of `flush`, and what follows the loop.
unfoldable pub loop : State → State
loop s =
    if s.pending then record s { pending = false; phase = resting } else record s { phase = idle }

-- A navigation that fails: the error leaves the loop, and `finally` clears the queue.
unfoldable pub turn_fails : State → State
turn_fails s = elim s.phase [ replacing next ↦ record s { phase = idle } | _ ↦ s ]

-- The view sets a field.
unfoldable pub set_field : String → String → List Field → List Field
set_field k v [] = []
set_field k v (f ∷ fs) =
    if str_eq f.key k then record f { value = v } ∷ fs else f ∷ set_field k v fs

-- Whether `snapshot` is the same of two states of the fields.
unfoldable pub same_snapshot : List Field → List Field → Bool
same_snapshot [] [] = true
same_snapshot (f ∷ fs) (g ∷ gs) = str_eq f.value g.value && same_snapshot fs gs
same_snapshot _ _ = false

-- The watcher schedules when the snapshot is another one.
unfoldable pub set : String → String → State → State
unfolding set_field same_snapshot schedule
set k v s =
    let written = record s { fields = set_field k v s.fields } in
    if s.watching && not (same_snapshot s.fields written.fields) then schedule written else written

module _ (kept : String → String → String) where
  -- The fields after `apply`, and whether what they read has changed.
  unfoldable pub read_back : Query → List Field → List Field × Bool
  unfolding text
  read_back query [] = ([], false)
  read_back query (f ∷ fs) =
      let (rest, changed) = read_back query fs in
      let asked = or_fallback f (text (map_get f.key query)) in
      let after = kept f.key asked in
      if str_eq f.value asked
      then (f ∷ rest, changed)
      else (record f { value = after } ∷ rest, not (str_eq f.value after) || changed)

  -- `apply`. Each change that the watcher sees schedules, and so does the end.
  unfoldable pub apply : State → State
  apply s =
      let (fields, changed) = read_back s.query s.fields in
      let applied = record s { fields = fields } in
      schedule (if changed && s.watching then schedule applied else applied)

  unfoldable pub start : State → State
  unfolding apply
  start s = if s.watching then s else apply (record s { watching = true })

  -- `afterEach` listens as long as the watcher does.
  unfoldable pub navigate : Query → State → State
  navigate query s =
      let moved = record s { query = query } in if s.watching then apply moved else moved

  -- What the running flush does when its wait ends: `write` and the test of its loop.
  unfoldable pub turn : State → State
  turn s = elim s.phase [
    | idle ↦ s
    | resting ↦
        if s.watching
        then elim (next_query s.fields s.query) [
          | none ↦ loop s
          | some next ↦ record s { phase = replacing next }
        ]
        else loop s
    | replacing next ↦ loop (navigate next s)
  ]

  unfoldable pub perform : Event → State → State
  perform (typed k v) s = set k v s
  perform (moved query) s = navigate query s
