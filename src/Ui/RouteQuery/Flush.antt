-- ===== src/Ui/RouteQuery/Flush.antt =====
-- flush of RouteQueryState.ts: the loop comes to its end.
use kubiq.Ui.RouteQuery.{
  typed, moved, Event, perform, set, set_field, same_snapshot, Query, Field, idle, resting,
  replacing, State, next_query, schedule, read_back, apply, loop, navigate, turn,
}
use kubiq.Ui.RouteQuery.Settling.{
  Agrees, Distinct, read_back-settled, next_query-settled, next_query-Agrees, next_query-none,
}
use kubiq.Ui.RouteQuery.Keys.{SameKeys-Distinct, SameKeys-set_field, SameKeys-read_back}
use kubiq.Base.{
  Bool-cases, ◌≡◌, refl, ap, ◌∙◌, inl, inr, ◌⊎◌, arith, sym, str_eq_iff, str_eq, [], ◌∷◌, Bool,
  true, false, List, some, String, All, Option-cases,
}

-- A flush that waits for its microtask.
abbrev rested : List Field → Query → Bool → State
rested fields query pending = record {
  fields = fields;
  query = query;
  watching = true;
  pending = pending;
  phase = resting;
}

abbrev pub ended : List Field → Query → State
ended fields query = record {
  fields = fields;
  query = query;
  watching = true;
  pending = false;
  phase = idle;
}

-- What is asked of a view at rest before it is told of an event.
unfoldable pub AgreesBefore : Event → Query → List Field → Type 0
AgreesBefore (typed k v) query fields = All (Agrees query) fields
AgreesBefore (moved next) query fields = Unit

abbrev IsTyped : Event → Type 0
IsTyped (typed k v) = Unit
IsTyped (moved next) = ⊥

AgreesBefore-typed :
    (e : Event) (query : Query) (fields : List Field)
    → IsTyped e
    → AgreesBefore e query fields
    → All (Agrees query) fields
unfolding AgreesBefore
AgreesBefore-typed (typed k v) query fields i h = h
AgreesBefore-typed (moved next) query fields i h = elim i [ ]

same_snapshot-set_field :
    (k v : String) (fs : List Field)
    → same_snapshot fs (set_field k v fs) ≡ true
    → set_field k v fs ≡ fs
unfolding same_snapshot set_field
same_snapshot-set_field k v [] h = refl
same_snapshot-set_field k v (f ∷ fs) h = elim (Bool-cases (str_eq f.key k)) [
  | inl e ↦
      let same : str_eq f.value v ≡ true = ground (arith, h, e) in
      rw (e) (ap (λ w. record f { value = w } ∷ fs) (sym ((str_eq_iff f.value v).0 same)))
  | inr e ↦
      let rest : same_snapshot fs (set_field k v fs) ≡ true = ground (arith, h, e) in
      rw (e) (ap (λ gs. f ∷ gs) (same_snapshot-set_field k v fs rest))
]

module _ (kept : String → String → String) (fields : List Field) where
  -- The two waits of a round that writes nothing.
  turn_agreed :
      (query : Query) (pending : Bool)
      → All (Agrees query) fields
      → turn kept (rested fields query pending) ≡ loop (rested fields query pending)
  unfolding turn
  turn_agreed query pending h = rw (next_query-settled query fields h) refl

  loop_pending : (query : Query) → loop (rested fields query true) ≡ rested fields query false
  unfolding loop
  loop_pending query = refl

  loop_done : (query : Query) → loop (rested fields query false) ≡ ended fields query
  unfolding loop
  loop_done query = refl

  turn-ended : (query : Query) → turn kept (ended fields query) ≡ ended fields query
  unfolding turn
  turn-ended query = refl

  turn-turn_agreed :
      (query : Query) (pending : Bool)
      → All (Agrees query) fields
      → turn kept (turn kept (rested fields query pending)) ≡ ended fields query
  turn-turn_agreed query true h =
      ap (turn kept) (turn_agreed query true h ∙ loop_pending query)
      ∙ turn_agreed query false h
      ∙ loop_done query
  turn-turn_agreed query false h =
      ap (turn kept) (turn_agreed query false h ∙ loop_done query) ∙ turn-ended query

  turn_navigated :
      (query next : Query) (pending : Bool)
      → All (Agrees next) fields
      → turn kept (record (rested fields query pending) { phase = replacing next })
        ≡ rested fields next false
  unfolding turn loop navigate apply schedule
  turn_navigated query next pending h = rw (read_back-settled kept next fields h) refl

  turn_written :
      (query next : Query) (pending : Bool)
      → next_query fields query ≡ some next
      → turn kept (rested fields query pending)
        ≡ record (rested fields query pending) { phase = replacing next }
  unfolding turn
  turn_written query next pending e = rw e refl

  turn_four_times :
      (query : Query) (pending : Bool)
      → Distinct fields
      → (after : Query) × (All (Agrees after) fields)
        × (turn kept (turn kept (turn kept (turn kept (rested fields query pending))))
            ≡ ended fields after)
  turn_four_times query pending d = elim (Option-cases (next_query fields query)) [
    | inl e ↦
        let agrees = next_query-none query fields e in
        (
          query,
          agrees,
          ap (λ s. turn kept (turn kept s)) (turn-turn_agreed query pending agrees)
              ∙ ap (turn kept) (turn-ended query)
              ∙ turn-ended query,
        )
    | inr (next, e) ↦
        let agrees = next_query-Agrees query next fields d e in
        (
          next,
          agrees,
          ap (λ s. turn kept (turn kept (turn kept s))) (turn_written query next pending e)
              ∙ ap (λ s. turn kept (turn kept s)) (turn_navigated query next pending agrees)
              ∙ turn-turn_agreed next false agrees,
        )
  ]

  -- The fields and the address after an event.
  after_event : Event → Query → List Field × Query
  after_event (typed k v) query = (set_field k v fields, query)
  after_event (moved next) query = ((read_back kept next fields).0, next)

  perform-ended :
      (e : Event) (query : Query)
      → ((pending : Bool) × (perform kept e (ended fields query)
            ≡ rested (after_event e query).0 (after_event e query).1 pending))
        ⊎ ((perform kept e (ended fields query) ≡ ended fields query) × IsTyped e)
  unfolding perform set navigate apply schedule after_event
  perform-ended (typed k v) query =
      elim (Bool-cases (same_snapshot fields (set_field k v fields))) [
        | inl e ↦
            inr (rw (e) (ap (λ fs. ended fs query) (same_snapshot-set_field k v fields e)), tt)
        | inr e ↦ inl (false, rw (e) refl)
      ]
  perform-ended (moved next) query = elim (Bool-cases ((read_back kept next fields).1)) [
    | inl e ↦ inl (true, rw (e) refl)
    | inr e ↦ inl (false, rw (e) refl)
  ]

  after_event-Distinct :
      (e : Event) (query : Query) → Distinct fields → Distinct (after_event e query).0
  unfolding after_event
  after_event-Distinct (typed k v) query d =
      SameKeys-Distinct fields (set_field k v fields) (SameKeys-set_field k v fields) d
  after_event-Distinct (moved next) query d =
      SameKeys-Distinct fields (read_back kept next fields).0 (SameKeys-read_back kept next fields)
        d

-- The flush after four of its waits.
abbrev pub flushed : (String → String → String) → State → State
flushed kept s = turn kept (turn kept (turn kept (turn kept s)))

flushed-ended :
    (kept : String → String → String) (fields : List Field) (query : Query)
    → flushed kept (ended fields query) ≡ ended fields query
unfolding turn
flushed-ended kept fields query = refl

-- Whatever a view at rest with distinct field keys is told (a field is typed into, or the address is
-- moved), and whatever its fields refuse, its flush ends after at most four waits: nothing runs,
-- the fields are what the event made them, and the address agrees with each of them; the keys are
-- still distinct. Where a field is typed into, the address agrees with the fields before, since a write
-- of the value that a field has starts no flush; where the address is moved, it may disagree.
pub event-settles :
    (kept : String → String → String) (fields : List Field) (e : Event) (query : Query)
    → Distinct fields
    → AgreesBefore e query fields
    → (after : Query) × (flushed kept (perform kept e (ended fields query))
        ≡ ended (perform kept e (ended fields query)).fields after)
      × (All (Agrees after) (perform kept e (ended fields query)).fields)
      × Distinct (perform kept e (ended fields query)).fields
event-settles kept fields e query d h = elim (perform-ended kept fields e query) [
  | inl (pending, told) ↦
      let next = after_event kept fields e query in
      let distinct = after_event-Distinct kept fields e query d in
      let (after, agrees, settled) = turn_four_times kept next.0 next.1 pending distinct in
      (after, rw (told) settled, rw (told) agrees, rw (told) distinct)
  | inr (told, is_typed) ↦ (
    query,
    rw (told) (flushed-ended kept fields query),
    rw (told) (AgreesBefore-typed e query fields is_typed h),
    rw (told) d,
  )
]
