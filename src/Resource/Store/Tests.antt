-- ===== src/Resource/Store/Tests.antt =====
-- A list of two objects and a batch that changes, deletes and adds.
use kubiq.Resource.Store.{
  Change, ChangeType, added, modified, deleted, State, empty, apply_changes, shift_total,
}
use kubiq.Resource.Store.Changes.{Unique, apply_each, items-apply_changes}
use kubiq.Resource.Store.Live.{handle, run-handle}
use kubiq.Watch.Session.{new}
use kubiq.Watch.Session.Order.{Event, accepts, flushes, run, reported}
use kubiq.Base.{
  ℕ, ◌≡◌, refl, true, List, [], ◌∷◌, some, String, length, map_get, map_set, map_delete,
}

-- An object is its key and its version.
abbrev key_of : String × ℕ → String
key_of e = e.0

abbrev change : ChangeType → String → ℕ → Change (String × ℕ)
change type key version = record { type = type; key = key; entity = (key, version) }

abbrev pods : State (String × ℕ)
pods = record empty { items = ("a", 1) ∷ ("b", 1) ∷ []; total = some 7; loaded = true }

abbrev batch : List (Change (String × ℕ))
batch =
    change modified "b" 2
    ∷ change deleted "a" 2
    ∷ change added "c" 1
    ∷ change deleted "x" 1
    ∷ change added "a" 3
    ∷ change modified "c" 2
    ∷ []

items-batch : (apply_changes key_of batch pods).items ≡ ("b", 2) ∷ ("c", 2) ∷ ("a", 3) ∷ []
unfolding apply_changes map_get map_set map_delete
items-batch = refl

total-batch : (apply_changes key_of batch pods).total ≡ some 8
unfolding apply_changes map_get map_set map_delete
total-batch = refl

items-apply_changes_example :
    ((apply_changes key_of batch pods).items ≡ apply_each key_of batch pods.items)
    × Unique key_of (apply_changes key_of batch pods).items
    × ((apply_changes key_of batch pods).total
        ≡ shift_total pods.total
            (length (apply_changes key_of batch pods).items)
            (length pods.items))
items-apply_changes_example =
    items-apply_changes key_of batch pods ((refl, tt), (tt, tt))
      (refl, (refl, (refl, (refl, (refl, (refl, tt)))))) refl

abbrev history : List (Event (Change (String × ℕ)))
history =
    accepts (change modified "b" 2)
    ∷ accepts (change deleted "a" 2)
    ∷ flushes
    ∷ accepts (change added "c" 1)
    ∷ []

run-handle_example :
    apply_each key_of
      (run history (new 250)).0.pending
      (handle key_of (run history (new 250)).1 pods).items
    ≡ apply_each key_of (reported history) pods.items
unfolding run
run-handle_example =
    run-handle key_of history 250 pods ((refl, tt), (tt, tt)) refl (refl, (refl, (refl, tt))) refl
      refl
