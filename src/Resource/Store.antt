-- ===== src/Resource/Store.antt =====
-- frontend/src/store/modules/clusterResource/ClusterResourceStore.ts: the lists that the views show, by
-- cluster and kind, and how the changes of a watch go into them. `E` is the entities and `key_of` is
-- KubeObjectKey.of. Functions that wait are split at the wait. An error is its texts and whether the
-- cluster refused; the event bus is the list of what goes to it.
pub mod Slots
pub mod Lists
pub mod Changes
pub mod Live
mod Tests
use kubiq.Resource.Listing.{Cursor, Result}
use kubiq.Base.{
  ℕ, zero, suc, ◌+◌, ◌-◌, Bool, true, false, ◌&&◌, ◌||◌, not, List, [], ◌∷◌, ◌++◌, Option, none,
  some, String, str_eq, ◌==◌, if◌then◌else◌, length, map_get, map_set, map_delete,
}

pub data ChangeType : Type 0 where
  added modified deleted : ChangeType

abbrev pub is_deleted : ChangeType → Bool
is_deleted deleted = true
is_deleted _ = false

-- TResourceChange
pub record Change (E : Type 0) : Type 0 where
  pub type : ChangeType
  pub key : String
  pub entity : E

-- TResourceListState
pub record State (E : Type 0) : Type 0 where
  pub items : List E
  pub total : Option ℕ
  pub loading : Bool
  pub loaded : Bool
  pub error : String
  pub error_detail : String
  pub forbidden : Bool
  pub busy_keys : List String
  pub cursors : List Cursor
  pub watching : Bool
  pub stale_since : ℕ
  pub flash_keys : List String

-- The variables of the loop of `applyChanges`.
pub record Merging (E : Type 0) : Type 0 where
  pub slots : List (Option E)
  pub positions : List (String × ℕ)
  pub touched : List String
  pub removed : ℕ
  pub added : ℕ

abbrev pub empty : {E : Type 0} → State E
empty = record {
  items = [];
  total = none;
  loading = false;
  loaded = false;
  error = "";
  error_detail = "";
  forbidden = false;
  busy_keys = [];
  cursors = [];
  watching = false;
  stale_since = 0;
  flash_keys = [];
}

abbrev pub is_none : {A : Type 0} → List A → Bool
is_none [] = true
is_none (x ∷ xs) = false

-- `Math.max(total + by, 0)`, where `by` is the difference of the two.
abbrev pub shift_total : Option ℕ → ℕ → ℕ → Option ℕ
shift_total none more fewer = none
shift_total (some total) more fewer = some (total + more - fewer)

module _ {E : Type 0} where
  -- `[...items]`
  unfoldable pub filled : List E → List (Option E)
  filled [] = []
  filled (x ∷ xs) = some x ∷ filled xs

  -- `slots.filter(item => !!item)`
  unfoldable pub compact : List (Option E) → List E
  compact [] = []
  compact (none ∷ slots) = compact slots
  compact (some x ∷ slots) = x ∷ compact slots

  -- `slots[at] = slot`, where `at` is in range.
  unfoldable pub put : ℕ → Option E → List (Option E) → List (Option E)
  put at slot [] = []
  put zero slot (x ∷ slots) = slot ∷ slots
  put (suc at) slot (x ∷ slots) = x ∷ put at slot slots

  -- One round of the loop.
  unfoldable pub merge_one : Merging E → Change E → Merging E
  unfolding put
  merge_one m c = elim (map_get c.key m.positions) [
    | some at ↦
        if is_deleted c.type
        then record m {
          slots = put at none m.slots;
          positions = map_delete c.key m.positions;
          removed = m.removed + 1;
        }
        else record m { slots = put at (some c.entity) m.slots; touched = m.touched ++ c.key ∷ [] }
    | none ↦ if is_deleted c.type then m else record m {
      positions = map_set c.key (length m.slots) m.positions;
      slots = m.slots ++ some c.entity ∷ [];
      added = m.added + 1;
      touched = m.touched ++ c.key ∷ [];
    }
  ]

  unfoldable pub merge_all : Merging E → List (Change E) → Merging E
  unfolding merge_one
  merge_all m [] = m
  merge_all m (c ∷ cs) = merge_all (merge_one m c) cs

  -- Where a list's `filter` is left out, no slot is empty.
  unfoldable pub merged_items : Merging E → List E
  unfolding compact
  merged_items m = compact m.slots

module _ {E : Type 0} (key_of : E → String) where
  -- The loop that fills `positions`.
  unfoldable pub index_from : ℕ → List E → List (String × ℕ) → List (String × ℕ)
  index_from at [] positions = positions
  index_from at (x ∷ xs) positions = index_from (at + 1) xs (map_set (key_of x) at positions)

  abbrev pub merging : List E → Merging E
  merging items = record {
    slots = filled items;
    positions = index_from 0 items [];
    touched = [];
    removed = 0;
    added = 0;
  }

  -- `applyChanges`, on the state of one list.
  unfoldable pub apply_changes : List (Change E) → State E → State E
  unfolding merge_all merged_items filled index_from
  apply_changes changes s =
      let m = merge_all (merging s.items) changes in
      if not s.loaded || is_none changes then s else record s {
        items = merged_items m;
        total = shift_total s.total m.added m.removed;
        flash_keys = m.touched;
      }
