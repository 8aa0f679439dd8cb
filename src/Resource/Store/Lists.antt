-- ===== src/Resource/Store/Lists.antt =====
-- The operations of ClusterResourceStore.ts on all of its lists. A function that waits is split at the
-- wait; an action is any request about one row, whose own calls are left to the caller.
use kubiq.Resource.Listing.{Cursor, Result}
use kubiq.Resource.Store.{State, empty, is_none}
use kubiq.Base.{
  ℕ, Bool, true, false, ◌&&◌, not, List, [], ◌∷◌, ◌++◌, Option, none, some, String, str_eq,
  if◌then◌else◌, map_get, map_set,
}

-- What goes to the event bus: the context of an AppErrorEvent.
pub data Emitted : Type 0 where
  app_error : String → Emitted

-- An error, as the store reads one.
pub record Failure : Type 0 where
  pub message : String
  pub details : String
  pub forbidden : Bool

abbrev pub Lists : Type 0 → Type 0
Lists E = List (String × State E)

abbrev pub or_empty : {E : Type 0} → Option (State E) → State E
or_empty none = empty
or_empty (some s) = s

-- `key.startsWith(prefix)`, which reads characters, is a parameter of `forget`.
unfoldable pub without_prefix : {E : Type 0} → (String → Bool) → Lists E → Lists E
without_prefix of_cluster [] = []
without_prefix of_cluster ((k, s) ∷ lists) =
    let rest = without_prefix of_cluster lists in if of_cluster k then rest else (k, s) ∷ rest

unfoldable pub without : String → List String → List String
without k [] = []
without k (j ∷ ks) = if str_eq j k then without k ks else j ∷ without k ks

module _ {E : Type 0} where
  unfoldable pub by_key : String → Lists E → State E
  by_key key lists = or_empty (map_get key lists)

  unfoldable pub patch : String → (State E → State E) → Lists E → Lists E
  unfolding by_key
  patch key change lists = map_set key (change (by_key key lists)) lists

  unfoldable pub set_items : String → List E → Option ℕ → List Cursor → Lists E → Lists E
  unfolding patch
  set_items key items total cursors = patch key (λ s. record s {
    items = items;
    total = total;
    loaded = true;
    cursors = cursors;
    flash_keys = [];
  })

  -- `load` up to its wait.
  unfoldable pub load : String → Lists E → Lists E
  unfolding patch
  load key =
      patch key (λ s. record s { loading = true; error = ""; error_detail = ""; forbidden = false })

  abbrev pub loading_ends : State E → State E
  loading_ends s = record s { loading = false }

  unfoldable pub load_reads : String → Result E → Lists E → Lists E
  unfolding set_items
  load_reads key r lists = patch key loading_ends (set_items key r.items r.total r.cursors lists)

  unfoldable pub load_fails : String → Failure → Lists E → Lists E × List Emitted
  unfolding patch
  load_fails key f lists =
      let failed =
        patch key
          (λ s. record s { error = f.message; error_detail = f.details; forbidden = f.forbidden })
          lists in
      (
        patch key loading_ends failed,
        if f.forbidden then [] else app_error "ClusterResourceStore.load" ∷ [],
      )

  -- The guard of `watch`.
  unfoldable pub starts_watch : Bool → State E → Bool
  starts_watch can_watch s = can_watch && s.loaded && not (is_none s.cursors)

  unfoldable pub watched : String → Lists E → Lists E
  unfolding patch
  watched key = patch key (λ s. record s { watching = true; stale_since = 0 })

  abbrev pub stale_at : ℕ → State E → State E
  stale_at at s = record s { watching = false; stale_since = at }

  unfoldable pub mark_stale : String → ℕ → Lists E → Lists E
  unfolding patch
  mark_stale key at = patch key (stale_at at)

  unfoldable pub watch_fails : String → ℕ → Lists E → Lists E × List Emitted
  unfolding mark_stale
  watch_fails key now lists =
      (mark_stale key now lists, app_error "ClusterResourceStore.watch" ∷ [])

  -- `unwatch` behind its wait.
  unfoldable pub unwatched : String → Lists E → Lists E
  unfolding patch
  unwatched key = patch key (λ s. record s { watching = false; stale_since = 0; flash_keys = [] })

  unfoldable pub mark_busy : String → String → Bool → Lists E → Lists E
  unfolding patch without
  mark_busy key row busy = patch key (λ s. record s {
    busy_keys = if busy then s.busy_keys ++ row ∷ [] else without row s.busy_keys;
  })

  -- `act` around its action.
  unfoldable pub act : String → String → Lists E → Lists E
  unfolding mark_busy
  act key row lists = mark_busy key row true lists

  unfoldable pub acted : String → String → String → Bool → Lists E → Lists E × List Emitted
  unfolding mark_busy
  acted key row context failed lists =
      (mark_busy key row false lists, if failed then app_error context ∷ [] else [])

  pub forget : (String → Bool) → Lists E → Lists E
  unfolding without_prefix
  forget of_cluster lists = without_prefix of_cluster lists
