-- ===== src/Watch/Session.antt =====
-- frontend/src/application/services/resourceWatch/models/ResourceWatchSession.ts: the changes of all
-- the scopes of one list, batched. A scope is named by its namespace, a change is of any type, and
-- the waits of `start` and `stop` end the functions that precede them.
pub mod Order
use kubiq.Base.{
  ℕ, zero, suc, ◌+◌, ◌≡◌, refl, Bool, true, false, ◌||◌, List, [], ◌∷◌, ◌++◌, map, String, ltb,
  if◌then◌else◌, length, ◌==◌,
}

-- ResourceWatchLimits.maxPendingChanges
abbrev pub max_pending_changes : ℕ
max_pending_changes = 10000

pub data Call (C : Type 0) : Type 0 where
  start_scope stop_scope : String → Call C
  on_changes : List C → Call C
  on_resync : Call C
  on_stale : ℕ → Call C
  set_timer : ℕ → Call C
  clear_timer : Call C
  throw : Call C

pub record Session (C : Type 0) : Type 0 where
  pub scopes : List String
  pub pending : List C
  pub timer : Bool
  pub stopped : Bool
  pub resyncing : Bool
  pub stale_at : ℕ
  pub flush_interval : ℕ

abbrev pub new : {C : Type 0} → ℕ → Session C
new interval = record {
  scopes = [];
  pending = [];
  timer = false;
  stopped = false;
  resyncing = false;
  stale_at = 0;
  flush_interval = interval;
}

module _ {C : Type 0} where
  pub is_stale : Session C → Bool
  is_stale s = ltb 0 s.stale_at

  -- `start` up to its wait.
  pub start : List String → Session C → Session C × List (Call C)
  start cursors s =
      (record s { scopes = s.scopes ++ cursors }, map start_scope (s.scopes ++ cursors))

  unfoldable pub cancel_flush : Session C → Session C × List (Call C)
  cancel_flush s = if s.timer then (record s { timer = false }, clear_timer ∷ []) else (s, [])

  unfoldable pub stop : Session C → Session C × List (Call C)
  unfolding cancel_flush
  stop s =
      let (s', calls) = cancel_flush (record s { stopped = true }) in
      (record s' { pending = []; scopes = [] }, calls ++ map stop_scope s'.scopes)

  -- `start` behind its wait: whether some scope was rejected.
  pub start_settled : Bool → Session C → Session C × List (Call C)
  unfolding stop
  start_settled rejected s =
      let (s', calls) = stop s in if rejected then (s', calls ++ throw ∷ []) else (s, [])

  unfoldable pub schedule_flush : Session C → Session C × List (Call C)
  schedule_flush s =
      if s.timer then (s, []) else (record s { timer = true }, set_timer s.flush_interval ∷ [])

  unfoldable pub resync : Session C → Session C × List (Call C)
  resync s =
      if s.stopped || s.resyncing then (s, []) else (record s { resyncing = true }, on_resync ∷ [])

  unfoldable pub stale : ℕ → Session C → Session C × List (Call C)
  stale now s =
      if s.stopped || ltb 0 s.stale_at
      then (s, [])
      else (record s { stale_at = now }, on_stale now ∷ [])

  unfoldable pub accept : C → Session C → Session C × List (Call C)
  unfolding resync schedule_flush
  accept change s =
      let pushed = record s { pending = s.pending ++ change ∷ [] } in
      if s.stopped
      then (s, [])
      else if ltb max_pending_changes (length pushed.pending)
      then resync (record pushed { pending = [] })
      else schedule_flush pushed

  unfoldable pub flush : Session C → Session C × List (Call C)
  unfolding cancel_flush
  flush s =
      let (s', calls) = cancel_flush s in
      if length s'.pending == 0
      then (s', calls)
      else (record s' { pending = [] }, calls ++ on_changes s'.pending ∷ [])
