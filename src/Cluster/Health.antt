-- ===== src/Cluster/Health.antt =====
-- frontend/src/infrastructure/kube/KubeHealthMonitor.ts, with ClusterHealthCatalog.ts and
-- ClusterHealthStore.ts: the health of each cluster, which the failures of its requests decide and
-- which the store shows. `lower` is JavaScript's `toLowerCase`.
pub mod Reports
pub mod Streaks
mod Tests
use kubiq.Cluster.Failure.{FailureKind, kind_of, is_transient}
use kubiq.Base.{
  ℕ, ◌+◌, Bool, true, false, List, [], ◌∷◌, Option, none, some, String, ltb, leb, ◌==◌,
  if◌then◌else◌, map_get, map_set, map_delete,
}

pub data Health : Type 0 where
  healthy degraded expired unreachable : Health

-- ClusterHealthCatalog.ofFailure
abbrev pub of_failure : FailureKind → Health
of_failure FailureKind.unauthorized = Health.expired
of_failure FailureKind.unreachable = Health.unreachable
of_failure FailureKind.tls = Health.unreachable
of_failure FailureKind.disconnected = Health.unreachable
of_failure kind = if is_transient kind then Health.degraded else Health.healthy

-- `===` on healths.
abbrev pub health_eq : Health → Health → Bool
health_eq Health.healthy Health.healthy = true
health_eq Health.degraded Health.degraded = true
health_eq Health.expired Health.expired = true
health_eq Health.unreachable Health.unreachable = true
health_eq _ _ = false

abbrev pub needs_reconnect : Health → Bool
needs_reconnect health = health_eq health Health.expired

abbrev pub is_healthy : Health → Bool
is_healthy health = health_eq health Health.healthy

-- What a request was refused with: an ApiError, or anything else that was thrown.
pub data Fault : Type 0 where
  api_error : (message : String) → (details : Option String) → (status : Option ℕ) → Fault
  other : Fault

pub or_else {ℓ} : {A : Type ℓ} → A → Option A → A
or_else d none = d
or_else d (some a) = a

-- KubeStatusReader.kindOf
pub fault_kind : (lower : String → String) → Fault → FailureKind
unfolding or_else
fault_kind lower (Fault.api_error message details (some status)) =
    kind_of lower status (or_else "" details)
fault_kind lower (Fault.api_error message details none) = FailureKind.unknown
fault_kind lower Fault.other = FailureKind.unknown

abbrev pub message_of : Fault → String
message_of (Fault.api_error message details status) = message
message_of Fault.other = ""

abbrev pub failures_before_degraded : ℕ
failures_before_degraded = 2

pub record Monitor : Type 0 where
  pub health : List (String × Health)
  pub details : List (String × String)
  pub misses : List (String × ℕ)

-- ClusterHealthChangedEvent
pub record Changed : Type 0 where
  pub cluster : String
  pub health : Health
  pub detail : String

pub new_monitor : Monitor
new_monitor = record { health = []; details = []; misses = [] }

pub health_of : String → Monitor → Health
unfolding or_else
health_of id m = or_else Health.healthy (map_get id m.health)

pub detail_of : String → Monitor → String
unfolding or_else
detail_of id m = or_else "" (map_get id m.details)

pub misses_of : String → Monitor → ℕ
unfolding or_else
misses_of id m = or_else 0 (map_get id m.misses)

pub apply : String → Health → String → Monitor → Monitor × List Changed
unfolding health_of
apply id health detail m = if health_eq (health_of id m) health then (m, []) else (
  record m { health = map_set id health m.health; details = map_set id detail m.details },
  record { cluster = id; health = health; detail = detail } ∷ [],
)

pub succeeded : String → Monitor → Monitor × List Changed
unfolding apply
succeeded id m = apply id Health.healthy "" (record m { misses = map_delete id m.misses })

-- `failed` where its failure was classed.
pub failed_with : String → Health → String → Monitor → Monitor × List Changed
unfolding succeeded apply misses_of
failed_with id reported detail m =
    if is_healthy reported
    then succeeded id m
    else if needs_reconnect reported
    then apply id reported detail m
    else let missed = misses_of id m + 1 in
      let counted = record m { misses = map_set id missed m.misses } in
      if leb failures_before_degraded missed
      then apply id reported detail counted
      else (counted, [])

pub failed : (lower : String → String) → String → Fault → Monitor → Monitor × List Changed
unfolding failed_with fault_kind
failed lower id fault m = failed_with id (of_failure (fault_kind lower fault)) (message_of fault) m

pub forget : String → Monitor → Monitor
forget id m = record {
  health = map_delete id m.health;
  details = map_delete id m.details;
  misses = map_delete id m.misses;
}

pub forget_all : Monitor → Monitor
forget_all m = record { health = []; details = []; misses = [] }

-- ClusterHealthStore, which its handler fills from the events.
pub record Store : Type 0 where
  pub health : List (String × Health)
  pub details : List (String × String)
  pub online : Bool

pub new_store : Store
new_store = record { health = []; details = []; online = true }

pub shown_health : String → Store → Health
unfolding or_else
shown_health id s = or_else Health.healthy (map_get id s.health)

pub shown_detail : String → Store → String
unfolding or_else
shown_detail id s = or_else "" (map_get id s.details)

-- ClusterHealthHandler.apply, which calls the store's `set`.
pub set : Changed → Store → Store
set e s = record s {
  health = map_set e.cluster e.health s.health;
  details = map_set e.cluster e.detail s.details;
}

pub forget_shown : String → Store → Store
forget_shown id s = record s { health = map_delete id s.health; details = map_delete id s.details }

pub is_settled : String → Store → Bool
unfolding shown_health
is_settled id s = if s.online then is_healthy (shown_health id s) else false
