-- ===== src/Cluster/Health/Streaks/Tests.antt =====
-- A run of two refusals in a row.
use kubiq.Base.{◌≡◌, refl, List, [], ◌∷◌, none, some, String}
use kubiq.Cluster.Failure.{kind_of}
use kubiq.Cluster.Health.{Health, Fault, new_monitor, health_of, succeeded, fault_kind}
use kubiq.Cluster.Health.Streaks.{
  is_counted, AllCounted, reported_by, last_reported, refuse_all, streak_health,
}

abbrev plain : String → String
plain s = s

abbrev gateway_timeout : Fault
gateway_timeout = Fault.api_error "slow" none (some 504)

abbrev two_refusals : List Fault
two_refusals = gateway_timeout ∷ gateway_timeout ∷ []

two_refusals-AllCounted : AllCounted plain two_refusals
unfolding AllCounted is_counted reported_by fault_kind kind_of
two_refusals-AllCounted = (refl, (refl, tt))

streak_health_example :
    health_of "a" (refuse_all plain "a" two_refusals (succeeded "a" new_monitor).0)
    ≡ last_reported plain Health.healthy two_refusals
streak_health_example = streak_health plain "a" two_refusals new_monitor two_refusals-AllCounted
