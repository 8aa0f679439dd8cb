-- ===== src/Cluster/Health/Tests.antt =====
-- Runs of the health monitor.
use kubiq.Base.{true, false, refl, List, ◌≡◌, [], ◌∷◌, none, some, String}
use kubiq.Cluster.Health.{
  Health, Monitor, Store, forget, succeeded, Fault, new_monitor, new_store, health_of, detail_of,
  shown_health, shown_detail,
}
use kubiq.Cluster.Health.Reports.{
  Report, in_order, report_all, store-agrees, publish, forgotten_stays_shown,
}

abbrev plain : String → String
plain s = s

abbrev gateway_timeout : Fault
gateway_timeout = Fault.api_error "slow" none (some 504)

abbrev unauthorized : Fault
unauthorized = Fault.api_error "sign in" none (some 401)

-- Cluster "b" is released and disconnected; meanwhile "a" refuses again, and is released later.
abbrev history : List Report
history =
    Report.refused "a" gateway_timeout
    ∷ Report.refused "b" unauthorized
    ∷ Report.released "b"
    ∷ Report.refused "a" gateway_timeout
    ∷ Report.disconnected "b"
    ∷ Report.answered "b"
    ∷ Report.refused "b" unauthorized
    ∷ Report.released "a"
    ∷ []

history-in_order : in_order "b" false history ≡ true
unfolding in_order
history-in_order = refl

store-agrees_example :
    let both = report_all plain history (new_monitor, new_store) in
    (shown_health "b" both.1 ≡ health_of "b" both.0)
    × (shown_detail "b" both.1 ≡ detail_of "b" both.0)
store-agrees_example = store-agrees plain history "b" history-in_order

-- Cluster "b" refused the credentials.
abbrev expired_monitor : Monitor
expired_monitor = record {
  health = ("b", Health.expired) ∷ [];
  details = ("b", "sign in") ∷ [];
  misses = [];
}

abbrev expired_store : Store
expired_store = record {
  health = ("b", Health.expired) ∷ [];
  details = ("b", "sign in") ∷ [];
  online = true;
}

forgotten_stays_shown_example :
    let answer = succeeded "b" (forget "b" expired_monitor) in
    (health_of "b" answer.0 ≡ Health.healthy)
    × (shown_health "b" (publish answer.1 expired_store) ≡ shown_health "b" expired_store)
forgotten_stays_shown_example = forgotten_stays_shown "b" expired_monitor expired_store
