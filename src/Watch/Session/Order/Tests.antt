-- ===== src/Watch/Session/Order/Tests.antt =====
-- Runs of a watch session.
use kubiq.Base.{ℕ, ◌≡◌, refl, List, [], ◌∷◌, ◌++◌, false}
use kubiq.Watch.Session.{new, accept, flush}
use kubiq.Watch.Session.Order.{Event, accepts, flushes, run, step, delivered, run-delivers}

abbrev history : List (Event ℕ)
history = accepts 1 ∷ accepts 2 ∷ flushes ∷ accepts 3 ∷ []

history-resyncing : (run history (new 100)).0.resyncing ≡ false
unfolding run step accept flush
history-resyncing = refl

history-stopped : (run history (new 100)).0.stopped ≡ false
unfolding run step accept flush
history-stopped = refl

run-delivers_example :
    delivered (run history (new 100)).1 ++ (run history (new 100)).0.pending ≡ 1 ∷ 2 ∷ 3 ∷ []
run-delivers_example = run-delivers history (new 100) history-resyncing history-stopped
