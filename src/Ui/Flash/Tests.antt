-- ===== src/Ui/Flash/Tests.antt =====
-- Runs of the flash of changed rows.
use kubiq.Base.{map_get, ◌≡◌, refl, [], ◌∷◌, false, arith, ltb, if◌then◌else◌}
use kubiq.Ui.Flash.{Flash, flash, has}
use kubiq.Ui.Flash.Bursts.{Unique, InOrder, has-flash, within_limit, listed}

abbrev sample : Flash
sample = record {
  events = 10 ∷ 20 ∷ [];
  expiry = ("a", 110) ∷ ("b", 120) ∷ [];
  duration = 100;
  burst_limit = 3;
  window = 50;
}

sample-Unique : Unique sample.expiry
unfolding map_get
sample-Unique = (refl, (refl, tt))

sample-InOrder : InOrder 0 sample.events 30
sample-InOrder = (omega arith, (omega arith, omega arith))

has-flash_example : has "b" 125 (flash ("b" ∷ []) 30 sample).0 ≡ (
    if within_limit 30 sample
    then (if listed "b" ("b" ∷ []) then ltb 125 130 else has "b" 125 sample)
    else false)
has-flash_example =
    has-flash ("b" ∷ []) "b" 30 125 sample sample-Unique sample-InOrder (omega arith)
