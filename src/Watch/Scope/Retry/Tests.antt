-- ===== src/Watch/Scope/Retry/Tests.antt =====
-- Runs of a watch scope.
use kubiq.Base.{some, ◌≡◌, refl, false}
use kubiq.Watch.Scope.{Scope, new, eof, start, retry_fired, opened, on_close}
use kubiq.Watch.Scope.Retry.{
  Reach, here, next, starts, opens, closes, fires, close_plan, retry_plan,
}

-- A scope whose first watch was closed at once, and which has opened its second.
abbrev reopened : Scope
reopened = record {
  stream = some 8;
  resource_version = "7";
  opened_at = 600;
  flaps = 1;
  attempt = 1;
  retry = false;
  stopped = false;
}

reopened_reached : Reach (new "7") reopened
unfolding new start opened on_close retry_fired
reopened_reached =
    next
      (next (next (next (next here (starts (new "7") 0)) (opens _ 7)) (closes _ eof 100))
        (fires _ 600))
      (opens _ 8)

close_plan_example : (on_close eof 700 reopened).1 ≡ retry_plan 700 reopened
close_plan_example = close_plan "7" reopened 700 reopened_reached refl refl
