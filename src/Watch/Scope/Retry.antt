-- ===== src/Watch/Scope/Retry.antt =====
-- onClose and the retry of ResourceWatchScope.ts: how often, how late, and when the list goes stale.
mod Tests
use kubiq.Base.{
  leb, ◌==◌, if◌then◌else◌, ℕ, ◌-◌, ◌≡◌, refl, Bool, true, false, List, [], ◌∷◌, arith, String,
}
use kubiq.Watch.Scope.{
  Status, eof, Event, Call, sink_stale, set_timer, Scope, new, start, opened, open_failed,
  stop_open, stop, on_event, on_close, retry_fired, minimum_lifetime,
}

-- What calls a scope, one at a time, in any order that the bridge and the timers choose, with the
-- calls that it makes.
pub data Step : Scope → Scope → List Call → Type 0 where
  starts : (s : Scope) (now : ℕ) → Step s (start now s).0 (start now s).1
  opens : (s : Scope) (stream : ℕ) → Step s (opened stream s).0 (opened stream s).1
  open_fails : (s : Scope) → Step s (open_failed s).0 (open_failed s).1
  stops : (s : Scope) → Step s (stop s).0 (stop s).1
  hears : (s : Scope) (e : Event) → Step s (on_event e s).0 (on_event e s).1
  closes :
      (s : Scope) (status : Status) (now : ℕ)
      → Step s (on_close status now s).0 (on_close status now s).1
  fires : (s : Scope) (now : ℕ) → Step s (retry_fired now s).0 (retry_fired now s).1

pub data Reach (s : Scope) : Scope → Type 0 where
  here : Reach s s
  next : {t u : Scope} {calls : List Call} → Reach s t → Step t u calls → Reach s u

-- The two counters are one number.
abbrev pub IsCounted : Scope → Type 0
IsCounted s = s.attempt ≡ s.flaps

close-IsCounted :
    (s : Scope) (status : Status) (now : ℕ) → IsCounted s → IsCounted (on_close status now s).0
unfolding on_close
close-IsCounted s eof now h = ground arith
close-IsCounted s _ now h = ground arith

Step-IsCounted : {s t : Scope} {calls : List Call} → Step s t calls → IsCounted s → IsCounted t
unfolding start opened open_failed stop on_event retry_fired
Step-IsCounted (starts s now) h = ground arith
Step-IsCounted (opens s stream) h = h
Step-IsCounted (open_fails s) h = h
Step-IsCounted (stops s) h = ground arith
Step-IsCounted (hears s e) h = ground arith
Step-IsCounted (closes s status now) h = close-IsCounted s status now h
Step-IsCounted (fires s now) h = ground arith

Reach-IsCounted : {s t : Scope} → Reach s t → IsCounted s → IsCounted t
Reach-IsCounted here h = h
Reach-IsCounted (next r st) h = Step-IsCounted st (Reach-IsCounted r h)

-- What a watch that the API server closed asks for: a retry at once if it lived its minimum, after
-- a first flap in half a second, after a second in a second, and then no more.
abbrev pub retry_plan : ℕ → Scope → List Call
retry_plan now s =
    if leb minimum_lifetime (now - s.opened_at)
    then set_timer 0 ∷ []
    else if s.flaps == 0
    then set_timer 500 ∷ []
    else if s.flaps == 1
    then set_timer 1000 ∷ []
    else sink_stale ∷ []

-- In every state that a new scope can reach with no retry scheduled and not stopped, an `eof`
-- makes just the calls of the plan: no call of the sink before the third flap in a row.
pub close_plan :
    (version : String) (s : Scope) (now : ℕ)
    → Reach (new version) s
    → s.stopped ≡ false
    → s.retry ≡ false
    → (on_close eof now s).1 ≡ retry_plan now s
unfolding on_close new
close_plan version s now r h k =
    let counted : s.attempt ≡ s.flaps = Reach-IsCounted r refl in ground (arith, counted)

-- What a step still calls when it comes to a stopped scope: a retried start that was already under
-- way and fails marks the list stale, and another stop stops a stream that opened meanwhile.
abbrev pub left_over : {s t : Scope} {calls : List Call} → Step s t calls → List Call
left_over (open_fails s) = sink_stale ∷ []
left_over (stops s) = stop_open s.stream
left_over _ = []

-- A stopped scope has no retry scheduled.
abbrev IsStopped : Scope → Type 0
IsStopped s = (s.stopped ≡ true) × (s.retry ≡ false)
