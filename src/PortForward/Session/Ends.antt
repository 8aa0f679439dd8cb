-- ===== src/PortForward/Session/Ends.antt =====
-- PortForwardSession.ts and its service: what the sink hears, in every order of events.
use kubiq.PortForward.Session.{
  opened, hold, stop, service_stop, recheck, lost, on_error, on_close, verify, answer, step,
}
use kubiq.PortForward.Session.State.{
  Status, error, Phase, asking, abandoning, Session, Call, report, forget, set_timer, clear_timer,
  throw_dropped, stop_forward, retarget, Event, opens, holds, ticks, stops, cluster_stops, closes,
  stop_done, fails, pod_answer, service_answer, pods_answer, moved, answer_fails,
}
use kubiq.PortForward.Target.{RemotePort, Pod, Backend}
use kubiq.Base.{
  ℕ, ◌≡◌, refl, ap, Bool, true, false, not, ◌&&◌, List, [], ◌∷◌, ◌++◌, Option, String, arith,
}

-- The statuses that the sink hears, in order.
unfoldable pub reports : List Call → List Status
reports [] = []
reports (report r ∷ calls) = r.status ∷ reports calls
reports (_ ∷ calls) = reports calls

pub reports-append : (xs ys : List Call) → reports (xs ++ ys) ≡ reports xs ++ reports ys
unfolding reports
reports-append [] ys = refl
reports-append (report r ∷ xs) ys = ap (λ l. r.status ∷ l) (reports-append xs ys)
reports-append (forget ∷ xs) ys = reports-append xs ys
reports-append (set_timer ∷ xs) ys = reports-append xs ys
reports-append (clear_timer ∷ xs) ys = reports-append xs ys
reports-append (throw_dropped ∷ xs) ys = reports-append xs ys
reports-append (stop_forward id ∷ xs) ys = reports-append xs ys
reports-append (retarget id b ∷ xs) ys = reports-append xs ys

-- A session is live, or stopped and waiting for its listener to end, or stopped for good.
pub data Stage : Type 0 where
  live leaving done : Stage

abbrev pub stage_of : Bool → Phase → Stage
stage_of over abandoning = leaving
stage_of true _ = done
stage_of false _ = live

abbrev pub stage : Session → Stage
stage s = stage_of s.stopped s.phase

-- Only a stopped session waits for its listener to end.
abbrev pub is_sane : Session → Bool
is_sane s = elim s.phase [ abandoning ↦ s.stopped | _ ↦ true ]

abbrev pub is_error : Status → Bool
is_error error = true
is_error _ = false

-- What the sink may hear at once, and where the session may go. A live session ends
-- unheard by an event that is `quiet`, and with an error by any other.
abbrev pub may : Bool → Stage → List Status → Stage → Bool
may quiet live [] live = true
may quiet live [] leaving = true
may quiet live [] done = quiet
may quiet live (x ∷ []) live = not (is_error x)
may quiet live (x ∷ []) done = is_error x && not quiet
may quiet leaving [] leaving = true
may quiet leaving (x ∷ []) done = is_error x
may quiet done [] done = true
may quiet _ _ _ = false

abbrev pub IsStep : Bool → Session → Session × List Call → Type 0
IsStep quiet s (s', calls) =
    (may quiet (stage s) (reports calls) (stage s') ≡ true) × (is_sane s' ≡ true)

-- A stop of the user or of the cluster's release.
abbrev pub is_quiet : Event → Bool
is_quiet stops = true
is_quiet cluster_stops = true
is_quiet _ = false

opened-IsStep :
    (id : String) (port : ℕ) (b : Backend) (s : Session)
    → is_sane s ≡ true
    → IsStep false s (opened id port b s)
unfolding opened reports
opened-IsStep id port b s h = ground (arith, h)

hold-IsStep : (s : Session) → is_sane s ≡ true → IsStep false s (hold s)
unfolding hold reports
hold-IsStep s h = ground (arith, h)

recheck-IsStep : (s : Session) → is_sane s ≡ true → IsStep false s (recheck s)
unfolding recheck reports
recheck-IsStep s h = ground (arith, h)

stop-IsStep : (s : Session) → is_sane s ≡ true → IsStep true s (stop s)
unfolding stop reports
stop-IsStep s h = ground (arith, h)

service_stop-IsStep : (s : Session) → is_sane s ≡ true → IsStep true s (service_stop s)
unfolding service_stop reports
service_stop-IsStep s h = ground (arith, h)

on_close-IsStep : (s : Session) → is_sane s ≡ true → IsStep false s (on_close s)
unfolding on_close reports
on_close-IsStep s h = ground (arith, h)

on_error-IsStep :
    (details : String) (s : Session) → is_sane s ≡ true → IsStep false s (on_error details s)
unfolding on_error reports
on_error-IsStep details s h = ground (arith, h)

verify-IsStep : (pod : Option Pod) (s : Session) → s.phase ≡ asking → IsStep false s (verify pod s)
unfolding verify reports
verify-IsStep pod s h = ground (arith, h)

module _ (normal : String → RemotePort) where
  answer-IsStep :
      (e : Event) (p : Phase) (s : Session)
      → s.phase ≡ p
      → is_sane s ≡ true
      → IsStep (is_quiet e) s (answer normal e p s)
  unfolding answer lost reports
  answer-IsStep (pod_answer pod) p s q h = ground (arith, q, h, verify-IsStep pod s)
  answer-IsStep (answer_fails message) p s q h = ground (arith, q, h)
  answer-IsStep (service_answer service) p s q h = ground (arith, q, h)
  answer-IsStep (pods_answer pods) p s q h = ground (arith, q, h)
  answer-IsStep moved p s q h = ground (arith, q, h)
  answer-IsStep stop_done p s q h = ground (arith, q, h)
  answer-IsStep (opens id port b) p s q h = ground (arith, q, h)
  answer-IsStep holds p s q h = ground (arith, q, h)
  answer-IsStep ticks p s q h = ground (arith, q, h)
  answer-IsStep stops p s q h = ground (arith, q, h)
  answer-IsStep cluster_stops p s q h = ground (arith, q, h)
  answer-IsStep closes p s q h = ground (arith, q, h)
  answer-IsStep (fails details) p s q h = ground (arith, q, h)

  pub step-IsStep :
      (e : Event) (s : Session) → is_sane s ≡ true → IsStep (is_quiet e) s (step normal e s)
  unfolding step
  step-IsStep (opens id port b) s h = opened-IsStep id port b s h
  step-IsStep holds s h = hold-IsStep s h
  step-IsStep ticks s h = recheck-IsStep s h
  step-IsStep stops s h = service_stop-IsStep s h
  step-IsStep cluster_stops s h = stop-IsStep s h
  step-IsStep closes s h = on_close-IsStep s h
  step-IsStep (fails details) s h = on_error-IsStep details s h
  step-IsStep (pod_answer pod) s h = answer-IsStep (pod_answer pod) s.phase s refl h
  step-IsStep (answer_fails m) s h = answer-IsStep (answer_fails m) s.phase s refl h
  step-IsStep (service_answer v) s h = answer-IsStep (service_answer v) s.phase s refl h
  step-IsStep (pods_answer pods) s h = answer-IsStep (pods_answer pods) s.phase s refl h
  step-IsStep moved s h = answer-IsStep moved s.phase s refl h
  step-IsStep stop_done s h = answer-IsStep stop_done s.phase s refl h
