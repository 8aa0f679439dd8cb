-- ===== src/PortForward/Session.antt =====
-- frontend/src/application/services/portForward/models/PortForwardSession.ts, and what
-- PortForwardService.ts does with one session: start from the answer of the listener on, recheck with
-- verify, move and abandon, stop, and the handlers of its errors and its end. `registered` says that the
-- service's map has this session under its id. A check that waits is the field `phase`, and the answer
-- that it waits for is the step that ends the wait. `normal` is that of PortForward/Target.
pub mod State
pub mod Ends
pub mod History
mod Tests
use kubiq.PortForward.Target.{
  RemotePort, Pod, Service, ServicePort, Backend, Result, ok, thrown, Unresolved, is_serving,
  resolve_service, resolve_backend,
}
use kubiq.PortForward.Session.State.{
  Status, is_active, Runtime, idle, Phase, Session, Call, new, Event, starting, active, stopped,
  waiting, reconnecting, error, resting, asking, finding, choosing, moving, abandoning, report,
  forget, set_timer, clear_timer, throw_dropped, stop_forward, retarget, opens, holds, ticks, stops,
  cluster_stops, closes, stop_done, fails, pod_answer, service_answer, pods_answer, moved,
  answer_fails,
}
use kubiq.Base.{
  ℕ, ◌≡◌, Bool, true, false, ◌&&◌, ◌||◌, not, List, [], ◌∷◌, ◌++◌, Option, none, some, String,
  str_eq, if◌then◌else◌,
}
use Prim.Native.String.{◌++◌ as ◌<>◌}

abbrev pub attach : String → ℕ → Backend → Session → Session
attach forward_id local_port backend s = record s {
  forward_id = forward_id;
  runtime = record {
    status = active;
    error = "";
    bound_port = local_port;
    pod_name = backend.pod_name;
    target_port = backend.target_port;
  };
}

-- `start` from the answer of the listener on, up to its wait for the previous session.
unfoldable pub opened : String → ℕ → Backend → Session → Session × List Call
opened forward_id local_port backend s =
    if s.stopped
    then (s, throw_dropped ∷ [])
    else (record (attach forward_id local_port backend s) { registered = true }, [])

unfoldable pub watch : Session → Session × List Call
watch s = if s.stopped || s.timer then (s, []) else (record s { timer = true }, set_timer ∷ [])

-- The rest of `start`: `hold` of the stream's registration, and `watch`.
unfoldable pub hold : Session → Session × List Call
unfolding watch
hold s = watch (record s { held = true })

unfoldable pub release : Session → Session × List Call
release s = (
  record s { held = false; timer = false },
  (if s.held then forget ∷ [] else []) ++ (if s.timer then clear_timer ∷ [] else []),
)

unfoldable pub update : (Runtime → Runtime) → Session → Session × List Call
update change s =
    if s.stopped
    then (s, [])
    else (record s { runtime = change s.runtime }, report (change s.runtime) ∷ [])

-- PortForwardSession.stop up to its wait.
unfoldable pub stop : Session → Session × List Call
unfolding release
stop s =
    let (s', calls) = release (record s { stopped = true }) in
    (s', if s.stopped then calls else calls ++ stop_forward s.forward_id ∷ [])

-- PortForwardService.stop, for this session.
unfoldable pub service_stop : Session → Session × List Call
unfolding stop
service_stop s = if s.registered then stop (record s { registered = false }) else (s, [])

abbrev pub claim_check : Session → Session × Bool
claim_check s = if s.stopped || s.checking then (s, false) else (record s { checking = true }, true)

-- `recheck` up to its wait for the pod.
unfoldable pub recheck : Session → Session × List Call
recheck s =
    let (s', claimed) = claim_check s in
    if s.registered && claimed then (record s' { phase = asking }, []) else (s, [])

-- The `finally` of `recheck`.
unfoldable pub release_check : Session → Session
release_check s = record s { checking = false; phase = resting }

abbrev pub checked : Session × List Call → Session × List Call
checked (s, calls) = (release_check s, calls)

abbrev pub error_text : Unresolved → String
error_text Unresolved.pod_gone = "The pod is gone"
error_text Unresolved.no_port = "That port is not declared"
error_text _ = "No running pod stands behind that service"

-- `move` after a `resolve` that throws.
unfoldable pub lost : String → Session → Session × List Call
unfolding update release_check
lost message s = checked (update (λ r. record r { status = reconnecting; error = message }) s)

unfoldable pub on_error : String → Session → Session × List Call
unfolding recheck
on_error details s = if s.stopped then (s, []) else recheck (record s { last_error = details })

abbrev pub dropped : String
dropped = "The forward was closed by the cluster"

-- `onClose`, with the owner's `onSessionClosed`.
unfoldable pub on_close : Session → Session × List Call
unfolding release
on_close s =
    let (s', calls) = release (record s { stopped = true }) in
    let message = if str_eq s.last_error "" then dropped else s.last_error in
    if s.stopped
    then (s, [])
    else (record s' { registered = false }, calls ++ report (idle Status.error message) ∷ [])

-- `verify` from the answer about the pod on. `abandon` goes up to its wait.
unfoldable pub verify : Option Pod → Session → Session × List Call
unfolding is_serving update stop release_check
verify pod s =
    let abandoned = stop (record s { registered = false; phase = abandoning }) in
    if s.stopped
    then (release_check s, [])
    else if elim pod [ none ↦ false | some p ↦ is_serving p ]
    then (if is_active s.runtime.status
        then (release_check s, [])
        else checked (update (λ r. record r { status = active; error = "" }) s))
    else if s.is_service
    then (record s { phase = finding }, [])
    else abandoned

abbrev pub deleted : Session → String
deleted s = "Pod " <> s.namespace <> "/" <> s.name <> " was deleted"

module _ (normal : String → RemotePort) where
  unfoldable pub answer : Event → Phase → Session → Session × List Call
  unfolding verify lost update release_check resolve_service resolve_backend
  answer (pod_answer pod) asking s = verify pod s
  answer (answer_fails message) asking s = (release_check s, [])
  answer (service_answer service) finding s = elim (resolve_service normal s.remote_port service) [
    | thrown e ↦ lost (error_text e) s
    | ok p ↦ (record s { phase = choosing p }, [])
  ]
  answer (answer_fails message) finding s = lost message s
  answer (pods_answer pods) (choosing p) s = elim (resolve_backend normal p pods) [
    | thrown e ↦ lost (error_text e) s
    | ok backend ↦
        if s.stopped
        then (release_check s, [])
        else (record s { phase = moving backend }, retarget s.forward_id backend ∷ [])
  ]
  answer (answer_fails message) (choosing p) s = lost message s
  answer moved (moving backend) s = checked (
      update
        (λ r. record r {
          status = active;
          error = "";
          pod_name = backend.pod_name;
          target_port = backend.target_port;
        })
        s)
  answer (answer_fails message) (moving backend) s = (release_check s, [])
  answer stop_done abandoning s = (release_check s, report (idle Status.error (deleted s)) ∷ [])
  answer _ phase s = (s, [])

  unfoldable pub step : Event → Session → Session × List Call
  unfolding opened hold recheck service_stop stop on_close on_error answer
  step (opens id port backend) s = opened id port backend s
  step holds s = hold s
  step ticks s = recheck s
  step stops s = service_stop s
  step cluster_stops s = stop s
  step closes s = on_close s
  step (fails details) s = on_error details s
  step e s = answer e s.phase s

  unfoldable pub run : List Event → Session → Session × List Call
  unfolding step
  run [] s = (s, [])
  run (e ∷ es) s = let (s', calls) = step e s in let (s'', more) = run es s' in (s'', calls ++ more)
