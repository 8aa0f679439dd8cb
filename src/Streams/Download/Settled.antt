-- ===== src/Streams/Download/Settled.antt =====
-- accept, attach, fail and cancel of DownloadRun.ts: when the outcome's promise is settled.
mod Tests
use kubiq.Base.{
  ℕ, suc, ◌+◌, ◌≤◌, ◌≡◌, ◌↔◌, refl, ap, ◌∙◌, Bool, true, false, ◌||◌, List, [], ◌∷◌, ◌++◌, Option,
  none, some, String, str_eq, if◌then◌else◌, arith,
}
use kubiq.Streams.Inbox.{
  Inbox, fresh, shut, settle, accept as take, accept_all as take_all, attach as replay, Handled,
}
use kubiq.Streams.Download.{
  Message, Call, on_progress, resolve, reject, Run, Done, Failure, id_of, dispatch,
  dispatch_progress, settled_by, accept, attach, finish, fail, cancel_failed,
}

-- Whether the outcome is among the calls.
pub settles : List Call → Bool
settles [] = false
settles (on_progress received total ∷ calls) = settles calls
settles (resolve outcome ∷ calls) = true
settles (reject e ∷ calls) = true

settles-append : (xs ys : List Call) → settles (xs ++ ys) ≡ (settles xs || settles ys)
unfolding settles
settles-append [] ys = refl
settles-append (on_progress received total ∷ xs) ys = settles-append xs ys
settles-append (resolve outcome ∷ xs) ys = refl
settles-append (reject e ∷ xs) ys = refl

settles-settled_by : (d : Done) → settles (settled_by d ∷ []) ≡ true
unfolding settles settled_by
settles-settled_by d = ground arith

settles-dispatch_progress :
    (progress : Option (ℕ × ℕ)) (done : Option Done)
    → settles (dispatch_progress progress done).calls ≡ (dispatch_progress progress done).ends
unfolding settles dispatch_progress
settles-dispatch_progress (some p) ending = refl
settles-dispatch_progress none (some d) = settles-settled_by d
settles-dispatch_progress none none = refl

-- What calls a run, in any order.
pub data Event : Type 0 where
  accepts : Message → Event
  attaches : String → Event
  fails : Failure → Event
  cancel_fails : Event

pub step : Event → Run → Run × List Call
step (accepts m) b = accept m b
step (attaches id) b = attach id b
step (fails e) b = fail e b
step cancel_fails b = cancel_failed b

pub run : List Event → Run → Run × List Call
unfolding step
run [] b = (b, [])
run (e ∷ es) b = let (b', calls) = step e b in let (b'', more) = run es b' in (b'', calls ++ more)

take-settles :
    (m : Message) (b : Run)
    → (b.closed || settles (take id_of dispatch m b).1) ≡ (take id_of dispatch m b).0.closed
unfolding take settle shut dispatch settles
take-settles m b = ground (arith, settles-dispatch_progress m.progress m.done)

take_all-settles :
    (ms : List Message) (b : Run)
    → (b.closed || settles (take_all id_of dispatch ms b).1)
      ≡ (take_all id_of dispatch ms b).0.closed
unfolding take_all settles
take_all-settles [] b = ground arith
take_all-settles (m ∷ ms) b =
    let r = take id_of dispatch m b in
    ground (
      arith,
      take-settles m b,
      take_all-settles ms r.0,
      settles-append r.1 (take_all id_of dispatch ms r.0).1,
    )

step-settles : (e : Event) (b : Run) → (b.closed || settles (step e b).1) ≡ (step e b).0.closed
unfolding step accept attach replay fail cancel_failed finish shut settles
step-settles (accepts m) b = take-settles m b
step-settles (attaches id) b = take_all-settles b.pending (record b { id = id; pending = [] })
step-settles (fails e) b = ground arith
step-settles cancel_fails b = ground arith

run-settles : (es : List Event) (b : Run) → (b.closed || settles (run es b).1) ≡ (run es b).0.closed
unfolding run settles
run-settles [] b = ground arith
run-settles (e ∷ es) b = ground (
  arith,
  step-settles e b,
  run-settles es (step e b).0,
  settles-append (step e b).1 (run es (step e b).0).1,
)

-- Whatever a new download hears, and whenever it fails or its cancelling fails, its outcome is settled
-- exactly when the download counts as finished.
pub run-settles_finished :
    (es : List Event) → settles (run es (fresh tt)).1 ≡ (run es (fresh tt)).0.closed
run-settles_finished es = run-settles es (fresh tt)
