-- ===== src/Streams/Process/Exits.antt =====
-- accept, attach, cancel and kill of ProcessRun.ts: how often the sink hears of an exit.
mod Tests
use kubiq.Base.{
  ℕ, suc, ℤ, ◌+◌, ◌≤◌, ◌≡◌, refl, ap, ◌∙◌, Bool, true, false, List, [], ◌∷◌, ◌++◌, Option, none,
  some, String, str_eq, if◌then◌else◌, arith,
}
use kubiq.Streams.Inbox.{Inbox, fresh, shut, Handled}
use kubiq.Streams.Inbox.Settling.{ends_of, ends_of-accept, ends_of-attach}
use kubiq.Streams.Process.{
  Message, Call, on_output, on_exit, Decoders, id_of, output_calls, emit, trailing, dispatch,
  dispatch_chunk, accept, attach, complete, cancel, kill_failed, listen, killed_code,
}

pub exit_count : List Call → ℕ
exit_count [] = 0
exit_count (on_exit code ∷ calls) = suc (exit_count calls)
exit_count (on_output text is_error ∷ calls) = exit_count calls

exit_count-append : (xs ys : List Call) → exit_count (xs ++ ys) ≡ exit_count xs + exit_count ys
unfolding exit_count
exit_count-append [] ys = omega arith
exit_count-append (on_exit code ∷ xs) ys = omega (arith, exit_count-append xs ys)
exit_count-append (on_output text is_error ∷ xs) ys = exit_count-append xs ys

exit_count-output_calls :
    (text : String) (is_error : Bool) → exit_count (output_calls text is_error) ≡ 0
unfolding exit_count output_calls
exit_count-output_calls text is_error = ground arith

-- What calls a run, in any order.
pub data Event : Type 0 where
  accepts : Message → Event
  attaches : String → Event
  cancels : ℤ → Event
  kill_fails : Event

module _ {D B : Type 0} (atob : String → Option B) (no_bytes : B) (decode : D → B → D × String)
    (finish : D → D × String) where
  exit_count-trailing :
      (code : ℤ) (s : Decoders D) → exit_count (trailing atob no_bytes decode finish code s).1 ≡ 1
  unfolding trailing exit_count
  exit_count-trailing code s =
      let text = output_calls (finish s.output).1 false in
      let error_text = output_calls (finish s.errors).1 true in
      omega (
        arith,
        exit_count-append text (error_text ++ on_exit code ∷ []),
        exit_count-append error_text (on_exit code ∷ []),
        exit_count-output_calls (finish s.output).1 false,
        exit_count-output_calls (finish s.errors).1 true,
      )

  exit_count-dispatch_chunk :
      (chunk : Option String) (is_error : Bool) (code : Option ℤ) (s : Decoders D)
      → let h = dispatch_chunk atob no_bytes decode finish chunk is_error code s in
        exit_count h.calls ≡ (if h.ends then 1 else 0)
  unfolding dispatch_chunk emit exit_count
  exit_count-dispatch_chunk (some chunk) true code s = exit_count-output_calls _ true
  exit_count-dispatch_chunk (some chunk) false code s = exit_count-output_calls _ false
  exit_count-dispatch_chunk none is_error (some code) s = exit_count-trailing code s
  exit_count-dispatch_chunk none is_error none s = refl

  pub step : Event → Inbox Message (Decoders D) → Inbox Message (Decoders D) × List Call
  step (accepts m) b = accept atob no_bytes decode finish m b
  step (attaches id) b = attach atob no_bytes decode finish id b
  step (cancels code) b = cancel atob no_bytes decode finish code b
  step kill_fails b = kill_failed atob no_bytes decode finish b

  pub run : List Event → Inbox Message (Decoders D) → Inbox Message (Decoders D) × List Call
  unfolding step
  run [] b = (b, [])
  run (e ∷ es) b = let (b', calls) = step e b in let (b'', more) = run es b' in (b'', calls ++ more)

  ends_of-complete :
      (code : ℤ) (b : Inbox Message (Decoders D))
      → ends_of b + exit_count (complete atob no_bytes decode finish code b).1
        ≡ ends_of (complete atob no_bytes decode finish code b).0
  unfolding complete shut exit_count
  ends_of-complete code b = ground (arith, exit_count-trailing code b.inner)

  ends_of-step :
      (e : Event) (b : Inbox Message (Decoders D))
      → ends_of b + exit_count (step e b).1 ≡ ends_of (step e b).0
  unfolding step accept attach cancel kill_failed dispatch exit_count
  ends_of-step (accepts m) b =
      ends_of-accept id_of (dispatch atob no_bytes decode finish) exit_count refl exit_count-append
        (λ m s. exit_count-dispatch_chunk m.chunk m.is_error m.code s) m b
  ends_of-step (attaches id) b =
      ends_of-attach id_of (dispatch atob no_bytes decode finish) exit_count refl exit_count-append
        (λ m s. exit_count-dispatch_chunk m.chunk m.is_error m.code s) id b
  ends_of-step (cancels code) b = ends_of-complete code b
  ends_of-step kill_fails b = ends_of-complete killed_code b

  ends_of-run :
      (es : List Event) (b : Inbox Message (Decoders D))
      → ends_of b + exit_count (run es b).1 ≡ ends_of (run es b).0
  unfolding run exit_count
  ends_of-run [] b = omega arith
  ends_of-run (e ∷ es) b = omega (
    arith,
    ends_of-step e b,
    ends_of-run es (step e b).0,
    exit_count-append (step e b).1 (run es (step e b).0).1,
  )

  -- Whatever a new run hears, however often it is cancelled and whenever a kill fails, the sink is told
  -- of one exit if the run is finished and of none if it is not.
  pub run-exits_once :
      (es : List Event) (s : Decoders D)
      → exit_count (run es (fresh s)).1 ≡ (if (run es (fresh s)).0.closed then 1 else 0)
  run-exits_once es s = omega (arith, ends_of-run es (fresh s))
