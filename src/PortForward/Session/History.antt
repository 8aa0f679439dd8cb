-- ===== src/PortForward/Session/History.antt =====
-- PortForwardSession.ts and its service: the whole of what the sink hears.
use kubiq.PortForward.Session.{step, run}
use kubiq.PortForward.Session.State.{Status, Session, Event, new}
use kubiq.PortForward.Session.Ends.{
  reports, reports-append, Stage, live, leaving, done, stage, is_sane, is_error, may, is_quiet,
  step-IsStep,
}
use kubiq.PortForward.Target.{RemotePort}
use kubiq.Base.{
  ◌≡◌, refl, Bool, true, false, ◌&&◌, ◌||◌, not, List, [], ◌∷◌, ◌++◌, String, arith, if◌then◌else◌,
}

abbrev pub is_done : Stage → Bool
is_done done = true
is_done _ = false

abbrev pub is_live : Stage → Bool
is_live live = true
is_live _ = false

pub has_error : List Status → Bool
has_error [] = false
has_error (x ∷ xs) = is_error x || has_error xs

-- No error is followed by anything.
pub error_last : List Status → Bool
error_last [] = true
error_last (x ∷ []) = true
error_last (x ∷ y ∷ xs) = not (is_error x) && error_last (y ∷ xs)

-- What the sink may hear from one stage to another, by whether the session was asked to end.
pub heard : Bool → Stage → List Status → Stage → Bool
unfolding has_error error_last
heard asked live xs done = error_last xs && (if asked then not (has_error xs) else has_error xs)
heard asked live xs to = not (has_error xs) && not asked
heard asked leaving [] leaving = not asked
heard asked leaving (x ∷ []) done = is_error x && not asked
heard asked done [] done = not asked
heard asked _ _ _ = false

-- Whether an event that is `quiet` ends a live session.
abbrev pub ends : Bool → Stage → Stage → Bool
ends quiet a b = quiet && (is_live a && is_done b)

error_last_cons :
    (x : Status) (xs : List Status) → is_error x ≡ false → error_last (x ∷ xs) ≡ error_last xs
unfolding error_last
error_last_cons x [] e = refl
error_last_cons x (y ∷ xs) e = rw e refl

heard_step :
    (q r : Bool) (a b c : Stage) (xs ys : List Status)
    → may q a xs b ≡ true
    → heard r b ys c ≡ true
    → heard (ends q a b || r) a (xs ++ ys) c ≡ true
unfolding heard has_error error_last
heard_step q r a b c [] ys h k = ground (arith, h, k)
heard_step q r a b c (x ∷ []) ys h k = ground (arith, h, k, error_last_cons x ys)
heard_step q r a b c (x ∷ y ∷ xs) ys h k = ground (arith, h, k)

heard-error_last : (xs : List Status) → has_error xs ≡ false → error_last xs ≡ true
unfolding has_error error_last
heard-error_last [] h = refl
heard-error_last (x ∷ []) h = refl
heard-error_last (x ∷ y ∷ xs) h = ground (arith, h, heard-error_last (y ∷ xs))

heard-live :
    (asked : Bool) (xs : List Status) (c : Stage)
    → heard asked live xs c ≡ true
    → (error_last xs ≡ true) × (has_error xs ≡ is_done c && not asked)
unfolding heard
heard-live asked xs live h = (heard-error_last xs (ground (arith, h)), ground (arith, h))
heard-live asked xs leaving h = (heard-error_last xs (ground (arith, h)), ground (arith, h))
heard-live asked xs done h = ground (arith, h)

module _ (normal : String → RemotePort) where
  -- Whether it was a stop of the user or of the cluster's release that ended the session.
  pub asked : List Event → Session → Bool
  asked [] s = false
  asked (e ∷ es) s =
      let after = (step normal e s).0 in ends (is_quiet e) (stage s) (stage after) || asked es after

  run-heard :
      (es : List Event) (s : Session)
      → is_sane s ≡ true
      → heard (asked es s) (stage s) (reports ((run normal es s).1)) (stage ((run normal es s).0))
        ≡ true
  unfolding run heard asked reports has_error error_last
  run-heard [] s h = ground (arith, h)
  run-heard (e ∷ es) s h =
      let (ok_now, sane) = step-IsStep normal e s h in
      let after = (step normal e s).0 in
      let now = (step normal e s).1 in
      rw (reports-append now ((run normal es after).1)) (
        heard_step (is_quiet e) (asked es after) (stage s) (stage after)
          (stage ((run normal es after).0)) (reports now) (reports ((run normal es after).1)) ok_now
          (run-heard es after sane))

  -- In every order of events a forward's sink hears an error at most once and nothing behind it, and
  -- it has heard of one exactly when the session is over and what ended it was not a stop of the user
  -- or of the cluster's release. So while the session runs, while it waits for its listener to end,
  -- and when it was stopped, the sink has heard of no error.
  pub run-error_last :
      (es : List Event) (namespace name : String) (is_service : Bool) (remote : RemotePort)
      → let s = new namespace name is_service remote in
        let (end, calls) = run normal es s in
        (error_last (reports calls) ≡ true)
        × (has_error (reports calls) ≡ is_done (stage end) && not (asked es s))
  run-error_last es namespace name is_service remote =
      let s = new namespace name is_service remote in
      heard-live (asked es s) (reports ((run normal es s).1)) (stage ((run normal es s).0))
        (run-heard es s refl)
