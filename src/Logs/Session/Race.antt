-- ===== src/Logs/Session/Race.antt =====
-- attach, stop and dispose of PodLogSession.ts: a stop while the stream is still being opened.
use kubiq.Logs.Session.{
  Status, Call, stop_subscription, forget, Session, stop_open, hold, attach, on_chunk, on_failure,
  on_close, dispose, stop,
}
use kubiq.Base.{
  ap, ap₂, sym, ◌∙◌, append-nil, append_assoc, ℕ, ◌≡◌, refl, Bool, true, false, List, [], ◌∷◌, ◌++◌,
  none, some, Text, if◌then◌else◌,
}

attach_open :
    (n : ℕ) (s : Session)
    → s.disposed ≡ false
    → attach n s ≡ (record s { subscription = some n }, [])
unfolding attach
attach_open n s d = simp d

module _ (s : Session) (d : s.disposed ≡ true) where
  attach_over : (n : ℕ) → attach n s ≡ (s, stop_subscription n ∷ [])
  unfolding attach
  attach_over n = simp d

  on_chunk_over : (chunk : Text) → on_chunk chunk s ≡ (s, [])
  unfolding on_chunk
  on_chunk_over chunk = simp d

  on_close_over : (status : Status) → on_close status s ≡ (s, [])
  unfolding on_close
  on_close_over status = simp d

-- A stream that opens before the session stops and one that opens behind it are both stopped, in a
-- session that is not disposed and has none: the calls are the same, and so is the session.
pub attach-stop :
    (n : ℕ) (s : Session)
    → s.disposed ≡ false
    → s.subscription ≡ none
    → let before = attach n s in
      let after = stop s in
      ((stop before.0).0 ≡ (attach n after.0).0)
      × (before.1 ++ (stop before.0).1 ≡ after.1 ++ (attach n after.0).1)
unfolding attach stop dispose
attach-stop n s d e =
    let forgets = if s.held then forget ∷ [] else [] in
    rw (attach_open n s d, e)
      (refl, ap (λ calls. calls ++ stop_subscription n ∷ []) (sym (append-nil forgets)))

-- What calls a session.
pub data Event : Type 0 where
  attaches : ℕ → Event
  chunks : Text → Event
  failures : (message details : Text) → Event
  closes : Status → Event
  holds stops disposes : Event

pub step : Event → Session → Session × List Call
step (attaches n) s = attach n s
step (chunks chunk) s = on_chunk chunk s
step (failures message details) s = (on_failure message details s, [])
step (closes status) s = on_close status s
step holds s = (hold s, [])
step stops s = stop s
step disposes s = dispose s

pub run : List Event → Session → Session × List Call
unfolding step
run [] s = (s, [])
run (e ∷ es) s = let (s', calls) = step e s in let (s'', more) = run es s' in (s'', calls ++ more)

-- What a history still asks for behind a stop, by whether a `forget` is held: each subscription that
-- comes is stopped, and a `forget` that comes is called by the next stop or dispose.
abbrev pub left : Bool → List Event → List Call
left held [] = []
left held (attaches n ∷ es) = stop_subscription n ∷ left held es
left held (holds ∷ es) = left true es
left true (stops ∷ es) = forget ∷ left false es
left true (disposes ∷ es) = forget ∷ left false es
left held (_ ∷ es) = left held es

-- A session that is stopped has no subscription.
abbrev IsOver : Session → Type 0
IsOver s = (s.disposed ≡ true) × (s.subscription ≡ none)

abbrev OverAs : Bool → Session → Type 0
OverAs held s = IsOver s × (s.held ≡ held)

dispose-OverAs : (s : Session) → s.subscription ≡ none → OverAs false (dispose s).0
unfolding dispose
dispose-OverAs s e = ((refl, e), refl)

dispose_calls :
    (s : Session) (held : Bool) → s.held ≡ held → (dispose s).1 ≡ (if held then forget ∷ [] else [])
unfolding dispose
dispose_calls s held h = rw h refl

stop-OverAs : (s : Session) → OverAs false (stop s).0
unfolding stop dispose
stop-OverAs s = ((refl, refl), refl)

stop_calls :
    (s : Session) (held : Bool)
    → s.subscription ≡ none
    → s.held ≡ held
    → (stop s).1 ≡ (if held then forget ∷ [] else [])
unfolding stop dispose
stop_calls s held e h = rw (e, h) (append-nil (if held then forget ∷ [] else []))

hold-OverAs : (s : Session) → IsOver s → OverAs true (hold s)
unfolding hold
hold-OverAs s h = (h, refl)

stop_made :
    (s : Session) → (stop s).1 ≡ (if s.held then forget ∷ [] else []) ++ stop_open s.subscription
unfolding stop dispose
stop_made s = refl

left_over :
    (es : List Event) (s : Session) (held : Bool) → OverAs held s → (run es s).1 ≡ left held es
unfolding run step on_failure
left_over [] s held h = refl
left_over (attaches n ∷ es) s held h =
    rw (attach_over s h.0.0 n) (ap (λ l. stop_subscription n ∷ l) (left_over es s held h))
left_over (chunks chunk ∷ es) s held h = rw (on_chunk_over s h.0.0 chunk) (left_over es s held h)
left_over (failures message [] ∷ es) s held h = left_over es (on_failure message [] s) held h
left_over (failures message (c ∷ details) ∷ es) s held h =
    left_over es (on_failure message (c ∷ details) s) held h
left_over (closes status ∷ es) s held h = rw (on_close_over s h.0.0 status) (left_over es s held h)
left_over (holds ∷ es) s held h = left_over es (hold s) true (hold-OverAs s h.0)
left_over (stops ∷ es) s true h =
    ap₂ (λ first rest. first ++ rest) (stop_calls s true h.0.1 h.1)
      (left_over es (stop s).0 false (stop-OverAs s))
left_over (stops ∷ es) s false h =
    ap₂ (λ first rest. first ++ rest) (stop_calls s false h.0.1 h.1)
      (left_over es (stop s).0 false (stop-OverAs s))
left_over (disposes ∷ es) s true h =
    ap₂ (λ first rest. first ++ rest) (dispose_calls s true h.1)
      (left_over es (dispose s).0 false (dispose-OverAs s h.0.1))
left_over (disposes ∷ es) s false h =
    ap₂ (λ first rest. first ++ rest) (dispose_calls s false h.1)
      (left_over es (dispose s).0 false (dispose-OverAs s h.0.1))

-- A stop, in any session, calls the `forget` that is held and stops the subscription that is open.
-- Whatever then calls the session, in any order, the sink hears nothing more: each subscription that
-- still comes is stopped, once and in order, and a `forget` that is held later is called by the stop
-- or the dispose that follows.
pub run_over :
    (es : List Event) (s : Session)
    → (run (stops ∷ es) s).1
      ≡ (if s.held then forget ∷ [] else []) ++ (stop_open s.subscription ++ left false es)
unfolding run step
run_over es s =
    let forgets = if s.held then forget ∷ [] else [] in
    ap₂ (λ first rest. first ++ rest) (stop_made s) (left_over es (stop s).0 false (stop-OverAs s))
    ∙ append_assoc forgets (stop_open s.subscription) (left false es)
