-- ===== src/Watch/Session/Order.antt =====
-- accept, flush, resync and stale of ResourceWatchSession.ts over whole histories.
mod Tests
use kubiq.Base.{
  ℕ, suc, ◌+◌, ◌≤◌, ◌≡◌, refl, sym, ap, ◌∙◌, Bool, true, false, List, [], ◌∷◌, ◌++◌, map,
  append-nil, append_assoc, arith, String, if◌then◌else◌, length,
}
use kubiq.Watch.Session.{
  Session, new, Call, stop_scope, on_changes, on_resync, clear_timer, accept, flush, resync, stale,
  stop,
}

-- What the scopes, the timer and the owner of a session call.
pub data Event (C : Type 0) : Type 0 where
  accepts : C → Event C
  resyncs flushes stops : Event C
  stales : ℕ → Event C

false_before : (a b : Bool) → (a ≡ true → b ≡ true) → b ≡ false → a ≡ false
false_before true b h e = cc (h refl)
false_before false b h e = refl

module _ {C : Type 0} where
  unfoldable pub step : Event C → Session C → Session C × List (Call C)
  unfolding accept flush resync stop stale
  step (accepts c) s = accept c s
  step resyncs s = resync s
  step flushes s = flush s
  step stops s = stop s
  step (stales now) s = stale now s

  unfoldable pub run : List (Event C) → Session C → Session C × List (Call C)
  unfolding step
  run [] s = (s, [])
  run (e ∷ es) s = let (s', calls) = step e s in let (s'', more) = run es s' in (s'', calls ++ more)

  -- The changes that the handler is given.
  abbrev pub delivered : List (Call C) → List C
  delivered [] = []
  delivered (on_changes cs ∷ calls) = cs ++ delivered calls
  delivered (_ ∷ calls) = delivered calls

  -- The changes that the scopes report.
  abbrev pub reported : List (Event C) → List C
  reported [] = []
  reported (accepts c ∷ es) = c ∷ reported es
  reported (_ ∷ es) = reported es

  abbrev pub resync_count : List (Call C) → ℕ
  resync_count [] = 0
  resync_count (on_resync ∷ calls) = suc (resync_count calls)
  resync_count (_ ∷ calls) = resync_count calls

  resync_count-append :
      (xs ys : List (Call C)) → resync_count (xs ++ ys) ≡ resync_count xs + resync_count ys
  resync_count-append [] ys = omega arith
  resync_count-append (on_resync ∷ xs) ys = omega (arith, resync_count-append xs ys)
  resync_count-append (_ ∷ xs) ys = resync_count-append xs ys

  delivered-append : (xs ys : List (Call C)) → delivered (xs ++ ys) ≡ delivered xs ++ delivered ys
  delivered-append [] ys = refl
  delivered-append (on_changes cs ∷ xs) ys =
      ap (λ r. cs ++ r) (delivered-append xs ys)
      ∙ sym (append_assoc cs (delivered xs) (delivered ys))
  delivered-append (_ ∷ xs) ys = delivered-append xs ys

  resync_count-stops :
      (ns : List String) (calls : List (Call C))
      → resync_count (calls ++ map stop_scope ns) ≡ resync_count calls
  resync_count-stops [] [] = refl
  resync_count-stops (n ∷ ns) [] = resync_count-stops ns []
  resync_count-stops ns (on_resync ∷ calls) = ap suc (resync_count-stops ns calls)
  resync_count-stops ns (_ ∷ calls) = resync_count-stops ns calls

  -- The most `onResync` calls that are still to come.
  abbrev credit : Session C → ℕ
  credit s = if s.resyncing then 0 else 1

  stop-credit : (s : Session C) → resync_count (stop s).1 + credit (stop s).0 ≤ credit s
  unfolding stop
  stop-credit s =
      ground (arith, resync_count-stops s.scopes (clear_timer ∷ []), resync_count-stops s.scopes [])

  step-credit :
      (e : Event C) (s : Session C) → resync_count (step e s).1 + credit (step e s).0 ≤ credit s
  unfolding step accept resync flush stale
  step-credit (accepts c) s = ground arith
  step-credit resyncs s = ground arith
  step-credit flushes s = ground arith
  step-credit stops s = stop-credit s
  step-credit (stales now) s = ground arith

  run-credit : (es : List (Event C)) (s : Session C) → resync_count (run es s).1 ≤ credit s
  unfolding run
  run-credit [] s = ground arith
  run-credit (e ∷ es) s = omega (
    arith,
    step-credit e s,
    run-credit es (step e s).0,
    resync_count-append (step e s).1 (run es (step e s).0).1,
  )

  -- Whatever happens, in any order, the owner is asked for at most one resync.
  pub run-resync_once :
      (es : List (Event C)) (interval : ℕ) → resync_count (run es (new interval)).1 ≤ 1
  run-resync_once es interval = run-credit es (new interval)

  -- Neither flag is ever taken back.
  step-flags :
      (e : Event C) (s : Session C)
      → (s.resyncing ≡ true → (step e s).0.resyncing ≡ true)
        × (s.stopped ≡ true → (step e s).0.stopped ≡ true)
  unfolding step accept resync flush stale stop
  step-flags (accepts c) s = ground arith
  step-flags resyncs s = ground arith
  step-flags flushes s = ground arith
  step-flags stops s = ground arith
  step-flags (stales now) s = ground arith

  run-flags :
      (es : List (Event C)) (s : Session C)
      → (s.resyncing ≡ true → (run es s).0.resyncing ≡ true)
        × (s.stopped ≡ true → (run es s).0.stopped ≡ true)
  unfolding run
  run-flags [] s = (λ h. h, λ h. h)
  run-flags (e ∷ es) s =
      let (r, t) = step-flags e s in
      let (r', t') = run-flags es (step e s).0 in (λ h. r' (r h), λ h. t' (t h))

  nil_of_length : (cs : List C) → length cs ≡ 0 → cs ≡ []
  nil_of_length [] h = refl
  nil_of_length (c ∷ cs) h = absurd (omega arith)

  -- One call loses no change, unless it asks for a resync or stops the session.
  step-delivers :
      (e : Event C) (s : Session C)
      → (step e s).0.resyncing ≡ false
      → (step e s).0.stopped ≡ false
      → delivered (step e s).1 ++ (step e s).0.pending ≡ s.pending ++ reported (e ∷ [])
  unfolding step accept resync flush stale stop
  step-delivers (accepts c) s r t = ground arith
  step-delivers resyncs s r t = ground (arith, append-nil s.pending)
  step-delivers flushes s r t = ground (arith, nil_of_length s.pending, append-nil s.pending)
  step-delivers stops s r t = ground arith
  step-delivers (stales now) s r t = ground (arith, append-nil s.pending)

  reported-cons :
      (e : Event C) (es : List (Event C)) → reported (e ∷ es) ≡ reported (e ∷ []) ++ reported es
  reported-cons (accepts c) es = refl
  reported-cons resyncs es = refl
  reported-cons flushes es = refl
  reported-cons stops es = refl
  reported-cons (stales now) es = refl

  -- After any history that has not asked for a resync and has not stopped the session, the changes
  -- given to the handler, and then those still pending, are the changes reported, in order: none is
  -- lost, doubled or moved.
  pub run-delivers :
      (es : List (Event C)) (s : Session C)
      → (run es s).0.resyncing ≡ false
      → (run es s).0.stopped ≡ false
      → delivered (run es s).1 ++ (run es s).0.pending ≡ s.pending ++ reported es
  unfolding run
  run-delivers [] s r t = sym (append-nil s.pending)
  run-delivers (e ∷ es) s r t =
      let s' = (step e s).0 in
      let (r', t') = run-flags es s' in
      let here = step-delivers e s (false_before _ _ r' r) (false_before _ _ t' t) in
      rw (
        delivered-append (step e s).1 (run es s').1,
        append_assoc (delivered (step e s).1) (delivered (run es s').1) (run es s').0.pending,
        run-delivers es s' r t,
        ← append_assoc (delivered (step e s).1) s'.pending (reported es),
        here,
        append_assoc s.pending (reported (e ∷ [])) (reported es),
        reported-cons e es,
      )
