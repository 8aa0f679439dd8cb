-- ===== src/Ui/Toast/Tidy.antt =====
-- ToastService.ts and ToastStore.ts: what every sequence of calls leaves true of the notifications.
use kubiq.Ui.Toast.{
  Draft, Toast, Toasts, signature_of, count_after, add, show, remove, dismiss, find, run_action,
  close, fire, forget,
}
use kubiq.Ui.Toast.Items.{
  IsOwn, IsIndexed, IsAbsent, split_at, remove-length, remove-IsIndexed, count-IsIndexed,
}
use kubiq.Ui.Toast.Trim.{dismiss-items, dismiss-IsIndexed, trim-items, trim-IsIndexed}
use kubiq.Ui.Toast.Show.{
  IsUnused, forgotten, forgotten-items, forgotten-IsIndexed, added, add-items, add-live, show-add,
  show-known,
}
use kubiq.Base.{
  ℕ, ◌-◌, ◌≤◌, ◌≡◌, sym, ap, subst, inl, inr, List, [], ◌∷◌, ◌++◌, Option, some, String, arith,
  length, length-append, drop, length-drop, get_elem?, map_get, Option-cases,
}
use kubiq.Ui.Toast.Added.{unused-delete, added-IsIndexed}

module _ {A : Type 0} where
  pub record IsTidy (s : Toasts A) : Type 0 where
    pub bounded : length s.items ≤ 5
    pub indexed : IsIndexed s.live s.items

  forgotten-IsUnused :
      (signature id : String) (s : Toasts A) → IsUnused id s → IsUnused id (forgotten signature s)
  forgotten-IsUnused signature id s u = elim (Option-cases (map_get signature s.live)) [
    | inl e ↦ rw (e, forgotten) u
    | inr (old, e) ↦ rw (e, forgotten) (u.0, unused-delete id signature s.live u.1)
  ]

  -- A list of which all but the newest five are dropped.
  newest-bound : (ts : List (Toast A)) → length (drop (length ts - 5) ts) ≤ 5
  newest-bound ts = omega (arith, length-drop (length ts - 5) ts)

  add-IsTidy :
      (d : Draft A) (id : String) (s : Toasts A)
      → IsIndexed s.live s.items
      → IsUnused id s
      → IsAbsent (signature_of d) s.items
      → IsTidy (add d id s)
  add-IsTidy d id s h u f = record {
    bounded =
        rw (add-items d id s, trim-items (added d id s)) (newest-bound ((added d id s).items));
    indexed =
        rw (add-items d id s, add-live d id s)
          (trim-IsIndexed (added d id s) (added-IsIndexed d id s h u f));
  }

  counted-IsTidy :
      (s : Toasts A) (xs ys : List (Toast A)) (t : Toast A) (c : Option ℕ)
      → s.items ≡ xs ++ t ∷ ys
      → IsTidy s
      → IsTidy (record s { items = xs ++ record t { count = c } ∷ ys })
  counted-IsTidy s xs ys t c e h = record {
    bounded = omega (
      arith,
      h.bounded,
      ap length e,
      length-append xs (t ∷ ys),
      length-append xs (record t { count = c } ∷ ys),
    );
    indexed = count-IsIndexed s.live xs ys t c (subst (IsIndexed s.live) e h.indexed);
  }

  show-IsTidy :
      (d : Draft A) (id : String) (s : Toasts A) → IsTidy s → IsUnused id s → IsTidy (show d id s)
  show-IsTidy d id s h u = elim (split_at (signature_of d) s.items) [
    | inl f ↦
        let before = forgotten (signature_of d) s in
        let same = forgotten-items (signature_of d) s in
        rw (show-add d id s h.indexed f) (
          add-IsTidy d id before (forgotten-IsIndexed (signature_of d) s h.indexed f)
            (forgotten-IsUnused (signature_of d) id s u)
            (subst (IsAbsent (signature_of d)) (sym same) f))
    | inr (xs, t, ys, whole, same) ↦
        rw (show-known d id s xs ys t h.indexed whole same)
          (counted-IsTidy s xs ys t (some (count_after t.count)) whole h)
  ]

  remove-IsTidy :
      (id : String) (s : Toasts A) → IsTidy s → IsTidy (record s { items = remove id s.items })
  remove-IsTidy id s h = record {
    bounded = omega (arith, h.bounded, remove-length id s.items);
    indexed = remove-IsIndexed s.live id s.items h.indexed;
  }

  run_action-IsTidy : (id : String) (s : Toasts A) → IsTidy s → IsTidy ((run_action id s).0)
  unfolding run_action
  run_action-IsTidy id s h = elim (Option-cases (find id s.items)) [
    | inl e ↦ rw (e, run_action) h
    | inr (t, e) ↦ elim (Option-cases t.body.action) [
      | inl a ↦ rw (e, a, run_action) h
      | inr (run, a) ↦ rw (e, a, run_action) (remove-IsTidy id s h)
    ]
  ]

  dismiss-IsTidy :
      (signature id : String) (s : Toasts A) → IsTidy s → IsTidy (dismiss signature id s)
  dismiss-IsTidy signature id s h = record {
    bounded =
        rw (dismiss-items signature id s) (omega (arith, h.bounded, remove-length id s.items));
    indexed = dismiss-IsIndexed signature id s h.indexed;
  }

  timers-IsTidy :
      (s : Toasts A) (timers : List (String × String))
      → IsTidy s
      → IsTidy (record s { timers = timers })
  timers-IsTidy s timers h = record { bounded = h.bounded; indexed = h.indexed }

  fire-IsTidy : (n : ℕ) (s : Toasts A) → IsTidy s → IsTidy (fire n s)
  unfolding fire
  fire-IsTidy n s h = elim (Option-cases (get_elem? s.timers n)) [
    | inl e ↦ rw (e, fire) h
    | inr (t, e) ↦
        rw (e, fire)
          (dismiss-IsTidy t.0 t.1 (record s { timers = forget n s.timers })
            (timers-IsTidy s (forget n s.timers) h))
  ]

  -- What the calls of the service, the buttons and the timers can make of a fresh service, with ids
  -- that are new.
  pub data Reach : Toasts A → Type 0 where
    start : Reach (record { live = []; items = []; timers = [] })
    shown :
        (s : Toasts A) (d : Draft A) (id : String) → Reach s → IsUnused id s → Reach (show d id s)
    acted : (s : Toasts A) (id : String) → Reach s → Reach ((run_action id s).0)
    closed : (s : Toasts A) (id : String) → Reach s → Reach (close id s)
    fired : (s : Toasts A) (n : ℕ) → Reach s → Reach (fire n s)

  -- After any sequence of shown toasts, actions, closed toasts and timers at most five toasts are on
  -- screen, their ids differ, and `live` has each one's id under its signature and under no other.
  pub reach-IsTidy : (s : Toasts A) → Reach s → IsTidy s
  unfolding close IsOwn
  reach-IsTidy s start = record { bounded = omega arith; indexed = (tt, tt, tt) }
  reach-IsTidy s (shown before d id r u) = show-IsTidy d id before (reach-IsTidy before r) u
  reach-IsTidy s (acted before id r) = run_action-IsTidy id before (reach-IsTidy before r)
  reach-IsTidy s (closed before id r) = remove-IsTidy id before (reach-IsTidy before r)
  reach-IsTidy s (fired before n r) = fire-IsTidy n before (reach-IsTidy before r)
