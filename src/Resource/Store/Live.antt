-- ===== src/Resource/Store/Live.antt =====
-- ResourceWatchSession.ts with the handlers that ClusterResourceStore.watch gives it: what a watch makes
-- of a list.
use kubiq.Resource.Store.{Change, State, apply_changes}
use kubiq.Resource.Store.Lists.{stale_at}
use kubiq.Resource.Store.Changes.{Unique, IsKeyed, apply_one, apply_each, items-apply_changes}
use kubiq.Watch.Session.{
  Call, start_scope, stop_scope, on_changes, on_resync, on_stale, set_timer, clear_timer, throw,
  new,
}
use kubiq.Watch.Session.Order.{Event, run, delivered, reported, run-delivers}
use kubiq.Base.{
  ℕ, ◌≡◌, refl, sym, ap, ◌∙◌, subst, true, false, List, [], ◌∷◌, ◌++◌, String, arith, All,
}

All-split {ℓ κ} :
    {A : Type ℓ} (P : A → Type κ) (xs ys : List A) → All P (xs ++ ys) → All P xs × All P ys
All-split P [] ys h = (tt, h)
All-split P (x ∷ xs) ys h = let (a, b) = All-split P xs ys h.1 in ((h.0, a), b)

module _ {E : Type 0} (key_of : E → String) where
  -- What the handlers of `watch` do with a session's calls. A resync reads the list again, and is left
  -- out here.
  unfoldable pub handle : List (Call (Change E)) → State E → State E
  unfolding apply_changes
  handle [] s = s
  handle (on_changes changes ∷ calls) s = handle calls (apply_changes key_of changes s)
  handle (on_stale at ∷ calls) s = handle calls (stale_at at s)
  handle (_ ∷ calls) s = handle calls s

  apply_each-append :
      (a b : List (Change E)) (items : List E)
      → apply_each key_of (a ++ b) items ≡ apply_each key_of b (apply_each key_of a items)
  unfolding apply_each
  apply_each-append [] b items = refl
  apply_each-append (c ∷ a) b items = apply_each-append a b (apply_one key_of c items)

  loaded-apply_changes :
      (changes : List (Change E)) (s : State E)
      → s.loaded ≡ true
      → (apply_changes key_of changes s).loaded ≡ true
  unfolding apply_changes
  loaded-apply_changes changes s h = ground (arith, h)

  items-handle :
      (calls : List (Call (Change E))) (s : State E)
      → Unique key_of s.items
      → s.loaded ≡ true
      → All (IsKeyed key_of) (delivered calls)
      → (handle calls s).items ≡ apply_each key_of (delivered calls) s.items
  unfolding handle apply_each
  items-handle [] s u h q = refl
  items-handle (on_changes changes ∷ calls) s u h q =
      let (here, later) = All-split (IsKeyed key_of) changes (delivered calls) q in
      let (same, unique, total) = items-apply_changes key_of changes s u here h in
      items-handle calls (apply_changes key_of changes s) unique (loaded-apply_changes changes s h)
        later
      ∙ ap (apply_each key_of (delivered calls)) same
      ∙ sym (apply_each-append changes (delivered calls) s.items)
  items-handle (start_scope n ∷ calls) s u h q = items-handle calls s u h q
  items-handle (stop_scope n ∷ calls) s u h q = items-handle calls s u h q
  items-handle (on_resync ∷ calls) s u h q = items-handle calls s u h q
  items-handle (on_stale at ∷ calls) s u h q = items-handle calls (stale_at at s) u h q
  items-handle (set_timer n ∷ calls) s u h q = items-handle calls s u h q
  items-handle (clear_timer ∷ calls) s u h q = items-handle calls s u h q
  items-handle (throw ∷ calls) s u h q = items-handle calls s u h q

  -- After any history of a new session that has not asked for a resync and is not stopped, a loaded
  -- list with keys of its own, on which the changes still pending are then made, is the list on which
  -- all reported changes are made one at a time: how the session batches them makes no difference.
  pub run-handle :
      (es : List (Event (Change E))) (interval : ℕ) (s : State E)
      → Unique key_of s.items
      → s.loaded ≡ true
      → All (IsKeyed key_of) (reported es)
      → (run es (new interval)).0.resyncing ≡ false
      → (run es (new interval)).0.stopped ≡ false
      → apply_each key_of
          (run es (new interval)).0.pending
          (handle (run es (new interval)).1 s).items
        ≡ apply_each key_of (reported es) s.items
  run-handle es interval s u h q r t =
      let whole = run-delivers es (new interval) r t in
      let calls = (run es (new interval)).1 in
      let pending = (run es (new interval)).0.pending in
      let (keyed, rest) =
        All-split (IsKeyed key_of) (delivered calls) pending
          (subst (All (IsKeyed key_of)) (sym whole) q) in
      ap (apply_each key_of pending) (items-handle calls s u h keyed)
      ∙ sym (apply_each-append (delivered calls) pending s.items)
      ∙ ap (λ cs. apply_each key_of cs s.items) whole
