-- ===== src/Ui/Toast/Show.antt =====
-- repeat, add and show of ToastService.ts.
use kubiq.Ui.Toast.{
  Draft, Toast, Toasts, signature_of, is_error, count_after, trim, repeat, add, show,
}
use kubiq.Ui.Toast.Items.{
  IsFresh, IsListed, IsOwn, IsIndexed, IsOwn-deleted, IsListed-deleted, bump_fresh, bump-append,
  IsAbsent, All-middle, Distinct-before,
}
use kubiq.Ui.Toast.Trim.{trim-items, trim-timers}
use kubiq.Base.{
  ◌+◌, ◌-◌, ◌≡◌, refl, sym, ap, subst, ◌∙◌, inl, inr, false, List, [], ◌∷◌, ◌++◌, none, some,
  String, arith, str_eq, str_eq_iff, if◌then◌else◌, length, length-append, drop, map_get, map_set,
  map_delete, All, Bool-cases, Option-cases,
}

module _ {A : Type 0} where
  -- An id that no toast has and that `live` does not hold.
  abbrev pub IsUnused : String → Toasts A → Type 0
  IsUnused id s = IsFresh id s.items × All (λ entry. str_eq (entry.1) id ≡ false) s.live

  pub show-known :
      (d : Draft A) (id : String) (s : Toasts A) (xs ys : List (Toast A)) (t : Toast A)
      → IsIndexed s.live s.items
      → s.items ≡ xs ++ t ∷ ys
      → signature_of t.body ≡ signature_of d
      → show d id s
        ≡ record s { items = xs ++ record t { count = some (count_after t.count) } ∷ ys }
  unfolding show repeat
  show-known d id s xs ys t h e same =
      let whole = subst (IsIndexed s.live) e h in
      let listed : IsListed s.live t = All-middle (IsListed s.live) xs ys t whole.1 in
      let known : map_get (signature_of d) s.live ≡ some t.id =
        ap (λ k. map_get k s.live) (sym same) ∙ listed in
      let bumped =
        bump-append t.id xs ys t (Distinct-before xs ys t whole.0)
          ((str_eq_iff t.id t.id).1 refl) in
      rw (known, e, bumped, repeat) refl

  -- In a state whose ids and signatures are indexed, showing a toast whose type and message are
  -- those of one on screen adds one to that one's count, and changes nothing else: no toast is
  -- added, moved or dropped, and no timer is set.
  pub show-repeat :
      (d : Draft A) (id : String) (s : Toasts A) (xs ys : List (Toast A)) (t : Toast A)
      → IsIndexed s.live s.items
      → s.items ≡ xs ++ t ∷ ys
      → t.body.type ≡ d.type
      → t.body.message ≡ d.message
      → show d id s
        ≡ record s { items = xs ++ record t { count = some (count_after t.count) } ∷ ys }
  show-repeat d id s xs ys t h e same_type same_message =
      show-known d id s xs ys t h e (rw (same_type, same_message) refl)

  -- A live entry of a signature that no toast has is stale.
  stale_entry :
      (live : List (String × String)) (signature id : String) (ts : List (Toast A))
      → map_get signature live ≡ some id
      → All (IsOwn live) ts
      → IsAbsent signature ts
      → IsFresh id ts
  unfolding IsOwn
  stale_entry live signature id [] e h f = tt
  stale_entry live signature id (t ∷ ts) e h f = (
    elim (Bool-cases (str_eq t.id id)) [
      | inl q ↦ absurd (
          ground (
            arith,
            h.0 signature,
            e,
            f.0,
            str_eq_iff t.id id,
            str_eq_iff (signature_of t.body) signature,
          ))
      | inr q ↦ q
    ],
    stale_entry live signature id ts e h.1 f.1,
  )

  -- What `repeat` does when no toast has the signature.
  abbrev pub forgotten : String → Toasts A → Toasts A
  forgotten signature s = elim (map_get signature s.live) [
    | none ↦ s
    | some id ↦ record s { live = map_delete signature s.live }
  ]

  repeat-forgotten :
      (signature : String) (s : Toasts A)
      → IsIndexed s.live s.items
      → IsAbsent signature s.items
      → repeat signature s ≡ (forgotten signature s, false)
  unfolding repeat
  repeat-forgotten signature s h f = elim (Option-cases (map_get signature s.live)) [
    | inl e ↦ rw (e, repeat, forgotten) refl
    | inr (id, e) ↦
        let missed = bump_fresh id s.items (stale_entry s.live signature id s.items e h.2 f) in
        rw (e, missed, repeat, forgotten) refl
  ]

  pub forgotten-IsIndexed :
      (signature : String) (s : Toasts A)
      → IsIndexed s.live s.items
      → IsAbsent signature s.items
      → IsIndexed ((forgotten signature s).live) ((forgotten signature s).items)
  forgotten-IsIndexed signature s h f = elim (Option-cases (map_get signature s.live)) [
    | inl e ↦ rw (e, forgotten) h
    | inr (id, e) ↦
        rw (e, forgotten)
          (
            h.0,
            IsListed-deleted s.live signature id s.items e
                (stale_entry s.live signature id s.items e h.2 f) h.1,
            IsOwn-deleted s.live signature s.items h.2,
          )
  ]

  pub forgotten-items :
      (signature : String) (s : Toasts A) → (forgotten signature s).items ≡ s.items
  forgotten-items signature s = ground arith

  forgotten-timers : (signature : String) (s : Toasts A) → (forgotten signature s).timers ≡ s.timers
  forgotten-timers signature s = ground arith

  abbrev pub added : Draft A → String → Toasts A → Toasts A
  added d id s = record s {
    live = map_set (signature_of d) id s.live;
    items = s.items ++ record { id = id; count = some 1; body = d } ∷ [];
  }

  pub add-items :
      (d : Draft A) (id : String) (s : Toasts A) → (add d id s).items ≡ (trim (added d id s)).items
  unfolding add
  add-items d id s = elim (Bool-cases (is_error d.type)) [
    | inl e ↦ rw (e, add) refl
    | inr e ↦ rw (e, add) refl
  ]

  pub add-live :
      (d : Draft A) (id : String) (s : Toasts A) → (add d id s).live ≡ (trim (added d id s)).live
  unfolding add
  add-live d id s = elim (Bool-cases (is_error d.type)) [
    | inl e ↦ rw (e, add) refl
    | inr e ↦ rw (e, add) refl
  ]

  add-timers :
      (d : Draft A) (id : String) (s : Toasts A)
      → (add d id s).timers
        ≡ (if is_error d.type then s.timers else s.timers ++ (signature_of d, id) ∷ [])
  unfolding add
  add-timers d id s = elim (Bool-cases (is_error d.type)) [
    | inl e ↦ rw (e, add) (trim-timers (added d id s))
    | inr e ↦ rw (e, add) (ap (λ l. l ++ (signature_of d, id) ∷ []) (trim-timers (added d id s)))
  ]

  pub show-add :
      (d : Draft A) (id : String) (s : Toasts A)
      → IsIndexed s.live s.items
      → IsAbsent (signature_of d) s.items
      → show d id s ≡ add d id (forgotten (signature_of d) s)
  unfolding show
  show-add d id s h f = rw (repeat-forgotten (signature_of d) s h f, show) refl

  -- In a state whose ids and signatures are indexed, showing a toast that no toast on screen has the
  -- type and message of, however one left the screen before, puts it last and keeps the newest five of
  -- all; it sets a timer for it, unless it is an error.
  pub show-new :
      (d : Draft A) (id : String) (s : Toasts A)
      → IsIndexed s.live s.items
      → IsAbsent (signature_of d) s.items
      → ((show d id s).items
          ≡ drop
              (length s.items + 1 - 5)
              (s.items ++ record { id = id; count = some 1; body = d } ∷ []))
        × ((show d id s).timers
            ≡ (if is_error d.type then s.timers else s.timers ++ (signature_of d, id) ∷ []))
  show-new d id s h f =
      let before = forgotten (signature_of d) s in
      let shown = show-add d id s h f in
      let grown = length-append s.items (record { id = id; count = some 1; body = d } ∷ []) in
      (
        ap (λ r. r.items) shown
            ∙ add-items d id before
            ∙ trim-items (added d id before)
            ∙ rw (forgotten-items (signature_of d) s, grown) refl,
        ap (λ r. r.timers) shown
            ∙ add-timers d id before
            ∙ rw (forgotten-timers (signature_of d) s) refl,
      )
