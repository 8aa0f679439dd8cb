-- ===== src/Ui/Toast/Trim.antt =====
-- dismiss and trim of ToastService.ts.
use kubiq.Ui.Toast.{Toast, Toasts, signature_of, remove, dismiss, trim_from, trim}
use kubiq.Ui.Toast.Items.{
  IsListed, remove-All, remove-Distinct, remove-IsFresh, IsListed-deleted, IsOwn, IsOwn-deleted,
  IsIndexed, remove-IsIndexed,
}
use kubiq.Base.{
  ℕ, zero, suc, ◌-◌, ◌≤◌, ◌≡◌, refl, ap, ◌∙◌, inl, inr, List, [], ◌∷◌, some, String, arith, str_eq,
  str_eq_iff, ltb, length, drop, map_get, Bool-cases, Option-cases,
}

module _ {A : Type 0} where
  pub dismiss-items :
      (signature id : String) (s : Toasts A) → (dismiss signature id s).items ≡ remove id s.items
  unfolding dismiss
  dismiss-items signature id s = ground arith

  pub dismiss-IsIndexed :
      (signature id : String) (s : Toasts A)
      → IsIndexed s.live s.items
      → IsIndexed ((dismiss signature id s).live) ((dismiss signature id s).items)
  unfolding dismiss
  dismiss-IsIndexed signature id s h = elim (Option-cases (map_get signature s.live)) [
    | inl e ↦ rw (e, dismiss) (remove-IsIndexed s.live id s.items h)
    | inr (live, e) ↦ elim (Bool-cases (str_eq live id)) [
      | inl q ↦
          let same : live ≡ id = (str_eq_iff live id).0 q in
          rw (e, q, dismiss)
            (
              remove-Distinct id s.items h.0,
              IsListed-deleted s.live signature id (remove id s.items) (e ∙ ap some same)
                  (remove-IsFresh id s.items h.0) (remove-All (IsListed s.live) id s.items h.1),
              IsOwn-deleted s.live signature (remove id s.items)
                  (remove-All (IsOwn s.live) id s.items h.2),
            )
      | inr q ↦ rw (e, q, dismiss) (remove-IsIndexed s.live id s.items h)
    ]
  ]

  remove_head : (t : Toast A) (ts : List (Toast A)) → remove t.id (t ∷ ts) ≡ ts
  unfolding remove
  remove_head t ts = rw ((str_eq_iff t.id t.id).1 refl) refl

  dismiss_head :
      (t : Toast A) (ts : List (Toast A)) (s : Toasts A)
      → s.items ≡ t ∷ ts
      → (dismiss (signature_of t.body) t.id s).items ≡ ts
  dismiss_head t ts s e =
      dismiss-items (signature_of t.body) t.id s ∙ ap (remove t.id) e ∙ remove_head t ts

  -- The loop leaves the newest five.
  trim_from-items :
      (n : ℕ) (s : Toasts A) (ts : List (Toast A))
      → s.items ≡ ts
      → length ts ≤ n
      → (trim_from n s).items ≡ drop (length ts - 5) ts
  unfolding trim_from
  trim_from-items zero s [] e h = e
  trim_from-items zero s (t ∷ ts) e h = absurd (omega arith)
  trim_from-items (suc n) s [] e h = rw (e, trim_from) e
  trim_from-items (suc n) s (t ∷ ts) e h = elim (Bool-cases (ltb 5 (length (t ∷ ts)))) [
    | inl q ↦
        let many : 5 ≤ length ts = ground (arith, q) in
        let one : suc (length ts) - 5 ≡ suc (length ts - 5) = omega arith in
        rw (e, q, one, trim_from)
          (trim_from-items n (dismiss (signature_of t.body) t.id s) ts (dismiss_head t ts s e)
            (omega arith))
    | inr q ↦
        let few : length ts ≤ 4 = ground (arith, q) in
        let none_over : suc (length ts) - 5 ≡ 0 = omega arith in rw (e, q, none_over, trim_from) e
  ]

  pub trim-items : (s : Toasts A) → (trim s).items ≡ drop (length s.items - 5) s.items
  unfolding trim
  trim-items s = trim_from-items (length s.items) s s.items refl (omega arith)

  trim_from-IsIndexed :
      (n : ℕ) (s : Toasts A) (ts : List (Toast A))
      → s.items ≡ ts
      → IsIndexed s.live s.items
      → IsIndexed ((trim_from n s).live) ((trim_from n s).items)
  unfolding trim_from
  trim_from-IsIndexed zero s ts e h = h
  trim_from-IsIndexed (suc n) s [] e h = rw (e, trim_from) h
  trim_from-IsIndexed (suc n) s (t ∷ ts) e h = elim (Bool-cases (ltb 5 (length (t ∷ ts)))) [
    | inl q ↦
        rw (e, q, trim_from)
          (trim_from-IsIndexed n (dismiss (signature_of t.body) t.id s) ts (dismiss_head t ts s e)
            (dismiss-IsIndexed (signature_of t.body) t.id s h))
    | inr q ↦ rw (e, q, trim_from) h
  ]

  pub trim-IsIndexed :
      (s : Toasts A) → IsIndexed s.live s.items → IsIndexed ((trim s).live) ((trim s).items)
  unfolding trim
  trim-IsIndexed s h = trim_from-IsIndexed (length s.items) s s.items refl h

  dismiss-timers :
      (signature id : String) (s : Toasts A) → (dismiss signature id s).timers ≡ s.timers
  unfolding dismiss
  dismiss-timers signature id s = ground arith

  trim_from-timers :
      (n : ℕ) (s : Toasts A) (ts : List (Toast A))
      → s.items ≡ ts
      → (trim_from n s).timers ≡ s.timers
  unfolding trim_from
  trim_from-timers zero s ts e = refl
  trim_from-timers (suc n) s [] e = rw (e, trim_from) refl
  trim_from-timers (suc n) s (t ∷ ts) e = elim (Bool-cases (ltb 5 (length (t ∷ ts)))) [
    | inl q ↦
        let later =
          trim_from-timers n (dismiss (signature_of t.body) t.id s) ts (dismiss_head t ts s e) in
        rw (e, q, trim_from) (later ∙ dismiss-timers (signature_of t.body) t.id s)
    | inr q ↦ rw (e, q, trim_from) refl
  ]

  pub trim-timers : (s : Toasts A) → (trim s).timers ≡ s.timers
  unfolding trim
  trim-timers s = trim_from-timers (length s.items) s s.items refl
