-- ===== src/Ui/Toast/Added.antt =====
-- add of ToastService.ts: a toast with a new id and signature leaves the list indexed.
use kubiq.Ui.Toast.{Draft, Toast, Toasts, signature_of}
use kubiq.Ui.Toast.Items.{IsOther, IsFresh, Distinct, IsListed, IsOwn, IsIndexed, IsAbsent}
use kubiq.Ui.Toast.Show.{IsUnused, added}
use kubiq.Base.{
  ◌≡◌, ◌≢◌, refl, ◌∙◌, inl, inr, false, List, [], ◌∷◌, ◌++◌, some, String, arith, str_eq,
  str_eq_iff, map_get, map_set, map_delete, map_get-set, All, All-append, Bool-cases,
}

unused_live :
    (id k : String) (live : List (String × String))
    → All (λ entry. str_eq (entry.1) id ≡ false) live
    → map_get k live ≢ some id
unfolding map_get
unused_live id k [] h e = absurd (cc)
unused_live id k ((j, v) ∷ m) h e =
    absurd (ground (arith, h.0, e, str_eq_iff v id, unused_live id k m h.1))

pub unused-delete :
    (id k : String) (live : List (String × String))
    → All (λ entry. str_eq (entry.1) id ≡ false) live
    → All (λ entry. str_eq (entry.1) id ≡ false) (map_delete k live)
unfolding map_delete
unused-delete id k [] h = tt
unused-delete id k ((j, v) ∷ m) h = elim (Bool-cases (str_eq j k)) [
  | inl e ↦ rw (e, map_delete) (unused-delete id k m h.1)
  | inr e ↦ rw (e, map_delete) (h.0, unused-delete id k m h.1)
]

module _ {A : Type 0} where
  Distinct-snoc :
      (ts : List (Toast A)) (u : Toast A) → Distinct ts → IsFresh u.id ts → Distinct (ts ++ u ∷ [])
  Distinct-snoc [] u h f = (tt, tt)
  Distinct-snoc (t ∷ ts) u h f =
      let apart : IsOther t.id u =
        ground (arith, f.0, str_eq_iff t.id u.id, str_eq_iff u.id t.id) in
      (All-append (IsOther t.id) ts (u ∷ []) h.0 (apart, tt), Distinct-snoc ts u h.1 f.1)

  IsListed-set :
      (signature id : String) (live : List (String × String)) (ts : List (Toast A))
      → IsAbsent signature ts
      → All (IsListed live) ts
      → All (IsListed (map_set signature id live)) ts
  IsListed-set signature id live [] f h = tt
  IsListed-set signature id live (t ∷ ts) f h =
      let other : str_eq signature (signature_of t.body) ≡ false = ground (
        arith,
        f.0,
        str_eq_iff signature (signature_of t.body),
        str_eq_iff (signature_of t.body) signature,
      ) in
      (
        map_get-set signature (signature_of t.body) id live ∙ rw other (h.0),
        IsListed-set signature id live ts f.1 h.1,
      )

  IsOwn-set :
      (signature id : String) (live : List (String × String)) (ts : List (Toast A))
      → IsFresh id ts
      → All (IsOwn live) ts
      → All (IsOwn (map_set signature id live)) ts
  unfolding IsOwn
  IsOwn-set signature id live [] f h = tt
  IsOwn-set signature id live (t ∷ ts) f h = (
    λ k e. h.0 k (ground (arith, e, f.0, map_get-set signature k id live, str_eq_iff t.id id)),
    IsOwn-set signature id live ts f.1 h.1,
  )

  unused-IsOwn :
      (d : Draft A) (id : String) (live : List (String × String))
      → All (λ entry. str_eq (entry.1) id ≡ false) live
      → IsOwn (map_set (signature_of d) id live) (record { id = id; count = some 1; body = d })
  unfolding IsOwn
  unused-IsOwn d id live h k e = ground (
    arith,
    e,
    map_get-set (signature_of d) k id live,
    str_eq_iff (signature_of d) k,
    unused_live id k live h,
  )

  pub added-IsIndexed :
      (d : Draft A) (id : String) (s : Toasts A)
      → IsIndexed s.live s.items
      → IsUnused id s
      → IsAbsent (signature_of d) s.items
      → IsIndexed ((added d id s).live) ((added d id s).items)
  added-IsIndexed d id s h u f =
      let new : Toast A = record { id = id; count = some 1; body = d } in
      let live : List (String × String) = map_set (signature_of d) id s.live in
      let own : IsListed live new =
        map_get-set (signature_of d) (signature_of d) id s.live
        ∙ rw ((str_eq_iff (signature_of d) (signature_of d)).1 refl) refl in
      (
        Distinct-snoc s.items new h.0 u.0,
        All-append (IsListed live) s.items (new ∷ [])
            (IsListed-set (signature_of d) id s.live s.items f h.1) (own, tt),
        All-append (IsOwn live) s.items (new ∷ [])
            (IsOwn-set (signature_of d) id s.live s.items u.0 h.2)
            (unused-IsOwn d id s.live u.1, tt),
      )
