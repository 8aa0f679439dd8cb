-- ===== src/Ui/Toast/Items.antt =====
-- The items of ToastStore.ts: their ids, and that `live` lists them (ToastService.ts).
use kubiq.Ui.Toast.{Toast, signature_of, bump, count_after, remove}
use kubiq.Base.{
  ◌⊎◌, ℕ, ◌≤◌, ◌≡◌, refl, ap, subst, ◌∙◌, inl, inr, true, false, List, [], ◌∷◌, ◌++◌, Option, none,
  some, String, arith, str_eq, str_eq_iff, length, map_get, map_delete, map_get-delete, All,
  Bool-cases,
}

module _ {A : Type 0} where
  abbrev pub IsOther : String → Toast A → Type 0
  IsOther id t = str_eq t.id id ≡ false

  abbrev pub IsFresh : String → List (Toast A) → Type 0
  IsFresh id ts = All (IsOther id) ts

  -- No id stands twice.
  abbrev pub Distinct : List (Toast A) → Type 0
  Distinct [] = Unit
  Distinct (t ∷ ts) = IsFresh t.id ts × Distinct ts

  abbrev pub IsListed : List (String × String) → Toast A → Type 0
  IsListed live t = map_get (signature_of t.body) live ≡ some t.id

  pub remove-All :
      (P : Toast A → Type 0) (id : String) (ts : List (Toast A)) → All P ts → All P (remove id ts)
  unfolding remove
  remove-All P id [] h = tt
  remove-All P id (t ∷ ts) h = elim (Bool-cases (str_eq t.id id)) [
    | inl e ↦ rw (e, remove) (h.1)
    | inr e ↦ rw (e, remove) (h.0, remove-All P id ts h.1)
  ]

  pub remove-Distinct : (id : String) (ts : List (Toast A)) → Distinct ts → Distinct (remove id ts)
  unfolding remove
  remove-Distinct id [] h = tt
  remove-Distinct id (t ∷ ts) h = elim (Bool-cases (str_eq t.id id)) [
    | inl e ↦ rw (e, remove) (h.1)
    | inr e ↦ rw (e, remove) (remove-All (IsOther t.id) id ts h.0, remove-Distinct id ts h.1)
  ]

  pub remove-IsFresh : (id : String) (ts : List (Toast A)) → Distinct ts → IsFresh id (remove id ts)
  unfolding remove
  remove-IsFresh id [] h = tt
  remove-IsFresh id (t ∷ ts) h = elim (Bool-cases (str_eq t.id id)) [
    | inl e ↦
        let same : t.id ≡ id = (str_eq_iff t.id id).0 e in
        rw (e, remove) (subst (λ i. IsFresh i ts) same (h.0))
    | inr e ↦ rw (e, remove) (e, remove-IsFresh id ts h.1)
  ]

  pub remove-length : (id : String) (ts : List (Toast A)) → length (remove id ts) ≤ length ts
  unfolding remove
  remove-length id [] = omega arith
  remove-length id (t ∷ ts) = ground (arith, remove-length id ts)

  -- A toast that is listed under the signature of a dismissed one has its id.
  pub IsListed-deleted :
      (live : List (String × String)) (signature id : String) (ts : List (Toast A))
      → map_get signature live ≡ some id
      → IsFresh id ts
      → All (IsListed live) ts
      → All (IsListed (map_delete signature live)) ts
  IsListed-deleted live signature id [] g f h = tt
  IsListed-deleted live signature id (t ∷ ts) g f h = (
    map_get-delete signature (signature_of t.body) live
        ∙ elim (Bool-cases (str_eq signature (signature_of t.body))) [
          | inl e ↦ absurd (
              ground (
                arith,
                g,
                f.0,
                h.0,
                e,
                str_eq_iff signature (signature_of t.body),
                str_eq_iff t.id id,
              ))
          | inr e ↦ rw e (h.0)
        ],
    IsListed-deleted live signature id ts g f.1 h.1,
  )

  -- A list that does not hold the id behind one that does.
  pub bump-append :
      (id : String) (xs ys : List (Toast A)) (t : Toast A)
      → IsFresh id xs
      → str_eq t.id id ≡ true
      → bump id (xs ++ t ∷ ys) ≡ some (xs ++ record t { count = some (count_after t.count) } ∷ ys)
  unfolding bump
  bump-append id [] ys t f e = rw e refl
  bump-append id (x ∷ xs) ys t f e = rw (f.0, bump-append id xs ys t f.1 e) refl

  -- A toast's id stands in `live` under its own signature only.
  unfoldable pub IsOwn : List (String × String) → Toast A → Type 0
  IsOwn live t = (k : String) → map_get k live ≡ some t.id → k ≡ signature_of t.body

  pub IsOwn-deleted :
      (live : List (String × String)) (signature : String) (ts : List (Toast A))
      → All (IsOwn live) ts
      → All (IsOwn (map_delete signature live)) ts
  unfolding IsOwn
  IsOwn-deleted live signature [] h = tt
  IsOwn-deleted live signature (t ∷ ts) h = (
    λ k e. h.0 k (ground (arith, e, map_get-delete signature k live)),
    IsOwn-deleted live signature ts h.1,
  )

  -- Every id stands once, and every toast is listed, under its signature and no other.
  abbrev pub IsIndexed : List (String × String) → List (Toast A) → Type 0
  IsIndexed live ts = Distinct ts × All (IsListed live) ts × All (IsOwn live) ts

  pub remove-IsIndexed :
      (live : List (String × String)) (id : String) (ts : List (Toast A))
      → IsIndexed live ts
      → IsIndexed live (remove id ts)
  remove-IsIndexed live id ts h = (
    remove-Distinct id ts h.0,
    remove-All (IsListed live) id ts h.1,
    remove-All (IsOwn live) id ts h.2,
  )

  pub bump_fresh : (id : String) (ts : List (Toast A)) → IsFresh id ts → bump id ts ≡ none
  unfolding bump
  bump_fresh id [] f = refl
  bump_fresh id (t ∷ ts) f = rw (f.0, bump_fresh id ts f.1) refl

  -- No toast has the signature.
  abbrev pub IsAbsent : String → List (Toast A) → Type 0
  IsAbsent signature ts = All (λ t. str_eq (signature_of t.body) signature ≡ false) ts

  pub split_at :
      (signature : String) (ts : List (Toast A))
      → IsAbsent signature ts
        ⊎ ((xs : List (Toast A)) × (t : Toast A) × (ys : List (Toast A)) × (ts ≡ xs ++ t ∷ ys)
            × (signature_of t.body ≡ signature))
  split_at signature [] = inl tt
  split_at signature (t ∷ ts) = elim (Bool-cases (str_eq (signature_of t.body) signature)) [
    | inl e ↦ inr ([], t, ts, refl, (str_eq_iff (signature_of t.body) signature).0 e)
    | inr e ↦ elim (split_at signature ts) [
      | inl f ↦ inl (e, f)
      | inr (xs, u, ys, whole, same) ↦ inr (t ∷ xs, u, ys, ap (λ l. t ∷ l) whole, same)
    ]
  ]

  -- What every toast of a list has, the middle one has.
  pub All-middle :
      (P : Toast A → Type 0) (xs ys : List (Toast A)) (t : Toast A) → All P (xs ++ t ∷ ys) → P t
  All-middle P [] ys t h = h.0
  All-middle P (x ∷ xs) ys t h = All-middle P xs ys t h.1

  pub Distinct-before :
      (xs ys : List (Toast A)) (t : Toast A) → Distinct (xs ++ t ∷ ys) → IsFresh t.id xs
  Distinct-before [] ys t h = tt
  Distinct-before (x ∷ xs) ys t h =
      let apart = All-middle (IsOther x.id) xs ys t h.0 in
      (
        ground (arith, apart, str_eq_iff x.id t.id, str_eq_iff t.id x.id),
        Distinct-before xs ys t h.1,
      )

  All-counted :
      (P : Toast A → Type 0) (xs ys : List (Toast A)) (t u : Toast A)
      → (P t → P u)
      → All P (xs ++ t ∷ ys)
      → All P (xs ++ u ∷ ys)
  All-counted P [] ys t u keep h = (keep h.0, h.1)
  All-counted P (x ∷ xs) ys t u keep h = (h.0, All-counted P xs ys t u keep h.1)

  Distinct-counted :
      (xs ys : List (Toast A)) (t : Toast A) (c : Option ℕ)
      → Distinct (xs ++ t ∷ ys)
      → Distinct (xs ++ record t { count = c } ∷ ys)
  Distinct-counted [] ys t c h = h
  Distinct-counted (x ∷ xs) ys t c h = (
    All-counted (IsOther x.id) xs ys t (record t { count = c }) (λ p. p) h.0,
    Distinct-counted xs ys t c h.1,
  )

  -- A toast that changes in nothing but its count leaves the list indexed.
  pub count-IsIndexed :
      (live : List (String × String)) (xs ys : List (Toast A)) (t : Toast A) (c : Option ℕ)
      → IsIndexed live (xs ++ t ∷ ys)
      → IsIndexed live (xs ++ record t { count = c } ∷ ys)
  unfolding IsOwn
  count-IsIndexed live xs ys t c h = (
    Distinct-counted xs ys t c h.0,
    All-counted (IsListed live) xs ys t (record t { count = c }) (λ p. p) h.1,
    All-counted (IsOwn live) xs ys t (record t { count = c }) (λ p. p) h.2,
  )
