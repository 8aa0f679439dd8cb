-- ===== src/Resource/Store/Slots.antt =====
-- The slots and positions of applyChanges in ClusterResourceStore.ts, and the list that they stand for.
use kubiq.Resource.Store.{compact, put}
use kubiq.Base.{
  ℕ, zero, suc, ◌+◌, ◌≡◌, refl, ap, ◌∙◌, Bool, false, List, [], ◌∷◌, ◌++◌, Option, none, some,
  String, str_eq, str_eq_iff, arith, if◌then◌else◌, length,
}

abbrev pub next : Option ℕ → Option ℕ
next none = none
next (some i) = some (suc i)

module _ {E : Type 0} (key_of : E → String) where
  abbrev pub holds : String → Option E → Bool
  holds k none = false
  holds k (some x) = str_eq (key_of x) k

  -- The first slot that holds a key.
  unfoldable pub place : String → List (Option E) → Option ℕ
  place k [] = none
  place k (x ∷ slots) = let rest = next (place k slots) in if holds k x then some 0 else rest

  -- No key is held twice.
  abbrev pub Distinct : List (Option E) → Type 0
  Distinct [] = Unit
  Distinct (none ∷ slots) = Distinct slots
  Distinct (some x ∷ slots) = (place (key_of x) slots ≡ none) × Distinct slots

  -- A change to a list, without slots.
  unfoldable pub remove : String → List E → List E
  remove k [] = []
  remove k (x ∷ xs) = if str_eq (key_of x) k then xs else x ∷ remove k xs

  unfoldable pub upsert : String → E → List E → List E
  upsert k e [] = e ∷ []
  upsert k e (x ∷ xs) = if str_eq (key_of x) k then e ∷ xs else x ∷ upsert k e xs

  pub place-put-none :
      (k j : String) (i : ℕ) (slots : List (Option E))
      → Distinct slots
      → place k slots ≡ some i
      → place j (put i none slots) ≡ (if str_eq k j then none else place j slots)
  unfolding place put
  place-put-none k j i [] d h = cc
  place-put-none k j zero (none ∷ slots) d h = ground (arith, h)
  place-put-none k j zero (some x ∷ slots) d h =
      ground (arith, d, h, str_eq_iff (key_of x) k, str_eq_iff (key_of x) j, str_eq_iff k j)
  place-put-none k j (suc i) (none ∷ slots) d h = ground (arith, h, place-put-none k j i slots d)
  place-put-none k j (suc i) (some x ∷ slots) d h = ground (
    arith,
    d,
    h,
    place-put-none k j i slots d.1,
    str_eq_iff (key_of x) k,
    str_eq_iff (key_of x) j,
    str_eq_iff k j,
  )

  pub place-put-some :
      (k j : String) (i : ℕ) (e : E) (slots : List (Option E))
      → key_of e ≡ k
      → Distinct slots
      → place k slots ≡ some i
      → place j (put i (some e) slots) ≡ place j slots
  unfolding place put
  place-put-some k j i e [] q d h = refl
  place-put-some k j zero e (none ∷ slots) q d h = ground (arith, h)
  place-put-some k j zero e (some x ∷ slots) q d h =
      ground
        (arith, d, h, q, str_eq_iff (key_of x) k, str_eq_iff (key_of x) j, str_eq_iff (key_of e) j)
  place-put-some k j (suc i) e (none ∷ slots) q d h =
      ground (arith, h, place-put-some k j i e slots q d)
  place-put-some k j (suc i) e (some x ∷ slots) q d h =
      ground (arith, d, h, place-put-some k j i e slots q d.1)

  pub place-append :
      (j : String) (e : E) (slots : List (Option E))
      → place (key_of e) slots ≡ none
      → place j (slots ++ some e ∷ [])
        ≡ (if str_eq (key_of e) j then some (length slots) else place j slots)
  unfolding place
  place-append j e [] h = ground (arith, str_eq_iff (key_of e) j)
  place-append j e (none ∷ slots) h = ground (arith, h, place-append j e slots)
  place-append j e (some x ∷ slots) h = ground (
    arith,
    h,
    place-append j e slots,
    str_eq_iff (key_of e) j,
    str_eq_iff (key_of x) j,
    str_eq_iff (key_of x) (key_of e),
  )

  pub Distinct-put-none :
      (k : String) (i : ℕ) (slots : List (Option E))
      → Distinct slots
      → place k slots ≡ some i
      → Distinct (put i none slots)
  unfolding place put
  Distinct-put-none k i [] d h = tt
  Distinct-put-none k zero (none ∷ slots) d h = d
  Distinct-put-none k zero (some x ∷ slots) d h = d.1
  Distinct-put-none k (suc i) (none ∷ slots) d h = Distinct-put-none k i slots d (ground (arith, h))
  Distinct-put-none k (suc i) (some x ∷ slots) d h =
      let later : place k slots ≡ some i = ground (arith, h) in
      (
        place-put-none k (key_of x) i slots d.1 later ∙ ground (arith, d),
        Distinct-put-none k i slots d.1 later,
      )

  pub Distinct-put-some :
      (k : String) (i : ℕ) (e : E) (slots : List (Option E))
      → key_of e ≡ k
      → Distinct slots
      → place k slots ≡ some i
      → Distinct (put i (some e) slots)
  unfolding place put
  Distinct-put-some k i e [] q d h = tt
  Distinct-put-some k zero e (none ∷ slots) q d h = absurd (ground (arith, h))
  Distinct-put-some k zero e (some x ∷ slots) q d h =
      (ground (arith, d, h, q, str_eq_iff (key_of x) k), d.1)
  Distinct-put-some k (suc i) e (none ∷ slots) q d h =
      Distinct-put-some k i e slots q d (ground (arith, h))
  Distinct-put-some k (suc i) e (some x ∷ slots) q d h =
      let later : place k slots ≡ some i = ground (arith, h) in
      (
        place-put-some k (key_of x) i e slots q d.1 later ∙ d.0,
        Distinct-put-some k i e slots q d.1 later,
      )

  pub Distinct-append :
      (e : E) (slots : List (Option E))
      → Distinct slots
      → place (key_of e) slots ≡ none
      → Distinct (slots ++ some e ∷ [])
  unfolding place
  Distinct-append e [] d h = (refl, tt)
  Distinct-append e (none ∷ slots) d h = Distinct-append e slots d (ground (arith, h))
  Distinct-append e (some x ∷ slots) d h =
      let later : place (key_of e) slots ≡ none = ground (arith, h) in
      (
        ground (
          arith,
          d,
          h,
          place-append (key_of x) e slots,
          str_eq_iff (key_of x) (key_of e),
          str_eq_iff (key_of e) (key_of x),
        ),
        Distinct-append e slots d.1 later,
      )

  pub compact-put-none :
      (k : String) (i : ℕ) (slots : List (Option E))
      → place k slots ≡ some i
      → compact (put i none slots) ≡ remove k (compact slots)
  unfolding place put compact remove
  compact-put-none k i [] h = cc
  compact-put-none k zero (none ∷ slots) h = absurd (ground (arith, h))
  compact-put-none k zero (some x ∷ slots) h = ground (arith, h)
  compact-put-none k (suc i) (none ∷ slots) h = compact-put-none k i slots (ground (arith, h))
  compact-put-none k (suc i) (some x ∷ slots) h = ground (arith, h, compact-put-none k i slots)

  pub compact-put-some :
      (k : String) (i : ℕ) (e : E) (slots : List (Option E))
      → place k slots ≡ some i
      → compact (put i (some e) slots) ≡ upsert k e (compact slots)
  unfolding place put compact upsert
  compact-put-some k i e [] h = cc
  compact-put-some k zero e (none ∷ slots) h = absurd (ground (arith, h))
  compact-put-some k zero e (some x ∷ slots) h = ground (arith, h)
  compact-put-some k (suc i) e (none ∷ slots) h = compact-put-some k i e slots (ground (arith, h))
  compact-put-some k (suc i) e (some x ∷ slots) h = ground (arith, h, compact-put-some k i e slots)

  pub compact-append :
      (k : String) (e : E) (slots : List (Option E))
      → place k slots ≡ none
      → compact (slots ++ some e ∷ []) ≡ upsert k e (compact slots)
  unfolding place compact upsert
  compact-append k e [] h = refl
  compact-append k e (none ∷ slots) h = compact-append k e slots (ground (arith, h))
  compact-append k e (some x ∷ slots) h = ground (arith, h, compact-append k e slots)

  pub remove_absent :
      (k : String) (slots : List (Option E))
      → place k slots ≡ none
      → remove k (compact slots) ≡ compact slots
  unfolding place compact remove
  remove_absent k [] h = refl
  remove_absent k (none ∷ slots) h = remove_absent k slots (ground (arith, h))
  remove_absent k (some x ∷ slots) h = ground (arith, h, remove_absent k slots)

  pub length-put-none :
      (k : String) (i : ℕ) (slots : List (Option E))
      → place k slots ≡ some i
      → length (compact (put i none slots)) + 1 ≡ length (compact slots)
  unfolding place put compact
  length-put-none k i [] h = absurd (cc)
  length-put-none k zero (none ∷ slots) h = absurd (ground (arith, h))
  length-put-none k zero (some x ∷ slots) h = omega arith
  length-put-none k (suc i) (none ∷ slots) h = length-put-none k i slots (ground (arith, h))
  length-put-none k (suc i) (some x ∷ slots) h =
      omega (arith, length-put-none k i slots (ground (arith, h)))

  pub length-put-some :
      (k : String) (i : ℕ) (e : E) (slots : List (Option E))
      → place k slots ≡ some i
      → length (compact (put i (some e) slots)) ≡ length (compact slots)
  unfolding place put compact
  length-put-some k i e [] h = refl
  length-put-some k zero e (none ∷ slots) h = absurd (ground (arith, h))
  length-put-some k zero e (some x ∷ slots) h = omega arith
  length-put-some k (suc i) e (none ∷ slots) h = length-put-some k i e slots (ground (arith, h))
  length-put-some k (suc i) e (some x ∷ slots) h =
      ap suc (length-put-some k i e slots (ground (arith, h)))

  pub length-snoc :
      (e : E) (slots : List (Option E))
      → length (compact (slots ++ some e ∷ [])) ≡ length (compact slots) + 1
  unfolding compact
  length-snoc e [] = omega arith
  length-snoc e (none ∷ slots) = length-snoc e slots
  length-snoc e (some x ∷ slots) = omega (arith, length-snoc e slots)
