-- ===== src/Yaml/Apply/Keys.antt =====
-- The lists of names that YamlApplyPlanner.ts builds: what is in them.
use kubiq.Yaml.Value.{Value, Fields, end, field, get, keys, is_some, is_inherited}
use kubiq.Yaml.Apply.{
  includes, unique, filter, has_removal, dropped_fields, changes, Attributes, is_attribute,
  missing_removed, cluster_owned,
}
use kubiq.Yaml.Apply.Merge.{Unique, missing_removed_lem}
use kubiq.Base.{
  ◌≡◌, refl, ap, sym, ◌∙◌, inl, inr, Bool, true, false, ◌||◌, ◌&&◌, not, Option, none, some, String,
  str_eq, str_eq_iff, if◌then◌else◌, arith, Bool-cases, List, [], ◌∷◌, ◌++◌, length, ◌==◌,
}

pub includes-append :
    (k : String) (xs ys : List String) → includes k (xs ++ ys) ≡ (includes k xs || includes k ys)
includes-append k [] ys = refl
includes-append k (x ∷ xs) ys = ground (arith, includes-append k xs ys)

pub includes-filter :
    (p : String → Bool) (k : String) (xs : List String)
    → includes k (filter p xs) ≡ (includes k xs && p k)
unfolding filter
includes-filter p k [] = refl
includes-filter p k (x ∷ xs) = elim (Bool-cases (str_eq x k)) [
  | inl hit ↦
      let e : p x ≡ p k = ap p ((str_eq_iff x k).0 hit) in ground (arith, includes-filter p k xs)
  | inr miss ↦ ground (arith, includes-filter p k xs)
]

pub includes-unique :
    (k : String) (seen xs : List String)
    → includes k (unique seen xs) ≡ (includes k xs && not (includes k seen))
unfolding unique
includes-unique k seen [] = refl
includes-unique k seen (x ∷ xs) = elim (Bool-cases (str_eq x k)) [
  | inl hit ↦
      let e : includes x seen ≡ includes k seen =
        ap (λ i. includes i seen) ((str_eq_iff x k).0 hit) in
      ground (arith, includes-unique k seen xs, includes-unique k (x ∷ seen) xs)
  | inr miss ↦ ground (arith, includes-unique k seen xs, includes-unique k (x ∷ seen) xs)
]

abbrev pub NoRepeat : List String → Type 0
NoRepeat [] = Unit
NoRepeat (k ∷ ks) = (includes k ks ≡ false) × NoRepeat ks

pub unique-NoRepeat : (seen xs : List String) → NoRepeat (unique seen xs)
unfolding unique
unique-NoRepeat seen [] = tt
unique-NoRepeat seen (x ∷ xs) = elim (Bool-cases (includes x seen)) [
  | inl e ↦ rw e (unique-NoRepeat seen xs)
  | inr e ↦ rw e (
    (ground (arith, includes-unique x (x ∷ seen) xs, str_eq_iff x x)),
    unique-NoRepeat (x ∷ seen) xs,
  )
]

pub filter-NoRepeat : (p : String → Bool) (xs : List String) → NoRepeat xs → NoRepeat (filter p xs)
unfolding filter
filter-NoRepeat p [] h = tt
filter-NoRepeat p (x ∷ xs) h = elim (Bool-cases (p x)) [
  | inl e ↦ rw e ((includes-filter p x xs ∙ ground (arith, h.0)), filter-NoRepeat p xs h.1)
  | inr e ↦ rw e (filter-NoRepeat p xs h.1)
]

pub length_zero : (xs : List String) → (length xs == 0) ≡ true → xs ≡ []
length_zero [] h = refl
length_zero (x ∷ xs) h = ground arith

-- Whether a patch writes a field that it is given.
abbrev pub is_written : Attributes → String → Bool
is_written attrs k = is_attribute attrs k && not (includes k (cluster_owned attrs))

module _ {S : Type 0} where
  pub includes-keys : (k : String) (fs : Fields S) → includes k (keys fs) ≡ is_some (get k fs)
  unfolding keys get
  includes-keys k end = refl
  includes-keys k (field j v fs) = ground (arith, includes-keys k fs)

  not_dropped_here :
      (k : String) (u : Value S) (o : Option (Value S))
      → is_inherited k ≡ false
      → elim o [ none ↦ missing_removed k u | some w ↦ has_removal u w ] ≡ false
      → (w : Value S) × (o ≡ some w) × (has_removal u w ≡ false)
  not_dropped_here k u none n h = absurd (ground (arith, h, missing_removed_lem k u n))
  not_dropped_here k u (some w) n h = (w, refl, h)

  -- A field of `current` that is not dropped, not the cluster's own and not named as an inherited key: `edited` has it, and removes
  -- nothing from it.
  pub not_dropped :
      (current edited : Fields S) (owned : List String) (k : String) (u : Value S)
      → get k current ≡ some u
      → includes k owned ≡ false
      → includes k (dropped_fields current edited owned) ≡ false
      → is_inherited k ≡ false
      → (w : Value S) × (get k edited ≡ some w) × (has_removal u w ≡ false)
  unfolding get dropped_fields
  not_dropped end edited owned k u e o d n = cc
  not_dropped (field j v fs) edited owned k u e o d n = elim (Bool-cases (str_eq j k)) [
    | inl hit ↦
        let same = (str_eq_iff j k).0 hit in
        let owned' : includes j owned ≡ includes k owned = ap (λ i. includes i owned) same in
        let held : get j edited ≡ get k edited = ap (λ i. get i edited) same in
        let own_key : is_inherited j ≡ false = ap is_inherited same ∙ n in
        let (w, at, kept) = not_dropped_here j v (get j edited) own_key (ground (arith, owned')) in
        let first : v ≡ u = ground (arith, e, hit) in
        (w, sym held ∙ at, ap (λ i. has_removal i w) (sym first) ∙ kept)
    | inr miss ↦ not_dropped fs edited owned k u (ground (arith, e)) o (ground (arith, d)) n
  ]

  -- What the patch holds at a key.
  pub get-changes :
      (k : String) (ks : List String) (edited : Fields S) (attrs : Attributes)
      → get k (changes ks edited attrs)
        ≡ (if includes k ks && is_written attrs k then get k edited else none)
  unfolding changes get
  get-changes k [] edited attrs = refl
  get-changes k (x ∷ ks) edited attrs = elim (Bool-cases (str_eq x k)) [
    | inl hit ↦
        let same = (str_eq_iff x k).0 hit in
        let written : is_written attrs x ≡ is_written attrs k = ap (is_written attrs) same in
        let held : get x edited ≡ get k edited = ap (λ i. get i edited) same in
        ground (arith, get-changes k ks edited attrs)
    | inr miss ↦ ground (arith, get-changes k ks edited attrs)
  ]

  pub changes-Unique :
      (ks : List String) (edited : Fields S) (attrs : Attributes)
      → NoRepeat ks
      → Unique (changes ks edited attrs)
  unfolding changes
  changes-Unique [] edited attrs h = tt
  changes-Unique (x ∷ ks) edited attrs h =
      let rest = changes-Unique ks edited attrs h.1 in
      let out : get x (changes ks edited attrs) ≡ none =
        get-changes x ks edited attrs ∙ ground (arith, h.0) in
      ground (arith, rest, out)
