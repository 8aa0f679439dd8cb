-- ===== src/Yaml/Apply/Merge.antt =====
-- What the API server does with a merge patch (RFC 7386), as an interface, and when the outcome is the
-- edited value.
use kubiq.Yaml.Value.{
  Value, null, text, scalar, array, mapping, Fields, end, field, get, is_map, is_inherited,
}
use kubiq.Yaml.Apply.{has_removal, some_removed, missing_removed}
use kubiq.Base.{
  subst, ◌≡◌, refl, sym, ap, ◌∙◌, inl, inr, Bool, true, false, ◌||◌, Option, none, some, String,
  str_eq, str_eq_iff, arith, Bool-cases,
}

module _ {S : Type 0} where
  abbrev pub fields_of : Option (Value S) → Fields S
  fields_of (some (mapping fs)) = fs
  fields_of _ = end

  -- What a key holds after the patch, from the value before and the patch's.
  abbrev pub merged :
      (Option (Value S) → Value S → Value S)
      → Option (Value S)
      → Option (Value S)
      → Option (Value S)
  merged merge old none = old
  merged merge old (some null) = none
  merged merge old (some v) = some (merge old v)

  -- No key stands twice.
  abbrev pub Unique : Fields S → Type 0
  Unique end = Unit
  Unique (field k v fs) = (get k fs ≡ none) × Unique fs

-- `merge target patch`: a patch that is no mapping takes the target's place; one that is changes the
-- target's keys, and null deletes a key.
pub record MergePatch (S : Type 0) : Type 0 where
  pub merge : Option (Value S) → Value S → Value S
  pub merge_leaf : (t : Option (Value S)) (v : Value S) → is_map v ≡ false → merge t v ≡ v
  pub merge_map :
      (t : Option (Value S)) (p : Fields S)
      → Unique p
      → (rs : Fields S) × (merge t (mapping p) ≡ mapping rs)
        × ((k : String) → get k rs ≡ merged merge (get k (fields_of t)) (get k p))

module _ {S : Type 0} where
  -- Two values are the same but for the order of keys.
  unfoldable mutual
    pub Same : Value S → Value S → Type 0
    Same (mapping fs) r =
        (rs : Fields S) × (r ≡ mapping rs)
        × AllSame fs rs
        × ((k : String) → get k fs ≡ none → get k rs ≡ none)
    Same null r = null ≡ r
    Same (text s) r = text s ≡ r
    Same (scalar a) r = scalar a ≡ r
    Same (array xs) r = array xs ≡ r

    pub AllSame : Fields S → Fields S → Type 0
    AllSame end rs = Unit
    AllSame (field k v fs) rs = ((w : Value S) × (get k rs ≡ some w) × Same v w) × AllSame fs rs

  -- A value without nulls in its mappings, and without a key that stands twice.
  unfoldable mutual
    pub IsPlain : Value S → Type 0
    IsPlain null = ⊥
    IsPlain (text s) = Unit
    IsPlain (scalar a) = Unit
    IsPlain (array xs) = Unit
    IsPlain (mapping fs) = AllPlain fs

    pub AllPlain : Fields S → Type 0
    AllPlain end = Unit
    AllPlain (field k v fs) = (get k fs ≡ none) × IsPlain v × AllPlain fs

  pub AllPlain-Unique : (fs : Fields S) → AllPlain fs → Unique fs
  unfolding IsPlain
  AllPlain-Unique end h = tt
  AllPlain-Unique (field k v fs) h = (h.0, AllPlain-Unique fs h.2)

  abbrev pub removal_opt : Option (Value S) → Value S → Bool
  removal_opt none v = false
  removal_opt (some u) v = has_removal u v

  -- A value of whose mappings no key is one that every object inherits.
  unfoldable mutual
    pub IsOwn : Value S → Type 0
    IsOwn (mapping fs) = AllOwn fs
    IsOwn null = Unit
    IsOwn (text s) = Unit
    IsOwn (scalar a) = Unit
    IsOwn (array xs) = Unit

    pub AllOwn : Fields S → Type 0
    AllOwn end = Unit
    AllOwn (field k v fs) = (is_inherited k ≡ false) × IsOwn v × AllOwn fs

  abbrev pub OwnOpt : Option (Value S) → Type 0
  OwnOpt none = Unit
  OwnOpt (some v) = IsOwn v

  pub AllOwn-get : (fs : Fields S) (k : String) → AllOwn fs → OwnOpt (get k fs)
  unfolding get IsOwn
  AllOwn-get end k o = tt
  AllOwn-get (field j v fs) k o = elim (Bool-cases (str_eq j k)) [
    | inl hit ↦ rw hit o.1
    | inr miss ↦ rw miss (AllOwn-get fs k o.2)
  ]

  AllOwn-fields_of : (t : Option (Value S)) → OwnOpt t → AllOwn (fields_of t)
  unfolding IsOwn
  AllOwn-fields_of none o = tt
  AllOwn-fields_of (some null) o = tt
  AllOwn-fields_of (some (text s)) o = tt
  AllOwn-fields_of (some (scalar a)) o = tt
  AllOwn-fields_of (some (array xs)) o = tt
  AllOwn-fields_of (some (mapping fs)) o = o

  pub missing_removed_lem :
      (k : String) (v : Value S) → is_inherited k ≡ false → missing_removed k v ≡ true
  missing_removed_lem k null n = rw n refl
  missing_removed_lem k (text s) n = rw n refl
  missing_removed_lem k (scalar a) n = rw n refl
  missing_removed_lem k (array xs) n = rw n refl
  missing_removed_lem k (mapping fs) n = rw n refl

  removal_rest :
      (j : String) (u : Value S) (fs p : Fields S) (o : Option (Value S))
      → (elim o [ none ↦ missing_removed j u | some w ↦ has_removal u w ] || some_removed fs p)
        ≡ false
      → some_removed fs p ≡ false
  removal_rest j u fs p none h = ground (arith, h)
  removal_rest j u fs p (some w) h = ground arith

  removal_first :
      (j : String) (u v : Value S) (fs p : Fields S) (o : Option (Value S))
      → o ≡ some v
      → (elim o [ none ↦ missing_removed j u | some w ↦ has_removal u w ] || some_removed fs p)
        ≡ false
      → has_removal u v ≡ false
  removal_first j u v fs p none e h = cc
  removal_first j u v fs p (some w) e h = ground arith

  removal_missing :
      (j : String) (u : Value S) (fs p : Fields S) (o : Option (Value S))
      → is_inherited j ≡ false
      → o ≡ none
      → (elim o [ none ↦ missing_removed j u | some w ↦ has_removal u w ] || some_removed fs p)
        ≡ false
      → ⊥
  removal_missing j u fs p none n e h = absurd (ground (arith, h, missing_removed_lem j u n))
  removal_missing j u fs p (some w) n e h = cc

  some_removed-get :
      (fs p : Fields S) (k : String) (v : Value S)
      → some_removed fs p ≡ false
      → get k p ≡ some v
      → removal_opt (get k fs) v ≡ false
  unfolding get has_removal
  some_removed-get end p k v h e = refl
  some_removed-get (field j u fs) p k v h e = elim (Bool-cases (str_eq j k)) [
    | inl hit ↦
        let jk = (str_eq_iff j k).0 hit in
        let e' : get j p ≡ some v = subst (λ i. get i p ≡ some v) (sym jk) e in
        rw hit (removal_first j u v fs p (get j p) e' h)
    | inr miss ↦ rw miss (some_removed-get fs p k v (removal_rest j u fs p (get j p) h) e)
  ]

  some_removed-none :
      (fs p : Fields S) (k : String)
      → AllOwn fs
      → some_removed fs p ≡ false
      → get k p ≡ none
      → get k fs ≡ none
  unfolding get has_removal IsOwn
  some_removed-none end p k o h e = refl
  some_removed-none (field j u fs) p k o h e = elim (Bool-cases (str_eq j k)) [
    | inl hit ↦
        let jk = (str_eq_iff j k).0 hit in
        let e' : get j p ≡ none = subst (λ i. get i p ≡ none) (sym jk) e in
        absurd (removal_missing j u fs p (get j p) o.0 e' h)
    | inr miss ↦ rw miss (some_removed-none fs p k o.2 (removal_rest j u fs p (get j p) h) e)
  ]

  pub merged-plain :
      (merge : Option (Value S) → Value S → Value S) (old : Option (Value S)) (v : Value S)
      → IsPlain v
      → merged merge old (some v) ≡ some (merge old v)
  unfolding IsPlain
  merged-plain merge old null h = absurd h
  merged-plain merge old (text s) h = refl
  merged-plain merge old (scalar a) h = refl
  merged-plain merge old (array xs) h = refl
  merged-plain merge old (mapping fs) h = refl

  removal_fields :
      (t : Option (Value S)) (p : Fields S)
      → removal_opt t (mapping p) ≡ false
      → some_removed (fields_of t) p ≡ false
  unfolding has_removal
  removal_fields none p h = refl
  removal_fields (some null) p h = refl
  removal_fields (some (text s)) p h = refl
  removal_fields (some (scalar a)) p h = refl
  removal_fields (some (array xs)) p h = refl
  removal_fields (some (mapping fs)) p h = h

  get_first : (k : String) (v : Value S) (fs : Fields S) → get k (field k v fs) ≡ some v
  unfolding get
  get_first k v fs = rw ((str_eq_iff k k).1 refl) refl

  get_rest :
      (k j : String) (v w : Value S) (fs : Fields S)
      → get k fs ≡ none
      → get j fs ≡ some w
      → get j (field k v fs) ≡ some w
  unfolding get
  get_rest k j v w fs n e = elim (Bool-cases (str_eq k j)) [
    | inl hit ↦
        let clash : get k fs ≡ some w =
          subst (λ i. get i fs ≡ some w) (sym ((str_eq_iff k j).0 hit)) e in
        cc
    | inr miss ↦ rw miss e
  ]

  mutual
    unfolding Same IsPlain

    -- Merging a plain value over one without inherited keys, from which it removes nothing, leaves
    -- the value.
    pub merge-Same :
        (m : MergePatch S) (e : Value S) (t : Option (Value S))
        → IsPlain e
        → OwnOpt t
        → removal_opt t e ≡ false
        → Same e (m.merge t e)
    merge-Same m null t h o r = sym (m.merge_leaf t null refl)
    merge-Same m (text s) t h o r = sym (m.merge_leaf t (text s) refl)
    merge-Same m (scalar a) t h o r = sym (m.merge_leaf t (scalar a) refl)
    merge-Same m (array xs) t h o r = sym (m.merge_leaf t (array xs) refl)
    merge-Same m (mapping p) t h o r =
        let law = m.merge_map t p (AllPlain-Unique p h) in
        let kept = removal_fields t p r in
        let own = AllOwn-fields_of t o in
        (
          law.0,
          law.1,
          merge_fields-Same m p p (fields_of t) law.0 h own (λ k v e. e) kept law.2,
          λ k e.
              law.2 k
              ∙ ap (merged m.merge (get k (fields_of t))) e
              ∙ some_removed-none (fields_of t) p k own kept e,
        )

    merge_fields-Same :
        (m : MergePatch S) (gs p fs rs : Fields S)
        → AllPlain gs
        → AllOwn fs
        → ((k : String) (v : Value S) → get k gs ≡ some v → get k p ≡ some v)
        → some_removed fs p ≡ false
        → ((k : String) → get k rs ≡ merged m.merge (get k fs) (get k p))
        → AllSame gs rs
    merge_fields-Same m end p fs rs h o sub r law = tt
    merge_fields-Same m (field k v gs) p fs rs h o sub r law =
        let e = sub k v (get_first k v gs) in
        (
          (
            m.merge (get k fs) v,
            law k ∙ ap (merged m.merge (get k fs)) e ∙ merged-plain m.merge (get k fs) v h.1,
            merge-Same m v (get k fs) h.1 (AllOwn-get fs k o) (some_removed-get fs p k v r e),
          ),
          merge_fields-Same m gs p fs rs h.2 o (λ j w f. sub j w (get_rest k j v w gs h.0 f)) r law,
        )
