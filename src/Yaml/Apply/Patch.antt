-- ===== src/Yaml/Apply/Patch.antt =====
-- plan of YamlApplyPlanner.ts with the patch of ResourceYamlService.ts: what a patch leaves in the
-- cluster.
mod Tests
use kubiq.Yaml.Value.{Value, mapping, text, Fields, end, field, get, keys, is_inherited, equal}
use kubiq.Yaml.Apply.{
  Mode, Plan, includes, unique, filter, Attributes, cluster_owned, is_declared, is_attribute,
  unknown, dropped_fields, changed_fields, changes, body, resource_version,
}
use kubiq.Yaml.Apply.Merge.{
  MergePatch, merged, fields_of, Unique, Same, AllPlain, IsPlain, merged-plain, merge-Same,
  removal_opt, AllOwn, AllOwn-get,
}
use kubiq.Yaml.Apply.Keys.{
  includes-append, includes-filter, includes-unique, unique-NoRepeat, filter-NoRepeat, get-changes,
  changes-Unique, is_written, NoRepeat,
}
use kubiq.Base.{
  ◌≡◌, ap, ◌∙◌, subst, ◌⊎◌, inl, inr, Bool, true, false, ◌&&◌, not, Option, none, some, String,
  str_eq, str_eq_iff, if◌then◌else◌, arith, Bool-cases, Option-cases, List, [], ◌∷◌, ◌++◌, length,
  ◌==◌,
}

module _ {S : Type 0} (same : S → S → Bool) where
  -- A key of the cluster's object against the edited one: the same value, or one that the code's own
  -- equality takes for equal; and nothing where the edited one has nothing.
  abbrev pub Agrees : Option (Value S) → Option (Value S) → Type 0
  Agrees none held = held ≡ none
  Agrees (some e) held = (w : Value S) × (held ≡ some w) × (Same e w ⊎ (equal same w e ≡ true))

  module _ (current edited : Fields S) (attrs : Attributes) where
    abbrev own_changes : List String
    own_changes =
        filter (λ k. not (includes k (cluster_owned attrs))) (changed_fields same current edited)

    abbrev dropped : List String
    dropped = dropped_fields current edited (cluster_owned attrs)

    -- Nothing unsupported: every field of the patch is declared, and nothing is dropped.
    supported :
        (k : String)
        → unique [] (unknown own_changes attrs ++ dropped) ≡ []
        → (includes k own_changes ≡ true → is_declared attrs k ≡ true)
          × (includes k dropped ≡ false)
    unfolding unknown
    supported k e =
        let none_in : includes k (unique [] (unknown own_changes attrs ++ dropped)) ≡ false =
          ap (includes k) e in
        let a = includes-unique k [] (unknown own_changes attrs ++ dropped) in
        let b = includes-append k (unknown own_changes attrs) dropped in
        let c = includes-filter (λ k. not (is_declared attrs k)) k own_changes in
        ((λ h. ground arith), ground arith)

    own_changes-NoRepeat : NoRepeat own_changes
    unfolding changed_fields
    own_changes-NoRepeat =
        filter-NoRepeat _ _ (filter-NoRepeat _ _ (unique-NoRepeat [] (keys current ++ keys edited)))

declared-attribute :
    (attrs : Attributes) (k : String)
    → is_inherited k ≡ false
    → is_declared attrs k ≡ true
    → is_attribute attrs k ≡ true
unfolding is_declared
declared-attribute attrs k n h = ground (arith, n, h)

module _ {S : Type 0} where
  get-body :
      (k : String) (ks : List String) (current edited : Fields S) (attrs : Attributes)
      → (str_eq "metadata" k ≡ false) ⊎ (includes k ks ≡ true)
      → get k (body ks current edited attrs)
        ≡ (if includes k ks && is_written attrs k then get k edited else none)
  unfolding body get
  get-body k ks current edited attrs h = elim (Bool-cases (str_eq "metadata" k)) [
    | inl hit ↦
        let in_both : includes "metadata" ks ≡ includes k ks =
          ap (λ i. includes i ks) ((str_eq_iff "metadata" k).0 hit) in
        ground (arith, get-changes k ks edited attrs)
    | inr miss ↦ ground (arith, get-changes k ks edited attrs)
  ]

  body-Unique :
      (ks : List String) (current edited : Fields S) (attrs : Attributes)
      → NoRepeat ks
      → Unique (body ks current edited attrs)
  unfolding body
  body-Unique ks current edited attrs h =
      let rest = changes-Unique ks edited attrs h in
      let out = get-changes "metadata" ks edited attrs in ground arith

  AllPlain-get :
      (fs : Fields S) (k : String) (v : Value S) → AllPlain fs → get k fs ≡ some v → IsPlain v
  unfolding IsPlain get
  AllPlain-get end k v h e = cc
  AllPlain-get (field j w fs) k v h e = elim (Bool-cases (str_eq j k)) [
    | inl hit ↦ subst IsPlain (ground (arith, e, hit)) h.1
    | inr miss ↦ AllPlain-get fs k v h.2 (ground (arith, e))
  ]

module _ {S : Type 0} (same : S → S → Bool) (m : MergePatch S) (current edited : Fields S)
    (attrs : Attributes) where
  abbrev sent : Fields S
  sent = body (own_changes same current edited attrs) current edited attrs

  abbrev outcome : Fields S
  outcome = fields_of (some (m.merge (some (mapping current)) (mapping sent)))

  get-outcome : (k : String) → get k outcome ≡ merged m.merge (get k current) (get k sent)
  get-outcome k =
      let law = m.merge_map (some (mapping current)) sent (
        body-Unique (own_changes same current edited attrs) current edited attrs
          (own_changes-NoRepeat same current edited attrs)) in
      rw law.1 (law.2 k)

  module _ (k : String) (plain : AllPlain edited)
      (nothing : unique [] (
          unknown (own_changes same current edited attrs) attrs
          ++ dropped same current edited attrs)
        ≡ [])
      (own : includes k (cluster_owned attrs) ≡ false) (ordinary : AllOwn current)
      (named : is_inherited k ≡ false)
      (in_body : (str_eq "metadata" k ≡ false)
        ⊎ (includes k (own_changes same current edited attrs) ≡ true)) where
    written :
        (e : Value S)
        → includes k (own_changes same current edited attrs) ≡ true
        → get k edited ≡ some e
        → removal_opt (get k current) e ≡ false
        → Agrees same (some e) (get k outcome)
    written e changed he r =
        let declared =
          declared-attribute attrs k named
            ((supported same current edited attrs k nothing).0 changed) in
        let in_sent : get k sent ≡ some e =
          get-body k (own_changes same current edited attrs) current edited attrs in_body
          ∙ ground (arith, changed, declared, own, he) in
        let whole = AllPlain-get edited k e plain he in
        (
          m.merge (get k current) e,
          get-outcome k
              ∙ ap (merged m.merge (get k current)) in_sent
              ∙ merged-plain m.merge (get k current) e whole,
          inl (merge-Same m e (get k current) whole (AllOwn-get current k ordinary) r),
        )
