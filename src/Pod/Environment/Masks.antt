-- ===== src/Pod/Environment/Masks.antt =====
-- PodEnvironmentReport.ts: what the masked entries hide.
use kubiq.Pod.Environment.{ObjectRef, Import, KeyRef, Variable, ContainerEnvironment}
use kubiq.Pod.Environment.Report.{
  read, missing, forbidden, Source, SourceState, Built, Entry, Group, is_secret, keys_in, value_in,
  imported_key, imported, resolve, declared, all_imported, all_declared, numbered, entries, report,
  has_key,
}
use kubiq.Base.{
  codes, digits, ℕ, ◌+◌, ◌≡◌, refl, sym, ap, ap₂, ◌∙◌, inl, inr, ◌⊎◌, Bool, true, List, [], ◌∷◌,
  ◌++◌, Option, Text, arith, if◌then◌else◌, map, map-append, Option-cases,
}

-- What is shown of an entry while it is masked.
abbrev pub hide : Built → Built
hide b = if b.masked then record b { value = [] } else b

abbrev pub hide_entry : Entry → Entry
hide_entry e = record e { built = hide e.built }

abbrev pub hide_group : Group → Group
hide_group g = record g { entries = map hide_entry g.entries }

SourceState-cases : (x : SourceState) → (x ≡ read) ⊎ ((x ≡ missing) ⊎ (x ≡ forbidden))
SourceState-cases read = inl refl
SourceState-cases missing = inr (inl refl)
SourceState-cases forbidden = inr (inr refl)

variable-hide : (b : Built) → (hide b).variable ≡ b.variable
variable-hide b = ground arith

numbered-hide :
    (container : Text) (index : ℕ) (bs : List Built)
    → map hide_entry (numbered container index bs) ≡ numbered container index (map hide bs)
unfolding numbered
numbered-hide container index [] = refl
numbered-hide container index (b ∷ bs) =
    ap₂ (λ e es. e ∷ es)
      (ap
        (λ v. record {
          id = container ++ codes "/" ++ digits index index ++ codes "/" ++ v;
          built = hide b;
        })
        (sym (variable-hide b)))
      (numbered-hide container (index + 1) bs)

module _ (follows : Text → Text → Bool) (from_base64 : Text → Option Text) where
  -- Two sources of an object are the same, or are those of a secret that was read alike and whose
  -- keys are the same.
  abbrev pub Alike : ObjectRef → Source → Source → Type 0
  Alike o s s' =
      (s ≡ s')
      ⊎ ((is_secret o ≡ true)
          × (s.state ≡ s'.state)
          × (keys_in follows from_base64 s ≡ keys_in follows from_base64 s'))

  hide-keys :
      (s s' : Source) (i : Import) (ks : List Text)
      → is_secret i.object ≡ true
      → map hide (map (imported_key follows from_base64 s i) ks)
        ≡ map hide (map (imported_key follows from_base64 s' i) ks)
  hide-keys s s' i [] h = refl
  hide-keys s s' i (k ∷ ks) h = ap₂ (λ b bs. b ∷ bs) (rw (h) refl) (hide-keys s s' i ks h)

  imported-read :
      (s : Source) (i : Import)
      → s.state ≡ read
      → imported follows from_base64 s i
        ≡ map (imported_key follows from_base64 s i) (keys_in follows from_base64 s)
  unfolding imported value_in
  imported-read s i e = rw (e, imported) refl

  hide-imported :
      (s s' : Source) (i : Import)
      → Alike i.object s s'
      → map hide (imported follows from_base64 s i) ≡ map hide (imported follows from_base64 s' i)
  unfolding imported
  hide-imported s s' i (inl e) = ap (λ x. map hide (imported follows from_base64 x i)) e
  hide-imported s s' i (inr (secret, state, keys)) = elim (SourceState-cases s.state) [
    | inl e ↦
        ap (map hide) (imported-read s i e)
        ∙ hide-keys s s' i (keys_in follows from_base64 s) secret
        ∙ ap (λ ks. map hide (map (imported_key follows from_base64 s' i) ks)) keys
        ∙ sym (ap (map hide) (imported-read s' i (sym state ∙ e)))
    | inr (inl e) ↦ rw (e, sym state ∙ e, imported) refl
    | inr (inr e) ↦ rw (e, sym state ∙ e, imported) refl
  ]

  hide-resolve :
      (s s' : Source) (name : Text) (r : KeyRef)
      → Alike r.object s s'
      → hide (resolve follows from_base64 s name r) ≡ hide (resolve follows from_base64 s' name r)
  unfolding resolve
  hide-resolve s s' name r (inl e) = ap (λ x. hide (resolve follows from_base64 x name r)) e
  hide-resolve s s' name r (inr (secret, state, keys)) =
      ground (arith, secret, state, ap (has_key r.key) keys)

  module _ (of of' : ObjectRef → Source) (alike : (o : ObjectRef) → Alike o (of o) (of' o)) where
    hide-all_imported :
        (is : List Import)
        → map hide (all_imported follows from_base64 of is)
          ≡ map hide (all_imported follows from_base64 of' is)
    unfolding all_imported
    hide-all_imported [] = refl
    hide-all_imported (i ∷ is) =
        map-append hide (imported follows from_base64 (of i.object) i)
          (all_imported follows from_base64 of is)
        ∙ ap₂ (λ xs ys. xs ++ ys) (hide-imported (of i.object) (of' i.object) i (alike i.object))
            (hide-all_imported is)
        ∙ sym (
            map-append hide (imported follows from_base64 (of' i.object) i)
              (all_imported follows from_base64 of' is))

    hide-declared :
        (v : Variable)
        → hide (declared follows from_base64 of v) ≡ hide (declared follows from_base64 of' v)
    unfolding declared
    hide-declared v = elim (Option-cases v.key_ref) [
      | inl e ↦ rw (e, declared) refl
      | inr (r, e) ↦
          rw (e, declared) (hide-resolve (of r.object) (of' r.object) v.name r (alike r.object))
    ]

    hide-all_declared :
        (vs : List Variable)
        → map hide (all_declared follows from_base64 of vs)
          ≡ map hide (all_declared follows from_base64 of' vs)
    unfolding all_declared
    hide-all_declared [] = refl
    hide-all_declared (v ∷ vs) = ap₂ (λ b bs. b ∷ bs) (hide-declared v) (hide-all_declared vs)

    hide-entries :
        (plan : ContainerEnvironment)
        → map hide_entry (entries follows from_base64 of plan)
          ≡ map hide_entry (entries follows from_base64 of' plan)
    unfolding entries
    hide-entries plan =
        let before =
          all_imported follows from_base64 of plan.imports
          ++ all_declared follows from_base64 of plan.variables in
        let after =
          all_imported follows from_base64 of' plan.imports
          ++ all_declared follows from_base64 of' plan.variables in
        let same : map hide before ≡ map hide after =
          map-append hide (all_imported follows from_base64 of plan.imports)
            (all_declared follows from_base64 of plan.variables)
          ∙ ap₂ (λ xs ys. xs ++ ys) (hide-all_imported plan.imports)
              (hide-all_declared plan.variables)
          ∙ sym (
              map-append hide (all_imported follows from_base64 of' plan.imports)
                (all_declared follows from_base64 of' plan.variables)) in
        numbered-hide plan.container 0 before
        ∙ ap (numbered plan.container 0) same
        ∙ sym (numbered-hide plan.container 0 after)

-- The values that secrets hold never show: where two clusters give the same for every object, but for
-- secrets that were read alike with the same keys, the two reports of a pod are the same, their
-- masked entries' values left out.
pub hide-report :
    (follows : Text → Text → Bool) (from_base64 : Text → Option Text) (of of' : ObjectRef → Source)
    (plans : List ContainerEnvironment)
    → ((o : ObjectRef) → Alike follows from_base64 o (of o) (of' o))
    → map hide_group (report follows from_base64 of plans)
      ≡ map hide_group (report follows from_base64 of' plans)
unfolding report
hide-report follows from_base64 of of' [] alike = refl
hide-report follows from_base64 of of' (plan ∷ plans) alike =
    ap₂
      (λ es gs. (record { container = plan.container; is_init = plan.is_init; entries = es }) ∷ gs)
      (hide-entries follows from_base64 of of' alike plan)
      (hide-report follows from_base64 of of' plans alike)
