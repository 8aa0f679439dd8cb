-- ===== src/Pod/Environment/Answers.antt =====
-- describe of PodEnvironmentService.ts: every object that a report shows has been asked for, once.
use kubiq.Pod.Environment.{
  SourceKind, ObjectRef, Import, KeyRef, Variable, ContainerEnvironment, lookup, key_of, found_in,
  references_of,
}
use kubiq.Pod.Environment.Report.{
  Source, Sources, or_missing, Group, imported, declared, resolve, all_imported, all_declared,
  numbered, entries, report, remember, source_of,
}
use kubiq.Pod.Environment.Service.{Reading, read_object, remember_all, describe_pod}
use kubiq.Base.{
  ◌≡◌, refl, sym, ap, ap₂, ◌∙◌, subst, inl, inr, Bool, true, false, List, [], ◌∷◌, ◌++◌, Option,
  none, some, Text, text_eq, text_eq_iff, arith, if◌then◌else◌, All, Bool-cases, Option-cases,
}
use kubiq.Pod.Environment.Found.{
  key_of-injective, lookup-put, Refers, OfKey, found_in-All, All-Refers-map, In, values-In,
}

or_missing_if :
    (b : Bool) (s : Source) (o : Option Source)
    → or_missing (if b then some s else o) ≡ (if b then s else or_missing o)
or_missing_if true s o = refl
or_missing_if false s o = refl

module _ (served : SourceKind → Bool) (ask : ObjectRef → Reading) where
  -- What is remembered of an object is what it was read as.
  abbrev Told : Sources → ObjectRef → Type 0
  Told known o = read_object served ask o ≡ some (source_of known o)

  source_of-remember :
      (known : Sources) (o p : ObjectRef) (s : Source)
      → source_of (remember p s known) o
        ≡ (if text_eq (key_of p) (key_of o) then s else source_of known o)
  unfolding source_of remember
  source_of-remember known o p s =
      ap or_missing (lookup-put (key_of o) (key_of p) s known)
      ∙ or_missing_if (text_eq (key_of p) (key_of o)) s (lookup (key_of o) known)

  Told-here :
      (known : Sources) (o : ObjectRef) (s : Source)
      → read_object served ask o ≡ some s
      → Told (remember o s known) o
  Told-here known o s h =
      h
      ∙ ap some
          (sym (source_of-remember known o o s ∙ ground (arith, text_eq_iff (key_of o) (key_of o))))

  Told-remember :
      (known : Sources) (o p : ObjectRef) (s : Source)
      → read_object served ask p ≡ some s
      → Told known o
      → Told (remember p s known) o
  Told-remember known o p s r h = elim (Bool-cases (text_eq (key_of p) (key_of o))) [
    | inl e ↦
        subst (λ x. Told (remember p s known) x)
          (key_of-injective p o ((text_eq_iff (key_of p) (key_of o)).0 e)) (Told-here known p s r)
    | inr e ↦ h ∙ ap some (sym (source_of-remember known o p s ∙ rw (e) refl))
  ]

  remember_all-some :
      (o : ObjectRef) (os : List ObjectRef) (known after : Sources)
      → remember_all served ask (o ∷ os) known ≡ some after
      → (s : Source) × (read_object served ask o ≡ some s)
        × (remember_all served ask os (remember o s known) ≡ some after)
  unfolding remember_all
  remember_all-some o os known after h = elim (Option-cases (read_object served ask o)) [
    | inl e ↦ absurd (ground (arith, e, h))
    | inr (s, e) ↦ (s, e, ground (arith, e, h))
  ]

  remember_all-keeps :
      (o : ObjectRef) (os : List ObjectRef) (known after : Sources)
      → remember_all served ask os known ≡ some after
      → Told known o
      → Told after o
  unfolding remember_all
  remember_all-keeps o [] known after h t = subst (λ x. Told x o) (ground (arith, h)) t
  remember_all-keeps o (p ∷ os) known after h t =
      let (s, r, later) = remember_all-some p os known after h in
      remember_all-keeps o os (remember p s known) after later (Told-remember known o p s r t)

  remember_all-Told :
      (o : ObjectRef) (os : List ObjectRef) (known after : Sources)
      → remember_all served ask os known ≡ some after
      → In o os
      → Told after o
  remember_all-Told o [] known after h i = elim i [ ]
  remember_all-Told o (p ∷ os) known after h (inl e) =
      let (s, r, later) = remember_all-some p os known after h in
      subst (λ x. Told after x) e
        (remember_all-keeps p os (remember p s known) after later (Told-here known p s r))
  remember_all-Told o (p ∷ os) known after h (inr i) =
      let (s, r, later) = remember_all-some p os known after h in
      remember_all-Told o os (remember p s known) after later i

  -- What the cluster says of an object.
  abbrev pub answer : ObjectRef → Source
  answer o = or_missing (read_object served ask o)

  answered :
      (plans : List ContainerEnvironment) (known : Sources)
      → remember_all served ask (references_of plans) [] ≡ some known
      → All (Refers (Told known)) plans
  unfolding references_of
  answered plans known h =
      All-Refers-map
        (λ o f.
          remember_all-Told o (references_of plans) [] known h
            (values-In (key_of o) o (found_in plans []) f))
        plans (found_in-All plans [])

module _ (follows : Text → Text → Bool) (from_base64 : Text → Option Text)
    (of of' : ObjectRef → Source) where
  abbrev Same : ObjectRef → Type 0
  Same o = of o ≡ of' o

  all_imported-Same :
      (is : List Import)
      → All (λ (i : Import). Same i.object) is
      → all_imported follows from_base64 of is ≡ all_imported follows from_base64 of' is
  unfolding all_imported
  all_imported-Same [] h = refl
  all_imported-Same (i ∷ is) h =
      ap₂ (λ s bs. imported follows from_base64 s i ++ bs) h.0 (all_imported-Same is h.1)

  key_ref-Same :
      (v : Variable) (k : Option KeyRef)
      → v.key_ref ≡ k
      → OfKey Same k
      → declared follows from_base64 of v ≡ declared follows from_base64 of' v
  unfolding declared
  key_ref-Same v none e h = rw (e, declared) refl
  key_ref-Same v (some r) e h =
      rw (e, declared) (ap (λ s. resolve follows from_base64 s v.name r) h)

  all_declared-Same :
      (vs : List Variable)
      → All (λ (v : Variable). OfKey Same v.key_ref) vs
      → all_declared follows from_base64 of vs ≡ all_declared follows from_base64 of' vs
  unfolding all_declared
  all_declared-Same [] h = refl
  all_declared-Same (v ∷ vs) h =
      ap₂ (λ b bs. b ∷ bs) (key_ref-Same v v.key_ref refl h.0) (all_declared-Same vs h.1)

  report-Same :
      (plans : List ContainerEnvironment)
      → All (Refers Same) plans
      → report follows from_base64 of plans ≡ report follows from_base64 of' plans
  unfolding report entries
  report-Same [] h = refl
  report-Same (plan ∷ plans) h =
      ap₂
        (λ bs gs.
          (record {
            container = plan.container;
            is_init = plan.is_init;
            entries = numbered plan.container 0 bs;
          })
          ∷ gs)
        (ap₂ (λ bs cs. bs ++ cs) (all_imported-Same plan.imports h.0.0)
          (all_declared-Same plan.variables h.0.1))
        (report-Same plans h.1)

-- Where the environment of a pod is described, every object that it refers to was answered, and the
-- report shows of each what the cluster answered for that object, whichever of the places that
-- name it led to the question.
pub describe_pod-answer :
    (served : SourceKind → Bool) (ask : ObjectRef → Reading) (follows : Text → Text → Bool)
    (from_base64 : Text → Option Text) (plans : List ContainerEnvironment) (groups : List Group)
    → describe_pod served ask follows from_base64 plans ≡ some groups
    → (groups ≡ report follows from_base64 (answer served ask) plans)
      × (All (Refers (λ o. read_object served ask o ≡ some (answer served ask o))) plans)
unfolding describe_pod
describe_pod-answer served ask follows from_base64 plans groups h =
    elim (Option-cases (remember_all served ask (references_of plans) [])) [
      | inl e ↦ absurd (ground (arith, e, h))
      | inr (known, e) ↦
          let told = answered served ask plans known e in
          let built : report follows from_base64 (source_of known) plans ≡ groups =
            ground (arith, e, h) in
          (
            sym built
                ∙ report-Same follows from_base64 (source_of known) (answer served ask) plans
                    (All-Refers-map (λ o t. sym (ap or_missing t)) plans told),
            All-Refers-map (λ o t. t ∙ ap some (sym (ap or_missing t))) plans told,
          )
    ]
