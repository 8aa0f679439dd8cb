-- ===== src/Pod/Environment/Found.antt =====
-- referencesOf of PodEnvironmentPlan.ts: it finds every object that a pod refers to.
use kubiq.Pod.Environment.{
  SourceKind, config_map, secret, ObjectRef, Import, KeyRef, Variable, ContainerEnvironment, lookup,
  put, values, key_of, found_add, found_imports, found_variables, found_in,
}
use kubiq.Pod.Environment.Report.{}
use kubiq.Base.{
  ◌≡◌, refl, sym, ap, ap₂, ◌∙◌, subst, inl, inr, ◌⊎◌, List, [], ◌∷◌, Option, none, some, Text,
  text_eq, text_eq_iff, arith, if◌then◌else◌, All, Bool-cases, Option-cases,
}

same_kind :
    (k k' : SourceKind) (n n' : Text)
    → key_of (record { source_kind = k; name = n })
      ≡ key_of (record { source_kind = k'; name = n' })
    → (k ≡ k') × (n ≡ n')
unfolding key_of
same_kind config_map config_map n n' h = (refl, cc)
same_kind config_map secret n n' h = absurd (ground (arith, h))
same_kind secret config_map n n' h = absurd (ground (arith, h))
same_kind secret secret n n' h = (refl, cc)

pub key_of-injective : (o o' : ObjectRef) → key_of o ≡ key_of o' → o ≡ o'
key_of-injective o o' h =
    let (kinds, names) = same_kind o.source_kind o'.source_kind o.name o'.name h in
    ap₂ (λ k n. record { source_kind = k; name = n }) kinds names

pub lookup-put :
    {A : Type 0} (j k : Text) (a : A) (m : List (Text × A))
    → lookup j (put k a m) ≡ (if text_eq k j then some a else lookup j m)
unfolding lookup put
lookup-put j k a [] = refl
lookup-put j k a ((i, b) ∷ m) =
    ground (arith, lookup-put j k a m, text_eq_iff i k, text_eq_iff i j, text_eq_iff k j)

-- Each object that a pod refers to.
abbrev pub OfKey : (ObjectRef → Type 0) → Option KeyRef → Type 0
OfKey P none = Unit
OfKey P (some r) = P r.object

abbrev pub Refers : (ObjectRef → Type 0) → ContainerEnvironment → Type 0
Refers P plan =
    All (λ (i : Import). P i.object) plan.imports
    × All (λ (v : Variable). OfKey P v.key_ref) plan.variables

abbrev pub Found : List (Text × ObjectRef) → ObjectRef → Type 0
Found m o = lookup (key_of o) m ≡ some o

pub found_add-Found : (o : ObjectRef) (m : List (Text × ObjectRef)) → Found (found_add o m) o
found_add-Found o m =
    lookup-put (key_of o) (key_of o) o m ∙ ground (arith, text_eq_iff (key_of o) (key_of o))

pub Found-found_add :
    (o p : ObjectRef) (m : List (Text × ObjectRef)) → Found m o → Found (found_add p m) o
Found-found_add o p m h = elim (Bool-cases (text_eq (key_of p) (key_of o))) [
  | inl e ↦
      lookup-put (key_of o) (key_of p) p m
      ∙ rw (e) (ap some (key_of-injective p o ((text_eq_iff (key_of p) (key_of o)).0 e)))
  | inr e ↦ lookup-put (key_of o) (key_of p) p m ∙ rw (e) h
]

pub Found-found_imports :
    (o : ObjectRef) (is : List Import) (m : List (Text × ObjectRef))
    → Found m o
    → Found (found_imports is m) o
unfolding found_imports
Found-found_imports o [] m h = h
Found-found_imports o (i ∷ is) m h =
    Found-found_imports o is (found_add i.object m) (Found-found_add o i.object m h)

abbrev add_key : Option KeyRef → List (Text × ObjectRef) → List (Text × ObjectRef)
add_key none m = m
add_key (some r) m = found_add r.object m

Found-add_key :
    (o : ObjectRef) (k : Option KeyRef) (m : List (Text × ObjectRef))
    → Found m o
    → Found (add_key k m) o
Found-add_key o none m h = h
Found-add_key o (some r) m h = Found-found_add o r.object m h

found_variables-add_key :
    (v : Variable) (vs : List Variable) (m : List (Text × ObjectRef))
    → found_variables (v ∷ vs) m ≡ found_variables vs (add_key v.key_ref m)
unfolding found_variables
found_variables-add_key v vs m = elim (Option-cases v.key_ref) [
  | inl e ↦ rw (e, found_variables) refl
  | inr (r, e) ↦ rw (e, found_variables) refl
]

pub Found-found_variables :
    (o : ObjectRef) (vs : List Variable) (m : List (Text × ObjectRef))
    → Found m o
    → Found (found_variables vs m) o
unfolding found_variables
Found-found_variables o [] m h = h
Found-found_variables o (v ∷ vs) m h =
    subst (λ x. Found x o) (sym (found_variables-add_key v vs m))
      (Found-found_variables o vs (add_key v.key_ref m) (Found-add_key o v.key_ref m h))

pub Found-found_in :
    (o : ObjectRef) (plans : List ContainerEnvironment) (m : List (Text × ObjectRef))
    → Found m o
    → Found (found_in plans m) o
unfolding found_in
Found-found_in o [] m h = h
Found-found_in o (plan ∷ plans) m h =
    Found-found_in o plans (found_variables plan.variables (found_imports plan.imports m)) (
      Found-found_variables o plan.variables (found_imports plan.imports m)
        (Found-found_imports o plan.imports m h))

All-map {ℓ κ μ} :
    {A : Type ℓ} {P : A → Type κ} {Q : A → Type μ} (f : (a : A) → P a → Q a) (xs : List A)
    → All P xs
    → All Q xs
All-map f [] h = tt
All-map f (x ∷ xs) h = (f x h.0, All-map f xs h.1)

OfKey-map :
    {P Q : ObjectRef → Type 0} (f : (o : ObjectRef) → P o → Q o) (k : Option KeyRef)
    → OfKey P k
    → OfKey Q k
OfKey-map f none h = tt
OfKey-map f (some r) h = f r.object h

pub Refers-map :
    {P Q : ObjectRef → Type 0} (f : (o : ObjectRef) → P o → Q o) (plan : ContainerEnvironment)
    → Refers P plan
    → Refers Q plan
Refers-map f plan h = (
  All-map (λ (i : Import). f i.object) plan.imports h.0,
  All-map (λ (v : Variable). OfKey-map f v.key_ref) plan.variables h.1,
)

found_imports-All :
    (is : List Import) (m : List (Text × ObjectRef))
    → All (λ (i : Import). Found (found_imports is m) i.object) is
unfolding found_imports
found_imports-All [] m = tt
found_imports-All (i ∷ is) m = (
  Found-found_imports i.object is (found_add i.object m) (found_add-Found i.object m),
  found_imports-All is (found_add i.object m),
)

add_key-OfKey :
    (k : Option KeyRef) (vs : List Variable) (m : List (Text × ObjectRef))
    → OfKey (Found (found_variables vs (add_key k m))) k
add_key-OfKey none vs m = tt
add_key-OfKey (some r) vs m =
    Found-found_variables r.object vs (found_add r.object m) (found_add-Found r.object m)

found_variables-All :
    (vs : List Variable) (m : List (Text × ObjectRef))
    → All (λ (v : Variable). OfKey (Found (found_variables vs m)) v.key_ref) vs
unfolding found_variables
found_variables-All [] m = tt
found_variables-All (v ∷ vs) m =
    subst (λ x. All (λ (w : Variable). OfKey (Found x) w.key_ref) (v ∷ vs))
      (sym (found_variables-add_key v vs m))
      (add_key-OfKey v.key_ref vs m, found_variables-All vs (add_key v.key_ref m))

pub found_in-All :
    (plans : List ContainerEnvironment) (m : List (Text × ObjectRef))
    → All (Refers (Found (found_in plans m))) plans
unfolding found_in
found_in-All [] m = tt
found_in-All (plan ∷ plans) m =
    let imported = found_imports plan.imports m in
    let both = found_variables plan.variables imported in
    (
      Refers-map (λ o h. Found-found_in o plans both h) plan
          (
            All-map (λ (i : Import) h. Found-found_variables i.object plan.variables imported h)
                plan.imports (found_imports-All plan.imports m),
            found_variables-All plan.variables imported,
          ),
      found_in-All plans both,
    )

pub All-Refers-map :
    {P Q : ObjectRef → Type 0} (f : (o : ObjectRef) → P o → Q o) (plans : List ContainerEnvironment)
    → All (Refers P) plans
    → All (Refers Q) plans
All-Refers-map f plans h = All-map (Refers-map f) plans h

abbrev pub In : ObjectRef → List ObjectRef → Type 0
In o [] = ⊥
In o (p ∷ ps) = (p ≡ o) ⊎ In o ps

pub values-In :
    (k : Text) (o : ObjectRef) (m : List (Text × ObjectRef)) → lookup k m ≡ some o → In o (values m)
unfolding lookup values
values-In k o [] h = cc
values-In k o ((j, p) ∷ m) h = elim (Bool-cases (text_eq j k)) [
  | inl e ↦ inl (ground (arith, h, e))
  | inr e ↦ inr (values-In k o m (ground (arith, h, e)))
]
