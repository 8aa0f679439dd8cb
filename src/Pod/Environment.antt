-- ===== src/Pod/Environment.antt =====
-- frontend/src/domain/entities/workloads/PodEnvironmentPlan.ts: what the environment of a pod's
-- containers refers to. A field of the manifest that is absent, or that is not of its type, is
-- `none`. The plan begins at the pod's spec, which PodSpecReader finds in the object.
pub mod Report
pub mod Service
pub mod Copy
pub mod Found
pub mod Answers
pub mod Masks
mod Tests
use kubiq.Base.{
  Bool, true, false, List, [], ◌∷◌, ◌++◌, Option, none, some, Text, codes, text_eq, if◌then◌else◌,
}
use kubiq.Resource.Filter.{is_empty}

pub data SourceKind : Type 0 where
  config_map secret : SourceKind

pub record ObjectRef : Type 0 where
  pub source_kind : SourceKind
  pub name : Text

pub record Import : Type 0 where
  pub prefix : Text
  pub object : ObjectRef
  pub optional : Bool

pub record KeyRef : Type 0 where
  pub object : ObjectRef
  pub key : Text
  pub optional : Bool

pub data Origin : Type 0 where
  literal reference field resource_field : Origin

pub record Variable : Type 0 where
  pub name : Text
  pub origin : Origin
  pub value : Text
  pub container : Text
  pub key_ref : Option KeyRef

pub record ContainerEnvironment : Type 0 where
  pub container : Text
  pub is_init : Bool
  pub imports : List Import
  pub variables : List Variable

-- What the manifest says.
pub record SourceRef : Type 0 where
  pub name : Option Text
  pub optional : Option Bool

pub record EnvFromSource : Type 0 where
  pub prefix : Option Text
  pub config_map_ref : Option SourceRef
  pub secret_ref : Option SourceRef

pub record EnvKeyRef : Type 0 where
  pub name : Option Text
  pub key : Option Text
  pub optional : Option Bool

pub record ResourceFieldRef : Type 0 where
  pub container_name : Option Text
  pub resource : Option Text

pub record EnvVarSource : Type 0 where
  pub config_map_key_ref : Option EnvKeyRef
  pub secret_key_ref : Option EnvKeyRef
  -- The field's path, where there is a reference to a field.
  pub field_ref : Option (Option Text)
  pub resource_field_ref : Option ResourceFieldRef

pub record EnvVar : Type 0 where
  pub name : Option Text
  pub value : Option Text
  pub value_from : Option EnvVarSource

pub record Container : Type 0 where
  pub name : Option Text
  pub env_from : Option (List EnvFromSource)
  pub env : Option (List EnvVar)

abbrev pub text : Option Text → Text
text none = []
text (some t) = t

abbrev pub is_true : Option Bool → Bool
is_true none = false
is_true (some b) = b

abbrev or_none : {A : Type 0} → Option (List A) → List A
or_none none = []
or_none (some xs) = xs

abbrev pub object_ref : SourceKind → Option Text → Option ObjectRef
object_ref kind name =
    let t = text name in if is_empty t then none else some (record { source_kind = kind; name = t })

-- `from?.configMapKeyRef` and its siblings.
abbrev pub of_source : {A : Type 0} → (EnvVarSource → Option A) → Option EnvVarSource → Option A
of_source f none = none
of_source f (some s) = f s

abbrev pub name_of : Option SourceRef → Option Text
name_of none = none
name_of (some r) = r.name

abbrev pub optional_of : Option SourceRef → Bool
optional_of none = false
optional_of (some r) = is_true r.optional

abbrev pub key_ref_from : SourceKind → Option EnvKeyRef → Option KeyRef
key_ref_from kind none = none
key_ref_from kind (some r) = elim (object_ref kind r.name) [
  | none ↦ none
  | some o ↦ some (record { object = o; key = text r.key; optional = is_true r.optional })
]

abbrev first_of : {A : Type 0} → Option A → Option A → Option A
first_of (some a) o = some a
first_of none o = o

abbrev plain : Text → Origin → Text → Text → Variable
plain name origin value container = record {
  name = name;
  origin = origin;
  value = value;
  container = container;
  key_ref = none;
}

unfoldable pub describe : Text → EnvVar → Variable
describe name entry =
    let from = entry.value_from in
    let ref =
      first_of
        (key_ref_from config_map (of_source (λ (s : EnvVarSource). s.config_map_key_ref) from))
        (key_ref_from secret (of_source (λ (s : EnvVarSource). s.secret_key_ref) from)) in
    elim ref [
      | some r ↦ record (plain name reference [] []) { key_ref = some r }
      | none ↦ elim (of_source (λ (s : EnvVarSource). s.field_ref) from) [
        | some path ↦ plain name field (text path) []
        | none ↦ elim (of_source (λ (s : EnvVarSource). s.resource_field_ref) from) [
          | some r ↦ plain name resource_field (text r.resource) (text r.container_name)
          | none ↦ plain name literal (text entry.value) []
        ]
      ]
    ]

abbrev import_of : EnvFromSource → ObjectRef → Bool → Import
import_of source object optional = record {
  prefix = text source.prefix;
  object = object;
  optional = optional;
}

unfoldable pub imports_of : List EnvFromSource → List Import
imports_of [] = []
imports_of (source ∷ sources) =
    let rest = imports_of sources in
    elim (object_ref config_map (name_of source.config_map_ref)) [
      | some o ↦ import_of source o (optional_of source.config_map_ref) ∷ rest
      | none ↦ elim (object_ref secret (name_of source.secret_ref)) [
        | some o ↦ import_of source o (optional_of source.secret_ref) ∷ rest
        | none ↦ rest
      ]
    ]

unfoldable pub variables_of : List EnvVar → List Variable
unfolding describe
variables_of [] = []
variables_of (entry ∷ entries) =
    let rest = variables_of entries in
    let name = text entry.name in if is_empty name then rest else describe name entry ∷ rest

unfoldable pub group : List Container → Bool → List ContainerEnvironment
unfolding imports_of variables_of
group [] is_init = []
group (c ∷ cs) is_init =
    let rest = group cs is_init in
    let name = text c.name in
    let one : ContainerEnvironment = record {
      container = name;
      is_init = is_init;
      imports = imports_of (or_none c.env_from);
      variables = variables_of (or_none c.env);
    } in
    if is_empty name then rest else one ∷ rest

unfoldable pub of : Option (List Container) → Option (List Container) → List ContainerEnvironment
unfolding group
of init_containers containers =
    group (or_none init_containers) true ++ group (or_none containers) false

-- A map with text keys, in insertion order.
unfoldable pub lookup : {A : Type 0} → Text → List (Text × A) → Option A
lookup k [] = none
lookup k ((j, a) ∷ m) = let rest = lookup k m in if text_eq j k then some a else rest

unfoldable pub put : {A : Type 0} → Text → A → List (Text × A) → List (Text × A)
put k a [] = (k, a) ∷ []
put k a ((j, b) ∷ m) = let rest = put k a m in if text_eq j k then (k, a) ∷ m else (j, b) ∷ rest

unfoldable pub values : {A : Type 0} → List (Text × A) → List A
values [] = []
values ((k, a) ∷ m) = a ∷ values m

abbrev pub kind_text : SourceKind → Text
kind_text config_map = codes "configMap"
kind_text secret = codes "secret"

unfoldable pub key_of : ObjectRef → Text
key_of o = kind_text o.source_kind ++ codes "/" ++ o.name

abbrev pub found_add : ObjectRef → List (Text × ObjectRef) → List (Text × ObjectRef)
found_add o found = put (key_of o) o found

-- The loops of `referencesOf`, with their map.
unfoldable pub found_imports : List Import → List (Text × ObjectRef) → List (Text × ObjectRef)
found_imports [] found = found
found_imports (i ∷ is) found = found_imports is (found_add i.object found)

unfoldable pub found_variables : List Variable → List (Text × ObjectRef) → List (Text × ObjectRef)
found_variables [] found = found
found_variables (v ∷ vs) found =
    found_variables vs (elim v.key_ref [ some r ↦ found_add r.object found | none ↦ found ])

unfoldable pub found_in :
    List ContainerEnvironment → List (Text × ObjectRef) → List (Text × ObjectRef)
unfolding found_imports found_variables
found_in [] found = found
found_in (plan ∷ plans) found =
    found_in plans (found_variables plan.variables (found_imports plan.imports found))

unfoldable pub references_of : List ContainerEnvironment → List ObjectRef
unfolding found_in values
references_of plans = values (found_in plans [])
