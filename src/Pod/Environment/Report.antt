-- ===== src/Pod/Environment/Report.antt =====
-- frontend/src/application/services/podEnvironment: PodEnvironmentReport.ts and
-- PodEnvironmentSources.ts, with the readers of domain/entities/config/KubeDataMapReader.ts.
-- `follows` says that `localeCompare` is positive, and `from_base64` decodes or fails.
use kubiq.Base.{
  ℕ, ◌+◌, Bool, true, false, ◌||◌, List, [], ◌∷◌, ◌++◌, Option, none, some, Text, codes, text_eq,
  digits, if◌then◌else◌, map,
}
use kubiq.Resource.Filter.{is_empty}
use kubiq.Pod.Environment.{
  SourceKind, config_map, secret, ObjectRef, Import, KeyRef, field, resource_field, Variable,
  ContainerEnvironment, lookup, put, key_of,
}

pub data SourceState : Type 0 where
  read missing forbidden : SourceState

-- The data is the object's own, in its order.
pub record Source : Type 0 where
  pub state : SourceState
  pub content : List (Text × Text)
  pub encoded : Bool

pub data EntryState : Type 0 where
  as_literal resolved path unresolved refused : EntryState

-- An entry before it has an id.
pub record Built : Type 0 where
  pub variable : Text
  pub value : Text
  pub provenance : Text
  pub masked : Bool
  pub state : EntryState

pub record Entry : Type 0 where
  pub id : Text
  pub built : Built

pub record Group : Type 0 where
  pub container : Text
  pub is_init : Bool
  pub entries : List Entry

abbrev pub absent : SourceState → Source
absent state = record { state = state; content = []; encoded = false }

-- `PodEnvironmentSources`
abbrev pub Sources : Type 0
Sources = List (Text × Source)

unfoldable pub remember : ObjectRef → Source → Sources → Sources
remember o s known = put (key_of o) s known

-- `?? { state: 'missing' }`
abbrev pub or_missing : Option Source → Source
or_missing none = absent missing
or_missing (some s) = s

unfoldable pub source_of : Sources → ObjectRef → Source
source_of known o = or_missing (lookup (key_of o) known)

abbrev pub is_secret : ObjectRef → Bool
is_secret o = elim o.source_kind [ secret ↦ true | config_map ↦ false ]

abbrev resource_of : SourceKind → Text
resource_of secret = codes "secret"
resource_of config_map = codes "configmap"

unfoldable pub describe_object : ObjectRef → Text → Text
describe_object o key =
    let named = resource_of o.source_kind ++ codes "/" ++ o.name in
    if is_empty key then named else named ++ codes " · key: " ++ key

abbrev pub or_blank : Option Text → Text
or_blank none = []
or_blank (some t) = t

unfoldable pub insert_key : (Text → Text → Bool) → Text → List Text → List Text
insert_key follows k [] = k ∷ []
insert_key follows k (j ∷ ks) =
    let rest = insert_key follows k ks in if follows k j then j ∷ rest else k ∷ j ∷ ks

unfoldable pub sorted_keys : (Text → Text → Bool) → List (Text × Text) → List Text
unfolding insert_key
sorted_keys follows [] = []
sorted_keys follows ((k, v) ∷ content) = insert_key follows k (sorted_keys follows content)

unfoldable pub has_key : Text → List Text → Bool
has_key key [] = false
has_key key (k ∷ ks) = text_eq k key || has_key key ks

unfoldable pub decode : (Text → Option Text) → List (Text × Text) → Text → Text
unfolding lookup
decode from_base64 content key =
    let encoded = or_blank (lookup key content) in
    if is_empty encoded then [] else or_blank (from_base64 encoded)

unfoldable pub numbered : Text → ℕ → List Built → List Entry
numbered container index [] = []
numbered container index (b ∷ bs) =
    (record {
      id = container ++ codes "/" ++ digits index index ++ codes "/" ++ b.variable;
      built = b;
    })
    ∷ numbered container (index + 1) bs

module _ (follows : Text → Text → Bool) (from_base64 : Text → Option Text) where
  -- `keysOf` and `valueOf`, of the source that `of` gave.
  abbrev pub keys_in : Source → List Text
  keys_in s = sorted_keys follows s.content

  unfoldable pub value_in : Source → Text → Text
  unfolding decode
  value_in s key =
      if s.encoded then decode from_base64 s.content key else or_blank (lookup key s.content)

  abbrev pub imported_key : Source → Import → Text → Built
  imported_key s i key = record {
    variable = i.prefix ++ key;
    value = value_in s key;
    provenance = describe_object i.object key;
    masked = is_secret i.object;
    state = resolved;
  }

  abbrev pub not_imported : Import → EntryState → Built
  not_imported i state = record {
    variable = [];
    value = [];
    provenance = describe_object i.object [];
    masked = false;
    state = state;
  }

  unfoldable pub imported : Source → Import → List Built
  imported s i = elim s.state [
    | read ↦ map (imported_key s i) (keys_in s)
    | forbidden ↦ not_imported i refused ∷ []
    | missing ↦ not_imported i unresolved ∷ []
  ]

  abbrev pub built_of : Text → Text → Text → EntryState → Built
  built_of name value provenance state = record {
    variable = name;
    value = value;
    provenance = provenance;
    masked = false;
    state = state;
  }

  -- `resolved`
  unfoldable pub resolve : Source → Text → KeyRef → Built
  resolve s name r =
      let provenance = describe_object r.object r.key in
      elim s.state [
        | forbidden ↦ built_of name [] provenance refused
        | missing ↦ built_of name [] provenance unresolved
        | read ↦
            if has_key r.key (keys_in s)
            then record (built_of name (value_in s r.key) provenance resolved) {
              masked = is_secret r.object;
            }
            else built_of name [] provenance unresolved
      ]

  unfoldable pub undeclared : Variable → Built
  undeclared v = elim v.origin [
    | field ↦ built_of v.name v.value (codes "fieldRef") path
    | resource_field ↦
        built_of v.name v.value
          (if is_empty v.container
            then codes "resourceFieldRef"
            else codes "resourceFieldRef · " ++ v.container)
          path
    | _ ↦ built_of v.name v.value [] as_literal
  ]

  module _ (of : ObjectRef → Source) where
    unfoldable pub declared : Variable → Built
    unfolding undeclared
    declared v = elim v.key_ref [ some r ↦ resolve (of r.object) v.name r | none ↦ undeclared v ]

    unfoldable pub all_imported : List Import → List Built
    all_imported [] = []
    all_imported (i ∷ is) = imported (of i.object) i ++ all_imported is

    unfoldable pub all_declared : List Variable → List Built
    all_declared [] = []
    all_declared (v ∷ vs) = declared v ∷ all_declared vs

    unfoldable pub entries : ContainerEnvironment → List Entry
    unfolding numbered
    entries plan =
        numbered plan.container 0 (all_imported plan.imports ++ all_declared plan.variables)

    unfoldable pub report : List ContainerEnvironment → List Group
    report [] = []
    report (plan ∷ plans) =
        (record { container = plan.container; is_init = plan.is_init; entries = entries plan })
        ∷ report plans
