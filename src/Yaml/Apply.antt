-- ===== src/Yaml/Apply.antt =====
-- frontend/src/application/services/resourceYaml/models/YamlApplyPlanner.ts and the fields that
-- ResourceYamlService.ts patches: how an edited manifest is written back. `S` and `same` are those of
-- Yaml/Value. An attribute is its name and whether it is readonly.
-- `in` and the lookups of a key find what Object.prototype has, too, where an object has no such key of
-- its own. No attribute is named like such a key, and the order of the keys of a body does not matter.
pub mod Merge
pub mod Keys
pub mod Patch
use kubiq.Yaml.Value.{
  Value, null, text, mapping, Fields, end, field, get, has, keys, is_map, is_inherited, equal_at,
}
use kubiq.Base.{
  ◌≡◌, refl, Bool, true, false, ◌&&◌, ◌||◌, not, List, [], ◌∷◌, ◌++◌, map, Option, none, some,
  String, str_eq, if◌then◌else◌, length, ◌==◌,
}

pub data Mode : Type 0 where
  noop patch replace : Mode

pub record Plan : Type 0 where
  pub mode : Mode
  pub fields : List String
  pub unsupported : List String
  pub ignored : List String

-- `array.includes`, and `set.has`.
abbrev pub includes : String → List String → Bool
includes k [] = false
includes k (j ∷ ks) = str_eq j k || includes k ks

-- `[...new Set(texts)]`, where `seen` came before.
unfoldable pub unique : List String → List String → List String
unique seen [] = []
unique seen (k ∷ ks) =
    let rest = unique (k ∷ seen) ks in
    let same = unique seen ks in if includes k seen then same else k ∷ rest

unfoldable pub filter : (String → Bool) → List String → List String
filter p [] = []
filter p (k ∷ ks) = if p k then k ∷ filter p ks else filter p ks

abbrev pub Attributes : Type 0
Attributes = List (String × Bool)

unfoldable pub cluster_owned : Attributes → List String
cluster_owned [] = []
cluster_owned ((k, readonly) ∷ attrs) =
    if readonly then k ∷ cluster_owned attrs else cluster_owned attrs

-- Whether the entity declares an attribute.
unfoldable pub is_attribute : Attributes → String → Bool
is_attribute [] k = false
is_attribute ((j, readonly) ∷ attrs) k = str_eq j k || is_attribute attrs k

-- `attributes[field] !== undefined`, on an object of the attributes.
unfoldable pub is_declared : Attributes → String → Bool
unfolding is_attribute
is_declared attrs k = is_attribute attrs k || is_inherited k

unfoldable pub unknown : List String → Attributes → List String
unfolding filter is_declared
unknown fields attrs = filter (λ k. not (is_declared attrs k)) fields

module _ {S : Type 0} where
  abbrev pub some_foreign : Fields S → Bool
  some_foreign end = false
  some_foreign (field k v fs) = not (is_inherited k) || some_foreign fs

  -- `!(key in edited) || hasRemoval(v, edited[key])` for a key that `edited` does not have itself. What
  -- "__proto__" finds is Object.prototype, the other keys find functions.
  abbrev pub missing_removed : String → Value S → Bool
  missing_removed k (mapping fs) = not (is_inherited k) || (str_eq k "__proto__" && some_foreign fs)
  missing_removed k v = not (is_inherited k)

  unfoldable mutual
    unfolding get

    -- Whether `edited` lacks a key, at any depth of mappings.
    pub has_removal : Value S → Value S → Bool
    has_removal (mapping fs) (mapping gs) = some_removed fs gs
    has_removal _ _ = false

    pub some_removed : Fields S → Fields S → Bool
    some_removed end gs = false
    some_removed (field k v fs) gs =
        elim (get k gs) [ none ↦ missing_removed k v | some w ↦ has_removal v w ]
        || some_removed fs gs

  -- `droppedFields`, over the fields `fs` of `current`.
  unfoldable pub dropped_fields : Fields S → Fields S → List String → List String
  unfolding has_removal get
  dropped_fields end edited owned = []
  dropped_fields (field k v fs) edited owned =
      let rest = dropped_fields fs edited owned in
      if not (includes k owned)
        && elim (get k edited) [ none ↦ missing_removed k v | some w ↦ has_removal v w ]
      then k ∷ rest
      else rest

module _ {S : Type 0} (same : S → S → Bool) where
  unfoldable pub changed_fields : Fields S → Fields S → List String
  unfolding unique filter keys equal_at get
  changed_fields current edited =
      filter (λ k. not (equal_at same k (get k current) (get k edited)))
        (unique [] (keys current ++ keys edited))

  unfoldable pub plan : Fields S → Fields S → Attributes → (can_patch can_update : Bool) → Plan
  unfolding changed_fields cluster_owned dropped_fields unknown filter unique
  plan current edited attrs can_patch can_update =
      let owned = cluster_owned attrs in
      let changed = changed_fields current edited in
      let ignored = filter (λ k. includes k owned) changed in
      let fields = filter (λ k. not (includes k owned)) changed in
      let dropped = dropped_fields current edited owned in
      let replacing = can_update && (not (length dropped == 0) || not can_patch) in
      if length fields == 0
      then record { mode = noop; fields = []; unsupported = []; ignored = ignored }
      else if replacing
      then record {
        mode = replace;
        fields = [];
        unsupported = unknown (keys edited) attrs;
        ignored = ignored;
      }
      else record {
        mode = patch;
        fields = fields;
        unsupported = unique [] (unknown fields attrs ++ dropped);
        ignored = ignored;
      }

-- `apply` throws where a field is unsupported.
unfoldable pub is_expressible : Plan → Bool
is_expressible p = length p.unsupported == 0

module _ {S : Type 0} where
  -- ResourceYamlService.changes up to the metadata: the body of the patch for `plan.fields`. The entity
  -- drops a field that it does not declare and one that is readonly; a missing one is not written.
  unfoldable pub changes : List String → Fields S → Attributes → Fields S
  unfolding get is_attribute cluster_owned
  changes [] edited attrs = end
  changes (k ∷ ks) edited attrs =
      let rest = changes ks edited attrs in
      if is_attribute attrs k && not (includes k (cluster_owned attrs))
      then elim (get k edited) [ none ↦ rest | some v ↦ field k v rest ]
      else rest

  -- KubeManifest.resourceVersionOf
  abbrev pub text_or_empty : Option (Value S) → String
  text_or_empty (some (text s)) = s
  text_or_empty _ = ""

  pub resource_version : Fields S → String
  unfolding get
  resource_version current = elim (get "metadata" current) [
    | some (mapping m) ↦ text_or_empty (get "resourceVersion" m)
    | _ ↦ ""
  ]

  -- The whole body: metadata is there in any case.
  unfoldable pub body : List String → Fields S → Fields S → Attributes → Fields S
  unfolding changes resource_version
  body fields current edited attrs =
      let fs = changes fields edited attrs in
      if includes "metadata" fields
      then fs
      else field "metadata"
          (mapping (field "resourceVersion" (text (resource_version current)) end)) fs
