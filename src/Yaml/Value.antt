-- ===== src/Yaml/Value.antt =====
-- frontend/src/application/services/resourceYaml/models/YamlValue.ts: values of a YAML document and
-- their equality. `S` is the type of numbers and booleans, `same` their `===`. An object is its own
-- fields in order. The test for one and the same object is left out: the two documents that are
-- compared are parsed apart and share none.
use kubiq.Base.{
  ℕ, suc, Bool, true, false, ◌&&◌, ◌||◌, Option, none, some, String, str_eq, ◌==◌, if◌then◌else◌,
  List, [], ◌∷◌,
}

mutual
  pub data Value (S : Type 0) : Type 0 where
    null : Value S
    text : String → Value S
    scalar : S → Value S
    array : Items S → Value S
    mapping : Fields S → Value S

  pub data Items (S : Type 0) : Type 0 where
    nil : Items S
    cons : Value S → Items S → Items S

  pub data Fields (S : Type 0) : Type 0 where
    end : Fields S
    field : String → Value S → Fields S → Fields S

-- The keys that every object finds in Object.prototype.
unfoldable pub is_inherited : String → Bool
is_inherited k =
    str_eq k "constructor"
    || str_eq k "__proto__"
    || str_eq k "toString"
    || str_eq k "toLocaleString"
    || str_eq k "valueOf"
    || str_eq k "hasOwnProperty"
    || str_eq k "isPrototypeOf"
    || str_eq k "propertyIsEnumerable"
    || str_eq k "__defineGetter__"
    || str_eq k "__defineSetter__"
    || str_eq k "__lookupGetter__"
    || str_eq k "__lookupSetter__"

module _ {S : Type 0} where
  -- `object[key]`, of its own fields.
  unfoldable pub get : String → Fields S → Option (Value S)
  get k end = none
  get k (field j v fs) = if str_eq j k then some v else get k fs

  abbrev pub is_some : Option (Value S) → Bool
  is_some none = false
  is_some (some v) = true

  pub has : String → Fields S → Bool
  unfolding get
  has k fs = is_some (get k fs)

  -- `Object.keys`
  unfoldable pub keys : Fields S → List String
  keys end = []
  keys (field k v fs) = k ∷ keys fs

  abbrev pub size : Fields S → ℕ
  size end = 0
  size (field k v fs) = suc (size fs)

  abbrev pub count : Items S → ℕ
  count nil = 0
  count (cons v xs) = suc (count xs)

  abbrev pub is_map : Value S → Bool
  is_map (mapping fs) = true
  is_map _ = false

  abbrev pub is_empty : Value S → Bool
  is_empty (mapping end) = true
  is_empty _ = false

  -- Whether a value equals what a key finds in Object.prototype: that is a function, which equals no
  -- value, and Object.prototype itself for "__proto__", which is a map without own keys.
  abbrev pub equals_inherited : String → Value S → Bool
  equals_inherited k v = is_inherited k && (str_eq k "__proto__" && is_empty v)

module _ {S : Type 0} (same : S → S → Bool) where
  unfoldable mutual
    unfolding get

    pub equal : Value S → Value S → Bool
    equal null null = true
    equal (text s) (text t) = str_eq s t
    equal (scalar a) (scalar b) = same a b
    equal (array xs) (array ys) = count xs == count ys && every_item xs ys
    equal (mapping fs) (mapping gs) = size fs == size gs && every_field fs gs
    equal _ _ = false

    pub every_item : Items S → Items S → Bool
    every_item nil ys = true
    every_item (cons x xs) nil = false
    every_item (cons x xs) (cons y ys) = equal x y && every_item xs ys

    pub every_field : Fields S → Fields S → Bool
    every_field end gs = true
    -- `key in right && equal(left[key], right[key])`, for every key.
    every_field (field k v fs) gs =
        elim (get k gs) [ none ↦ equals_inherited k v | some w ↦ equal v w ] && every_field fs gs

  -- `equal(current[key], edited[key])`, where a missing key is undefined or inherited.
  unfoldable pub equal_at : String → Option (Value S) → Option (Value S) → Bool
  unfolding equal
  equal_at k none none = true
  equal_at k (some v) (some w) = equal v w
  equal_at k (some v) none = equals_inherited k v
  equal_at k none (some w) = equals_inherited k w
