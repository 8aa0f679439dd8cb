-- ===== src/Yaml/Apply/Patch/Tests.antt =====
-- A manifest that is patched, with the merge of RFC 7386.
use kubiq.Yaml.Value.{
  Value, null, text, scalar, array, mapping, Fields, end, field, get, is_map, is_inherited,
}
use kubiq.Yaml.Apply.{plan, Attributes, patch, replace}
use kubiq.Yaml.Apply.Merge.{MergePatch, merged, fields_of, Unique}
use kubiq.Base.{
  ◌≡◌, refl, ap, ◌∙◌, inl, inr, Bool, true, false, Option, none, some, String, str_eq, str_eq_iff,
  if◌then◌else◌, arith, Bool-cases, [], ◌∷◌,
}

module _ {S : Type 0} where
  put : String → Value S → Fields S → Fields S
  put k v end = field k v end
  put k v (field j w fs) = if str_eq j k then field k v fs else field j w (put k v fs)

  remove : String → Fields S → Fields S
  remove k end = end
  remove k (field j w fs) = if str_eq j k then remove k fs else field j w (remove k fs)

  write : String → Option (Value S) → Fields S → Fields S
  unfolding put remove
  write k none fs = remove k fs
  write k (some v) fs = put k v fs

  get-write :
      (k j : String) (o : Option (Value S)) (fs : Fields S)
      → get j (write k o fs) ≡ (if str_eq k j then o else get j fs)
  unfolding write get put remove
  get-write k j none end = ground arith
  get-write k j none (field i w fs) =
      ground (arith, get-write k j none fs, str_eq_iff k j, str_eq_iff i k, str_eq_iff i j)
  get-write k j (some v) end = ground arith
  get-write k j (some v) (field i w fs) =
      ground (arith, get-write k j (some v) fs, str_eq_iff k j, str_eq_iff i k, str_eq_iff i j)

  mutual
    unfolding write

    merge : Option (Value S) → Value S → Value S
    merge t (mapping p) = mapping (merge_fields (fields_of t) p)
    merge t null = null
    merge t (text s) = text s
    merge t (scalar a) = scalar a
    merge t (array xs) = array xs

    merge_fields : Fields S → Fields S → Fields S
    merge_fields fs end = fs
    merge_fields fs (field k null p) = write k none (merge_fields fs p)
    merge_fields fs (field k (text s) p) = write k (some (text s)) (merge_fields fs p)
    merge_fields fs (field k (scalar a) p) = write k (some (scalar a)) (merge_fields fs p)
    merge_fields fs (field k (array xs) p) = write k (some (array xs)) (merge_fields fs p)
    merge_fields fs (field k (mapping q) p) =
        write k (some (mapping (merge_fields (fields_of (get k fs)) q))) (merge_fields fs p)

  merge_leaf : (t : Option (Value S)) (v : Value S) → is_map v ≡ false → merge t v ≡ v
  unfolding merge
  merge_leaf t null h = refl
  merge_leaf t (text s) h = refl
  merge_leaf t (scalar a) h = refl
  merge_leaf t (array xs) h = refl
  merge_leaf t (mapping p) h = cc

  merge_fields_step :
      (fs : Fields S) (k : String) (v : Value S) (p : Fields S)
      → merge_fields fs (field k v p)
        ≡ write k (merged merge (get k fs) (some v)) (merge_fields fs p)
  unfolding merge
  merge_fields_step fs k null p = refl
  merge_fields_step fs k (text s) p = refl
  merge_fields_step fs k (scalar a) p = refl
  merge_fields_step fs k (array xs) p = refl
  merge_fields_step fs k (mapping q) p = refl

  get-merge_fields :
      (fs p : Fields S) (j : String)
      → Unique p
      → get j (merge_fields fs p) ≡ merged merge (get j fs) (get j p)
  unfolding merge get
  get-merge_fields fs end j u = refl
  get-merge_fields fs (field k v p) j u =
      ap (get j) (merge_fields_step fs k v p)
      ∙ get-write k j (merged merge (get k fs) (some v)) (merge_fields fs p)
      ∙ elim (Bool-cases (str_eq k j)) [
        | inl hit ↦ rw hit (ap (λ i. merged merge (get i fs) (some v)) ((str_eq_iff k j).0 hit))
        | inr miss ↦ rw miss (get-merge_fields fs p j u.1)
      ]

merge_mapping :
    {S : Type 0} (t : Option (Value S)) (p : Fields S)
    → merge t (mapping p) ≡ mapping (merge_fields (fields_of t) p)
unfolding merge
merge_mapping t p = refl

abbrev rfc_7386 : {S : Type 0} → MergePatch S
rfc_7386 = record {
  merge = merge;
  merge_leaf = merge_leaf;
  merge_map = λ t p u.
      (merge_fields (fields_of t) p, merge_mapping t p, λ k. get-merge_fields (fields_of t) p k u);
}

abbrev same_bool : Bool → Bool → Bool
same_bool true true = true
same_bool false false = true
same_bool _ _ = false

abbrev object : String → Fields Bool
object colour = field "kind" (text "Pod") (
    field "spec" (mapping (field "colour" (text colour) (field "hosted" (scalar true) end)))
      (field "status" (text "Running") end))

abbrev attributes : Attributes
attributes = ("kind", false) ∷ ("spec", false) ∷ ("status", true) ∷ []

repainted :
    (plan same_bool (object "red") (object "blue") attributes true true).fields ≡ "spec" ∷ []
unfolding plan
repainted = refl

-- A removed key of a mapping is written by a replace.
unhosted :
    (plan same_bool
      (object "red")
      (field "spec" (mapping (field "colour" (text "red") end)) end)
      attributes
      true
      true).mode
    ≡ replace
unfolding plan is_inherited
unhosted = refl

-- A key that every object inherits is not missed: its removal stays a patch, which says nothing of it.
inherited_removal :
    (plan same_bool
      (field "spec"
        (mapping (field "constructor" (text "x") (field "colour" (text "red") end)))
        end)
      (field "spec" (mapping (field "colour" (text "red") end)) end)
      attributes
      true
      true).mode
    ≡ patch
unfolding plan is_inherited
inherited_removal = refl
