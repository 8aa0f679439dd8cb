-- ===== src/Pod/Environment/Tests.antt =====
-- Tests of a pod's environment: one container, a ConfigMap and a Secret.
use kubiq.Pod.Environment.{
  SourceKind, config_map, secret, ObjectRef, Container, ContainerEnvironment, of, group, imports_of,
  variables_of, describe, lookup, put, values, key_of, found_in, found_imports, found_variables,
  references_of,
}
use kubiq.Pod.Environment.Report.{
  Source, read, Built, Entry, Group, resolved, as_literal, source_of, remember, report, entries,
  all_imported, all_declared, numbered, imported, declared, undeclared, resolve, describe_object,
  value_in, decode, sorted_keys, insert_key, has_key,
}
use kubiq.Pod.Environment.Service.{Reading, object_with, remember_all, read_object, describe_pod}
use kubiq.Pod.Environment.Copy.{copy_group, copyable, text_of, hides_secret}
use kubiq.Pod.Environment.Found.{Refers}
use kubiq.Pod.Environment.Answers.{answer, describe_pod-answer}
use kubiq.Pod.Environment.Masks.{Alike, hide_group, hide-report}
use kubiq.Base.{
  ◌≡◌, refl, inl, inr, Bool, true, false, List, [], ◌∷◌, Option, none, some, Text, codes, text_eq,
  digits, if◌then◌else◌, map, All,
}

abbrev container : Container
container = record {
  name = some (codes "app");
  env_from = some (
      (record {
        prefix = some (codes "C_");
        config_map_ref = some (record { name = some (codes "c"); optional = none });
        secret_ref = none;
      })
      ∷ []);
  env = some (
      (record {
        name = some (codes "P");
        value = none;
        value_from = some (record {
          config_map_key_ref = none;
          secret_key_ref =
              some (record { name = some (codes "s"); key = some (codes "k"); optional = none });
          field_ref = none;
          resource_field_ref = none;
        });
      })
      ∷ (record { name = some (codes "L"); value = some (codes "1"); value_from = none })
      ∷ []);
}

abbrev plans : List ContainerEnvironment
plans = of none (some (container ∷ []))

abbrev served : SourceKind → Bool
served k = true

abbrev ask : ObjectRef → Reading
ask o = elim o.source_kind [
  | config_map ↦ object_with ((codes "b", codes "2") ∷ (codes "a", codes "1") ∷ [])
  | secret ↦ object_with ((codes "k", codes "eA") ∷ [])
]

abbrev follows : Text → Text → Bool
follows s t = text_eq s (codes "b")

abbrev from_base64 : Text → Option Text
from_base64 t = if text_eq t (codes "eA") then some (codes "x") else none

abbrev built : Group → List Built
built g = map (λ (e : Entry). e.built) g.entries

abbrev groups : List Group
groups = report follows from_base64 (answer served ask) plans

described : describe_pod served ask follows from_base64 plans ≡ some groups
unfolding of group imports_of variables_of describe lookup put values key_of found_in found_imports
    found_variables references_of source_of remember remember_all read_object describe_pod report
    entries all_imported all_declared numbered imported declared undeclared resolve describe_object
    value_in decode sorted_keys insert_key has_key text_eq digits
described = refl

describe_pod-answer_example :
    (groups ≡ report follows from_base64 (answer served ask) plans)
    × (All (Refers (λ o. read_object served ask o ≡ some (answer served ask o))) plans)
describe_pod-answer_example =
    describe_pod-answer served ask follows from_base64 plans groups described

-- Another cluster, whose secret holds another value.
abbrev other : ObjectRef → Source
other o = elim o.source_kind [
  | config_map ↦ record {
    state = read;
    content = (codes "b", codes "2") ∷ (codes "a", codes "1") ∷ [];
    encoded = false;
  }
  | secret ↦ record { state = read; content = (codes "k", codes "eQ") ∷ []; encoded = true }
]

abbrev first : ObjectRef → Source
first o = elim o.source_kind [
  | config_map ↦ record {
    state = read;
    content = (codes "b", codes "2") ∷ (codes "a", codes "1") ∷ [];
    encoded = false;
  }
  | secret ↦ record { state = read; content = (codes "k", codes "eA") ∷ []; encoded = true }
]

first-other :
    (k : SourceKind) (n : Text)
    → Alike follows from_base64
        (record { source_kind = k; name = n })
        (first (record { source_kind = k; name = n }))
        (other (record { source_kind = k; name = n }))
unfolding sorted_keys insert_key
first-other config_map n = inl refl
first-other secret n = inr (refl, refl, refl)

hide-report_example :
    map hide_group (report follows from_base64 first plans)
    ≡ map hide_group (report follows from_base64 other plans)
hide-report_example =
    hide-report follows from_base64 first other plans (λ o. first-other o.source_kind o.name)

-- The keys of a ConfigMap come in order, with the prefix, and the secret is masked.
reported :
    map built groups
    ≡ ((record {
      variable = codes "C_a";
      value = codes "1";
      provenance = codes "configmap/c · key: a";
      masked = false;
      state = resolved;
    })
        ∷ (record {
          variable = codes "C_b";
          value = codes "2";
          provenance = codes "configmap/c · key: b";
          masked = false;
          state = resolved;
        })
        ∷ (record {
          variable = codes "P";
          value = codes "x";
          provenance = codes "secret/s · key: k";
          masked = true;
          state = resolved;
        })
        ∷ (record {
          variable = codes "L";
          value = codes "1";
          provenance = [];
          masked = false;
          state = as_literal;
        })
        ∷ [])
      ∷ []
unfolding of group imports_of variables_of describe lookup read_object report entries all_imported
    all_declared numbered imported declared undeclared resolve describe_object value_in decode
    sorted_keys insert_key has_key text_eq digits
reported = refl

copied : map (λ (g : Group). copy_group g.entries) groups ≡ (codes "C_a=1\nC_b=2\nP=x\nL=1", 4) ∷ []
unfolding of group imports_of variables_of describe lookup read_object report entries all_imported
    all_declared numbered imported declared undeclared resolve describe_object value_in decode
    sorted_keys insert_key has_key text_eq digits copy_group copyable text_of
copied = refl

hidden : map (λ (g : Group). hides_secret g.entries) groups ≡ true ∷ []
unfolding of group imports_of variables_of describe lookup read_object report entries all_imported
    all_declared numbered imported declared undeclared resolve describe_object value_in decode
    sorted_keys insert_key has_key text_eq digits hides_secret
hidden = refl
