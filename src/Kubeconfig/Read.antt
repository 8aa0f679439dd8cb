-- ===== src/Kubeconfig/Read.antt =====
-- KubeconfigService.ts (read, keepFirst, bind, problemOf): the files that were found, merged. `query`
-- is what the four questions of one file end with. A map from names to entities is the list of the
-- entities in the order they came, as each is kept under its own name.
pub mod First
pub mod Merged
pub mod Faults
use kubiq.Base.{
  Bool, true, false, ◌||◌, List, [], ◌∷◌, ◌++◌, Option, none, some, Text, text_eq, if◌then◌else◌,
  map,
}
use kubiq.Resource.Filter.{is_empty}
use kubiq.Kubeconfig.{Outcome, done, refused, thrown, ◌>>=◌, ◌>>◌, Cluster, User, Context}
use kubiq.Kubeconfig.Locate.{Problem, Scan}

-- What the four questions of one file ask for.
pub record Contents : Type 0 where
  pub clusters : List Cluster
  pub users : List User
  pub contexts : List Context
  pub current : Text

-- The state of the loop.
pub record Merge : Type 0 where
  pub clusters : List Cluster
  pub users : List User
  pub contexts : List Context
  pub current_context_name : Text
  pub problems : List Problem

pub record Read : Type 0 where
  pub files : List Text
  pub contexts : List Context
  pub current_context_name : Text
  pub problems : List Problem

module _ {A : Type 0} (name_of : A → Text) where
  -- `get` of a map.
  unfoldable pub get : Text → List A → Option A
  get name [] = none
  get name (a ∷ target) =
      let rest = get name target in if text_eq (name_of a) name then some a else rest

  abbrev pub is_some : Option A → Bool
  is_some none = false
  is_some (some a) = true

  unfoldable pub keep_first : List A → List A → List A
  unfolding get
  keep_first target [] = target
  keep_first target (a ∷ entities) =
      let same = keep_first target entities in
      let added = keep_first (target ++ a ∷ []) entities in
      if is_some (get (name_of a) target) then same else added

-- The entry that a map has, or what there was.
abbrev pub or_some : {A : Type 0} → Option A → Option A → Option A
or_some (some a) o = some a
or_some none o = o

abbrev pub bind : List Cluster → List User → Context → Context
bind clusters users context =
    let cluster = get (λ (c : Cluster). c.name) context.cluster_name clusters in
    let user = get (λ (u : User). u.name) context.user_name users in
    record context { cluster = or_some cluster context.cluster; user = or_some user context.user }

abbrev pub new_merge : List Problem → Merge
new_merge problems = record {
  clusters = [];
  users = [];
  contexts = [];
  current_context_name = [];
  problems = problems;
}

-- What follows the four awaits: nothing of a file is kept before all have been answered.
unfoldable pub keep : Contents → Merge → Merge
unfolding keep_first
keep c m = record {
  clusters = keep_first (λ (x : Cluster). x.name) m.clusters c.clusters;
  users = keep_first (λ (x : User). x.name) m.users c.users;
  contexts = keep_first (λ (x : Context). x.name) m.contexts c.contexts;
  current_context_name =
      if is_empty m.current_context_name then c.current else m.current_context_name;
  problems = m.problems;
}

module _ (query : Text → Outcome Contents) where
  -- The body of the loop, its `catch` included.
  unfoldable pub read_one : Text → Merge → Outcome Merge
  unfolding keep
  read_one file m = elim (query file) [
    | done c ↦ done (keep c m)
    | refused e ↦
        done (record m { problems = m.problems ++ (record { path = file; error = e }) ∷ [] })
    | thrown t ↦ thrown t
  ]

  unfoldable pub read_files : List Text → Merge → Outcome Merge
  unfolding read_one
  read_files [] m = done m
  read_files (file ∷ files) m = do next ← read_one file m; read_files files next

  unfoldable pub read : Outcome Scan → Outcome Read
  unfolding read_files
  read scanned = do
    s ← scanned
    m ← read_files s.files (new_merge s.problems)
    done (record {
      files = s.files;
      contexts = map (bind m.clusters m.users) m.contexts;
      current_context_name = m.current_context_name;
      problems = m.problems;
    })
