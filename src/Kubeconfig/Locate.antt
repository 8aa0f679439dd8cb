-- ===== src/Kubeconfig/Locate.antt =====
-- KubeconfigService.ts (locate, scan, named, homeFolder, candidatesIn, expandAll, split, expand,
-- fingerprint) and infrastructure/env/EnvironmentAdapter.ts: where kubeconfig files are looked for.
-- `stat` and `list` are the file system's answers, `is_kubeconfig` is the reading of one file, and
-- `follows` says that `localeCompare` is positive.
pub mod Found
pub mod Visits
pub mod Scanned
use kubiq.Base.{
  digits, ℕ, zero, suc, ◌+◌, ◌-◌, ◌/◌, ◌%◌, Bool, true, false, ◌&&◌, ◌||◌, not, List, [], ◌∷◌, ◌++◌,
  Option, none, some, Text, codes, text_eq, ltb, if◌then◌else◌, length, map,
}
use kubiq.Resource.Filter.{is_empty, trim}
use kubiq.Kubeconfig.{
  ApiError, Outcome, done, refused, thrown, ◌>>=◌, ◌>>◌, filled, File, is_candidate, is_default,
}
use kubiq.Kubeconfig.Document.{or_empty, is_slash}

-- What a call of the environment service ends with; `lost` is a rejected call.
pub data Answer : Type 0 where
  value : Text → Answer
  failure lost : Answer

-- The services as they answer, and whether there is a runtime to ask.
pub record Environment : Type 0 where
  pub available : Bool
  pub get : Text → Answer
  pub user_home_dir : Answer
  pub path_separator : Answer
  pub expand : Text → Answer

-- `EnvironmentAdapter.value`
abbrev pub value_of : Environment → Answer → Text
value_of env (value t) = if env.available then t else []
value_of env _ = []

pub record Problem : Type 0 where
  pub path : Text
  pub error : ApiError

pub record Scan : Type 0 where
  pub files : List Text
  pub problems : List Problem

unfoldable pub includes : Text → List Text → Bool
includes p [] = false
includes p (q ∷ ps) = text_eq q p || includes p ps

-- `[...new Set(paths)]`, with what the set has.
unfoldable pub distinct_from : List Text → List Text → List Text
unfolding includes
distinct_from seen [] = []
distinct_from seen (p ∷ ps) =
    let later = distinct_from (p ∷ seen) ps in
    let same = distinct_from seen ps in if includes p seen then same else p ∷ later

unfoldable pub distinct : List Text → List Text
unfolding distinct_from
distinct ps = distinct_from [] ps

unfoldable pub starts_with : Text → Text → Bool
starts_with [] s = true
starts_with (a ∷ p) [] = false
starts_with (a ∷ p) (b ∷ s) = text_eq (a ∷ []) (b ∷ []) && starts_with p s

-- `split` by a separator that is not empty: how much of one is still to pass, and the part so far.
unfoldable pub split_by : Text → ℕ → Text → Text → List Text
unfolding starts_with
split_by separator left part [] = part ∷ []
split_by separator (suc left) part (c ∷ s) = split_by separator left part s
split_by separator zero part (c ∷ s) =
    let next = split_by separator (length separator - 1) [] s in
    let same = split_by separator 0 (part ++ c ∷ []) s in
    if starts_with separator (c ∷ s) then part ∷ next else same

-- `home.replace(/[\\/]+$/, '')`
unfoldable pub without_slashes : Text → Text
without_slashes [] = []
without_slashes (c ∷ s) =
    let rest = without_slashes s in if is_empty rest && is_slash c then [] else c ∷ rest

unfoldable pub stamp : File → Text
unfolding digits
stamp f =
    f.path ++ codes "|" ++ digits f.size f.size ++ codes "|" ++ digits f.modified_at f.modified_at

unfoldable pub join : List Text → Text
join [] = []
join (t ∷ []) = t
join (t ∷ ts) = t ++ 10 ∷ join ts

module _ (env : Environment) where
  unfoldable pub expand : Text → Text
  expand path =
      let asked = trim path in
      let answer = value_of env (env.expand asked) in
      if is_empty asked then [] else if is_empty answer then asked else answer

  -- The loops of `expandAll` and of `split`.
  unfoldable pub expand_all : List Text → List Text
  unfolding expand
  expand_all [] = []
  expand_all (p ∷ ps) =
      let rest = expand_all ps in let path = expand p in if is_empty path then rest else path ∷ rest

  unfoldable pub split : Text → List Text
  unfolding expand_all split_by
  split variable =
      let separator = value_of env env.path_separator in
      let parts = if is_empty separator then variable ∷ [] else split_by separator 0 [] variable in
      expand_all parts

  unfoldable pub named : List Text → List Text
  unfolding distinct split
  named extra_paths =
      let variable = trim (value_of env (env.get (codes "KUBECONFIG"))) in
      let paths = expand_all extra_paths in
      distinct (if is_empty variable then paths else paths ++ split variable)

  unfoldable pub home_folder : Text
  unfolding without_slashes
  home_folder =
      let home = value_of env env.user_home_dir in
      if is_empty home then [] else without_slashes home ++ codes "/.kube"

module _ (follows : Text → Text → Bool) where
  -- The comparison of `candidatesIn` is positive.
  abbrev pub comes_after : File → File → Bool
  comes_after left right =
      (is_default right && not (is_default left))
      || (not (is_default right && not (is_default left))
          && not (is_default left && not (is_default right))
          && follows left.name right.name)

  unfoldable pub insert : File → List File → List File
  insert f [] = f ∷ []
  insert f (g ∷ fs) = let rest = insert f fs in if comes_after f g then g ∷ rest else f ∷ g ∷ fs

  -- `sort` keeps the order of equal entries.
  unfoldable pub sort : List File → List File
  unfolding insert
  sort [] = []
  sort (f ∷ fs) = insert f (sort fs)

unfoldable pub candidates : List File → List File
candidates [] = []
candidates (f ∷ fs) = let rest = candidates fs in if is_candidate f then f ∷ rest else rest

abbrev pub is_folder : Option File → Bool
is_folder none = false
is_folder (some f) = f.is_directory

-- `entries ?? []`
abbrev pub entries_of : Option (List File) → List File
entries_of none = []
entries_of (some fs) = fs

module _ (list : Text → Outcome (Option (List File))) (follows : Text → Text → Bool) where
  unfoldable pub candidates_in : Text → Outcome (List File)
  unfolding candidates sort
  candidates_in folder = do found ← list folder; done (sort follows (candidates (entries_of found)))

  abbrev stamps_in : Text → Outcome (List Text)
  stamps_in folder = do cs ← candidates_in folder; done (map stamp cs)

module _ (stat : Text → Outcome (Option File)) where
  -- The first loop of `scan`: the files and the folders among the named paths.
  unfoldable pub classify : List Text → Outcome (List Text × List Text)
  classify [] = done ([], [])
  classify (p ∷ ps) = do
    entry ← stat p
    rest ← classify ps
    done (if is_folder entry then (rest.0, p ∷ rest.1) else (p ∷ rest.0, rest.1))

module _ (is_kubeconfig : Text → Outcome Bool) where
  -- The body of the inner loop.
  unfoldable pub visit_one : File → Scan → Outcome Scan
  visit_one c s = if includes c.path s.files then done s else elim (is_kubeconfig c.path) [
    | done b ↦ done (if b then record s { files = s.files ++ c.path ∷ [] } else s)
    | refused e ↦
        done (record s { problems = s.problems ++ (record { path = c.path; error = e }) ∷ [] })
    | thrown t ↦ thrown t
  ]

  unfoldable pub visit : List File → Scan → Outcome Scan
  visit [] s = done s
  visit (c ∷ cs) s = do next ← visit_one c s; visit cs next

module _ (env : Environment) (stat : Text → Outcome (Option File))
    (list : Text → Outcome (Option (List File))) (is_kubeconfig : Text → Outcome Bool)
    (follows : Text → Text → Bool) where
  unfoldable pub visit_folders : List Text → Scan → Outcome Scan
  visit_folders [] s = done s
  visit_folders (folder ∷ folders) s = do
    cs ← candidates_in list follows folder
    next ← visit is_kubeconfig cs s
    visit_folders folders next

  unfoldable pub scan : List Text → Outcome Scan
  scan extra_paths = do
    paths ← classify stat (named env extra_paths)
    let home = home_folder env
    let folders = if is_empty home then paths.1 else paths.1 ++ home ∷ []
    visit_folders (distinct folders) (record { files = paths.0; problems = [] })

  unfoldable pub locate : List Text → Outcome (List Text)
  unfolding scan
  locate extra_paths = do s ← scan extra_paths; done s.files

  -- The loop of `fingerprint`.
  unfoldable pub stamps_of : List Text → Outcome (List Text)
  unfolding stamp
  stamps_of [] = done []
  stamps_of (p ∷ ps) = do
    entry ← stat p
    here ← elim entry [
      | none ↦ done ((p ++ codes "|absent") ∷ [])
      | some f ↦ if f.is_directory then stamps_in list follows p else done (stamp f ∷ [])
    ]
    rest ← stamps_of ps
    done (here ++ rest)

  unfoldable pub fingerprint : List Text → Outcome Text
  unfolding stamps_of join
  fingerprint extra_paths = do
    stamps ← stamps_of (named env extra_paths)
    let home = home_folder env
    more ← if is_empty home then done [] else stamps_in list follows home
    done (join (stamps ++ more))
