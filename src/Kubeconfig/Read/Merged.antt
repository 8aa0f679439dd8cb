-- ===== src/Kubeconfig/Read/Merged.antt =====
-- read of KubeconfigService.ts: what the merge of the files holds, and what a file that fails leaves.
use kubiq.Kubeconfig.{>>=-done, Outcome, done, Cluster, User, Context}
use kubiq.Kubeconfig.Locate.{Problem, Scan}
use kubiq.Kubeconfig.Read.First.{
  first_in, current_in, done-injective, read_files-get, read_files-current,
}
use kubiq.Kubeconfig.Read.{
  or_some, Contents, Merge, Read, get, bind, new_merge, keep, read_files, read,
}
use kubiq.Base.{◌≡◌, refl, sym, ap, ap₂, ◌∙◌, List, [], ◌∷◌, Option, none, some, Text, arith, map}

-- What the merge binds a context to, by the names alone.
abbrev pub bound : (Text → Outcome Contents) → List Text → Context → Context
bound query files c =
    let cluster = first_in query (λ x. x.clusters) (λ (x : Cluster). x.name) c.cluster_name files in
    let user = first_in query (λ x. x.users) (λ (x : User). x.name) c.user_name files in
    record c { cluster = or_some cluster c.cluster; user = or_some user c.user }

abbrev pub map_some : {A B : Type 0} → (A → B) → Option A → Option B
map_some f none = none
map_some f (some a) = some (f a)

get-map :
    (f : Context → Context) (keeps : (c : Context) → (f c).name ≡ c.name) (n : Text)
    (cs : List Context)
    → get (λ (c : Context). c.name) n (map f cs) ≡ map_some f (get (λ (c : Context). c.name) n cs)
unfolding get
get-map f keeps n [] = refl
get-map f keeps n (c ∷ cs) = ground (arith, keeps c, get-map f keeps n cs)

bind-bound :
    (query : Text → Outcome Contents) (files : List Text) (m : Merge) (ps : List Problem)
    → read_files query files (new_merge ps) ≡ done m
    → (c : Context) → bind m.clusters m.users c ≡ bound query files c
unfolding get keep
bind-bound query files m ps h c =
    ap₂ (λ o p. record c { cluster = or_some o c.cluster; user = or_some p c.user })
      (read_files-get query (λ (x : Cluster). x.name) (λ x. x.clusters) (λ x. x.clusters)
        (λ _ _. refl) (λ _ _. refl) c.cluster_name files (new_merge ps) m h)
      (read_files-get query (λ (x : User). x.name) (λ x. x.users) (λ x. x.users) (λ _ _. refl)
        (λ _ _. refl) c.user_name files (new_merge ps) m h)

map-bound :
    (query : Text → Outcome Contents) (files : List Text) (m : Merge) (ps : List Problem)
    → read_files query files (new_merge ps) ≡ done m
    → (cs : List Context) → map (bind m.clusters m.users) cs ≡ map (bound query files) cs
map-bound query files m ps h [] = refl
map-bound query files m ps h (c ∷ cs) =
    ap₂ (λ d ds. d ∷ ds) (bind-bound query files m ps h c) (map-bound query files m ps h cs)

contexts-get :
    (query : Text → Outcome Contents) (files : List Text) (m : Merge) (ps : List Problem) (n : Text)
    → read_files query files (new_merge ps) ≡ done m
    → get (λ (c : Context). c.name) n (map (bind m.clusters m.users) m.contexts)
      ≡ map_some
          (bound query files)
          (first_in query (λ x. x.contexts) (λ (c : Context). c.name) n files)
unfolding get keep
contexts-get query files m ps n h =
    ap (get (λ (c : Context). c.name) n) (map-bound query files m ps h m.contexts)
    ∙ get-map (bound query files) (λ c. refl) n m.contexts
    ∙ ap (map_some (bound query files)) (
        read_files-get query (λ (x : Context). x.name) (λ x. x.contexts) (λ x. x.contexts)
          (λ _ _. refl) (λ _ _. refl) n files (new_merge ps) m h)

-- When the merged kubeconfig is read, by whatever each file answers: the files are those of the
-- scan; the context that a name has is the one of the first file that answers and declares it,
-- bound to the cluster of the first such file that declares its cluster's name and to the user of
-- the first that declares its user's, or else to what the file itself bound; a name that no such
-- file declares has none; and the current context is the first that a file that answers names.
pub read-bound :
    (query : Text → Outcome Contents) (scanned : Outcome Scan) (r : Read) (n : Text)
    → read query scanned ≡ done r
    → (s : Scan) × (scanned ≡ done s)
      × (r.files ≡ s.files)
      × (get (λ (c : Context). c.name) n r.contexts
          ≡ map_some
              (bound query s.files)
              (first_in query (λ x. x.contexts) (λ (c : Context). c.name) n s.files))
      × (r.current_context_name ≡ current_in query s.files)
unfolding read
read-bound query scanned r n h =
    let (s, es, h') = >>=-done scanned _ r h in
    let (m, em, h'') = >>=-done (read_files query s.files (new_merge s.problems)) _ r h' in
    let same = sym (done-injective _ r h'') in
    (
      s,
      es,
      ap (λ (x : Read). x.files) same,
      ap (λ (x : Read). get (λ (c : Context). c.name) n x.contexts) same
          ∙ contexts-get query s.files m s.problems n em,
      ap (λ (x : Read). x.current_context_name) same
          ∙ read_files-current query s.files (new_merge s.problems) m em,
    )
