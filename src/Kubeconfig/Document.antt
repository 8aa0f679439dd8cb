-- ===== src/Kubeconfig/Document.antt =====
-- infrastructure/entityRepo/kubeconfig/KubeconfigEntityQuery.ts: one file. `read` is the transport's
-- answer for a path, where a missing file is no content, and `parse` is the YAML parser's.
use kubiq.Base.{
  ℕ, Bool, true, false, ◌&&◌, ◌||◌, List, [], ◌∷◌, ◌++◌, Option, none, some, Text, codes, text_eq,
  leb, if◌then◌else◌, map, ◌==◌,
}
use kubiq.Resource.Filter.{is_empty, trim}
use kubiq.Kubeconfig.Shape.{
  Section, Entry, ClusterDocument, ContextDocument, UserDocument, Document, Parsed, absent, listed,
  faulty, other, mapping,
}
use kubiq.Kubeconfig.{Outcome, done, refused, ◌>>=◌, filled, Cluster, User, Context}

abbrev pub or_empty : Option Text → Text
or_empty none = []
or_empty (some t) = t

abbrev pub has_section : {A : Type 0} → Section A → Bool
has_section absent = false
has_section _ = true

-- `entry?.body?.field ?? ''`
abbrev pub field : {A : Type 0} → (A → Option Text) → Option A → Text
field f none = []
field f (some a) = or_empty (f a)

abbrev pub flag : {A : Type 0} → (A → Bool) → Option A → Bool
flag f none = false
flag f (some a) = f a

abbrev pub is_true : Option Bool → Bool
is_true none = false
is_true (some b) = b

-- `named`, with the name that it leaves.
unfoldable pub named_in : {A : Type 0} → List (Entry A) → List (Text × Option A)
named_in [] = []
named_in (e ∷ es) =
    let rest = named_in es in
    let name = or_empty e.name in if filled name then (name, e.body) ∷ rest else rest

unfoldable pub entries : {A : Type 0} → Section (Entry A) → List (Text × Option A)
unfolding named_in
entries (listed es) = named_in es
entries _ = []

abbrev pub cluster_of : Text → Text × Option ClusterDocument → Cluster
cluster_of file (name, body) = record {
  name = name;
  server = field (λ (d : ClusterDocument). d.server) body;
  certificate_authority = field (λ (d : ClusterDocument). d.certificate_authority) body;
  certificate_authority_data = field (λ (d : ClusterDocument). d.certificate_authority_data) body;
  insecure_skip_tls_verify =
      flag (λ (d : ClusterDocument). is_true d.insecure_skip_tls_verify) body;
  tls_server_name = field (λ (d : ClusterDocument). d.tls_server_name) body;
  proxy_url = field (λ (d : ClusterDocument). d.proxy_url) body;
  file_path = file;
}

abbrev pub user_of : Text → Text × Option UserDocument → User
user_of file (name, body) = record {
  name = name;
  client_certificate = field (λ (d : UserDocument). d.client_certificate) body;
  client_certificate_data = field (λ (d : UserDocument). d.client_certificate_data) body;
  client_key = field (λ (d : UserDocument). d.client_key) body;
  client_key_data = field (λ (d : UserDocument). d.client_key_data) body;
  token = field (λ (d : UserDocument). d.token) body;
  token_file = field (λ (d : UserDocument). d.token_file) body;
  username = field (λ (d : UserDocument). d.username) body;
  password = field (λ (d : UserDocument). d.password) body;
  uses_exec = flag (λ (d : UserDocument). d.exec) body;
  uses_auth_provider = flag (λ (d : UserDocument). d.auth_provider) body;
  file_path = file;
}

abbrev pub clusters_of : Text → Document → List Cluster
clusters_of file d = map (cluster_of file) (entries d.clusters)

abbrev pub users_of : Text → Document → List User
users_of file d = map (user_of file) (entries d.users)

-- `byName`: the entry of a name that comes last.
unfoldable pub by_name : {A : Type 0} → (A → Text) → Text → List A → Option A
by_name name_of name [] = none
by_name name_of name (a ∷ rest) = elim (by_name name_of name rest) [
  | some b ↦ some b
  | none ↦ if text_eq (name_of a) name then some a else none
]

abbrev pub context_of : Text → List Cluster → List User → Text × Option ContextDocument → Context
context_of file clusters users (name, body) =
    let cluster = field (λ (d : ContextDocument). d.cluster) body in
    let user = field (λ (d : ContextDocument). d.user) body in
    record {
      name = name;
      cluster_name = cluster;
      user_name = user;
      namespace = field (λ (d : ContextDocument). d.namespace) body;
      file_path = file;
      cluster = by_name (λ (c : Cluster). c.name) cluster clusters;
      user = by_name (λ (u : User). u.name) user users;
    }

abbrev pub contexts_of : Text → Document → List Context
contexts_of file d =
    map (context_of file (clusters_of file d) (users_of file d)) (entries d.contexts)

abbrev pub parse_failed : Text
parse_failed = codes "The kubeconfig file could not be read"

-- Only the position of a fault leaves.
unfoldable pub position : Text → Option (Text × Text) → Text
position file none = file ++ codes " — the file is not valid YAML"
position file (some (line, column)) =
    file ++ codes " — YAML syntax error at line " ++ line ++ codes ", column " ++ column

unfoldable pub mapping_of : Text → Parsed → Outcome (Option Document)
mapping_of file (faulty p) =
    refused (record { message = parse_failed; details = some (position file p) })
mapping_of file other = done none
mapping_of file (mapping d) = done (some d)

abbrev pub is_blank : Option Text → Bool
is_blank none = true
is_blank (some content) = is_empty (trim content)

-- `AbsolutePath`: a slash of either kind, perhaps behind a drive.
abbrev pub is_slash : ℕ → Bool
is_slash c = c == 47 || c == 92

abbrev is_letter : ℕ → Bool
is_letter c = (leb 65 c && leb c 90) || (leb 97 c && leb c 122)

abbrev pub is_absolute : Text → Bool
is_absolute (a ∷ b ∷ c ∷ s) = is_slash a || (is_letter a && b == 58 && is_slash c)
is_absolute (a ∷ s) = is_slash a
is_absolute [] = false

-- The folder that a path names, when it has a slash: what is before the last one.
unfoldable pub folder_of : Text → Option Text
folder_of [] = none
folder_of (c ∷ s) = elim (folder_of s) [
  | some rest ↦ some (c ∷ rest)
  | none ↦ if is_slash c then some [] else none
]

unfoldable pub resolve : Text → Text → Text
unfolding folder_of
resolve file path =
    if is_absolute path
    then path
    else elim (folder_of file) [ none ↦ path | some folder ↦ folder ++ 47 ∷ path ]

module _ (read : Text → Outcome (Option Text)) (parse : Text → Parsed) where
  unfoldable pub document : Text → Outcome (Option Document)
  unfolding mapping_of
  document file = do
    content ← read file
    if is_blank content then done none else do
      parsed ← mapping_of file (parse (or_empty content))
      elim parsed [
        | some d ↦ done (some d)
        | none ↦ refused (record {
          message = parse_failed;
          details = some (file ++ codes " — a kubeconfig document was expected");
        })
      ]

  unfoldable pub from_document : {A : Type 0} → (Document → A) → A → Text → Outcome A
  from_document f a file = do d ← document file; done (elim d [ none ↦ a | some doc ↦ f doc ])

  unfoldable pub get_clusters : Text → Outcome (List Cluster)
  unfolding from_document
  get_clusters file = from_document (clusters_of file) [] file

  unfoldable pub get_users : Text → Outcome (List User)
  unfolding from_document
  get_users file = from_document (users_of file) [] file

  unfoldable pub get_all : Text → Outcome (List Context)
  unfolding from_document
  get_all file = from_document (contexts_of file) [] file

  unfoldable pub get_current_context_name : Text → Outcome Text
  unfolding from_document
  get_current_context_name file =
      from_document (λ (d : Document). or_empty d.current_context) [] file

  unfoldable pub is_kubeconfig : Text → Outcome Bool
  unfolding mapping_of
  is_kubeconfig file = do
    content ← read file
    if is_blank content then done false else do
      parsed ← mapping_of file (parse (or_empty content))
      done (elim parsed [
        | none ↦ false
        | some d ↦
            text_eq (or_empty d.kind) (codes "Config")
            || has_section d.clusters
            || has_section d.contexts
            || has_section d.users
      ])

  unfoldable pub read_credential_file : Text → Text → Outcome Text
  unfolding resolve
  read_credential_file file path = do
    content ← read (resolve file path)
    elim content [
      | some text ↦ done text
      | none ↦ refused (record {
        message = codes "A file the kubeconfig refers to could not be read";
        details = some (resolve file path);
      })
    ]
