-- ===== src/Kubeconfig/Connect.antt =====
-- KubeconfigService.ts (getContexts, getCurrentContextName, buildConnectionSpec, specOf, material,
-- token, decode): a context becomes a connection. `disk` is the file system's answer for a path,
-- `parse` the YAML parser's, and `b64_to_string` decodes, or fails.
pub mod Spec
use kubiq.Base.{
  ℕ, Bool, true, false, ◌&&◌, ◌||◌, not, List, [], ◌∷◌, ◌++◌, Option, none, some, Text, codes,
  text_eq, if◌then◌else◌,
}
use kubiq.Resource.Filter.{is_empty, trim}
use kubiq.Kubeconfig.{
  Outcome, done, refused, thrown, ◌>>=◌, ◌>>◌, filled, Cluster, User, Context, File, AuthType,
  title, reason, is_supported, auth_type,
}
use kubiq.Kubeconfig.Shape.{Parsed}
use kubiq.Kubeconfig.Document.{
  get_clusters, get_users, get_all, get_current_context_name, is_kubeconfig, read_credential_file,
}
use kubiq.Kubeconfig.Locate.{Environment, Scan, scan}
use kubiq.Kubeconfig.Read.{Contents, Read, get, read}

pub record ConnectionSpec : Type 0 where
  pub server : Text
  pub ca_pem : Text
  pub client_cert_pem : Text
  pub client_key_pem : Text
  pub token : Text
  pub username : Text
  pub password : Text
  pub insecure_skip_tls_verify : Bool
  pub server_name : Text
  pub proxy_url : Text
  pub timeout_seconds : ℕ

abbrev quoted : Text → Text
quoted s = codes "\"" ++ s ++ codes "\""

-- `a || b` on texts.
abbrev pub or_else : Text → Text → Text
or_else a b = if is_empty a then b else a

-- `user?.field ?? ''`
abbrev pub of_user : (User → Text) → Option User → Text
of_user f none = []
of_user f (some u) = f u

abbrev join_names : List Text → Text
join_names [] = []
join_names (t ∷ []) = t
join_names (t ∷ ts) = t ++ codes ", " ++ join_names ts

module _ (disk : Text → Outcome (Option Text)) (parse : Text → Parsed)
    (b64_to_string : Text → Option Text) where
  -- The four awaits of a turn of the loop of `read`.
  unfoldable pub query : Text → Outcome Contents
  query file = do
    clusters ← get_clusters disk parse file
    users ← get_users disk parse file
    contexts ← get_all disk parse file
    current ← get_current_context_name disk parse file
    done (record { clusters = clusters; users = users; contexts = contexts; current = current })

  -- The fields that hold data have a file.
  unfoldable pub decode : Text → Text → Text → Outcome Text
  decode content field file = elim (b64_to_string content) [
    | some t ↦ done t
    | none ↦ refused (record {
      message = codes "The kubeconfig field " ++ quoted field ++ codes " is not valid base64";
      details = some (codes "File: " ++ file);
    })
  ]

  unfoldable pub material : Text → Text → Text → Text → Outcome Text
  unfolding decode
  material content path file field =
      let decoded = decode content field file in
      let loaded = read_credential_file disk parse file path in
      if filled content then decoded else if filled path && filled file then loaded else done []

  unfoldable pub token_from : Option User → Outcome Text
  token_from none = done []
  token_from (some u) =
      let loaded = read_credential_file disk parse u.file_path u.token_file in
      let trimmed = loaded >>= (λ content. done (trim content)) in
      if filled u.token
      then done (trim u.token)
      else if filled u.token_file && filled u.file_path
      then trimmed
      else done []

  -- What `specOf` returns once its guards have passed.
  unfoldable pub spec_with : Cluster → Option User → Outcome ConnectionSpec
  spec_with cluster user = do
    ca_pem ←
        material cluster.certificate_authority_data cluster.certificate_authority cluster.file_path
          (codes "certificate-authority-data")
    client_cert_pem ←
        material (of_user (λ (u : User). u.client_certificate_data) user)
          (of_user (λ (u : User). u.client_certificate) user)
          (of_user (λ (u : User). u.file_path) user) (codes "client-certificate-data")
    client_key_pem ←
        material (of_user (λ (u : User). u.client_key_data) user)
          (of_user (λ (u : User). u.client_key) user) (of_user (λ (u : User). u.file_path) user)
          (codes "client-key-data")
    sent_token ← token_from user
    done (record {
      server = cluster.server;
      ca_pem = ca_pem;
      client_cert_pem = client_cert_pem;
      client_key_pem = client_key_pem;
      token = sent_token;
      username = of_user (λ (u : User). u.username) user;
      password = of_user (λ (u : User). u.password) user;
      insecure_skip_tls_verify = cluster.insecure_skip_tls_verify;
      server_name = cluster.tls_server_name;
      proxy_url = cluster.proxy_url;
      timeout_seconds = 0;
    })

  unfoldable pub no_address : Context → Outcome ConnectionSpec
  no_address context = refused (record {
    message = codes "Kubeconfig context " ++ quoted context.name ++ codes " has no cluster address";
    details = some (codes "Cluster: " ++ or_else context.cluster_name (codes "not set"));
  })

  unfoldable pub not_supported : Context → AuthType → Outcome ConnectionSpec
  unfolding title reason
  not_supported context type = refused (record {
    message =
        codes "Kubeconfig context "
        ++ quoted context.name
        ++ codes " cannot be used yet: "
        ++ reason type;
    details = some (codes "Authentication method: " ++ title type);
  })

  -- The second guard.
  unfoldable pub spec_for : Context → Cluster → Outcome ConnectionSpec
  spec_for context cluster = elim context.user [
    | none ↦ spec_with cluster none
    | some u ↦
        if is_supported (auth_type u)
        then spec_with cluster (some u)
        else not_supported context (auth_type u)
  ]

  unfoldable pub spec_of : Context → Outcome ConnectionSpec
  spec_of context = elim context.cluster [
    | none ↦ no_address context
    | some c ↦ if filled c.server then spec_for context c else no_address context
  ]

  unfoldable pub not_found : Text → List Text → Outcome ConnectionSpec
  not_found name files = refused (record {
    message = codes "Kubeconfig context " ++ quoted name ++ codes " was not found";
    details = some (codes "Files read: " ++ or_else (join_names files) (codes "none"));
  })

  module _ (env : Environment) (stat : Text → Outcome (Option File))
      (list : Text → Outcome (Option (List File))) (follows : Text → Text → Bool) where
    abbrev pub read_all : List Text → Outcome Read
    read_all extra_paths =
        read query (scan env stat list (is_kubeconfig disk parse) follows extra_paths)

    unfoldable pub get_contexts : List Text → Outcome (List Context)
    get_contexts extra_paths = do r ← read_all extra_paths; done r.contexts

    unfoldable pub current_context : List Text → Outcome Text
    current_context extra_paths = do r ← read_all extra_paths; done r.current_context_name

    unfoldable pub build_connection_spec : Text → List Text → Outcome ConnectionSpec
    build_connection_spec context_name extra_paths = do
      r ← read_all extra_paths
      elim (get (λ (c : Context). c.name) context_name r.contexts) [
        | some context ↦ spec_of context
        | none ↦ not_found context_name r.files
      ]
