-- ===== src/Kubeconfig/Connect/Spec.antt =====
-- buildConnectionSpec of KubeconfigService.ts: what a connection is made of.
use kubiq.Kubeconfig.{
  Outcome, done, >>=-done, filled, Cluster, User, Context, File, is_supported, auth_type,
}
use kubiq.Kubeconfig.Shape.{Parsed}
use kubiq.Kubeconfig.Document.{is_kubeconfig}
use kubiq.Kubeconfig.Locate.{Environment, Scan, scan}
use kubiq.Kubeconfig.Read.{get, read}
use kubiq.Kubeconfig.Read.First.{first_in}
use kubiq.Kubeconfig.Read.Merged.{bound, map_some, read-bound}
use kubiq.Kubeconfig.Connect.{
  ConnectionSpec, of_user, query, material, token_from, spec_with, no_address, not_supported,
  spec_for, spec_of, not_found, build_connection_spec,
}
use kubiq.Kubeconfig.Locate.Visits.{done-injective}
use kubiq.Base.{
  codes, ◌≡◌, refl, sym, ap, ◌∙◌, inl, inr, Bool, true, List, Option, none, some, Text, arith,
  Bool-cases, Option-cases,
}

-- Nobody, or a user whose way to authenticate is supported.
abbrev pub permitted : Option User → Bool
permitted none = true
permitted (some u) = is_supported (auth_type u)

module _ (disk : Text → Outcome (Option Text)) (parse : Text → Parsed)
    (b64_to_string : Text → Option Text) where
  -- What `material` is asked for a user's field.
  abbrev pub user_material : Option User → (User → Text) → (User → Text) → Text → Outcome Text
  user_material u data_of path_of field =
      material disk parse b64_to_string (of_user data_of u) (of_user path_of u)
        (of_user (λ (x : User). x.file_path) u) field

  -- What a connection is made of, by its parts.
  abbrev pub MadeOf : Cluster → Option User → ConnectionSpec → Type 0
  MadeOf k u spec =
      (spec.server ≡ k.server)
      × (spec.insecure_skip_tls_verify ≡ k.insecure_skip_tls_verify)
      × (material disk parse b64_to_string k.certificate_authority_data k.certificate_authority
            k.file_path (codes "certificate-authority-data")
          ≡ done spec.ca_pem)
      × (user_material u (λ (x : User). x.client_certificate_data)
            (λ (x : User). x.client_certificate) (codes "client-certificate-data")
          ≡ done spec.client_cert_pem)
      × (user_material u (λ (x : User). x.client_key_data) (λ (x : User). x.client_key)
            (codes "client-key-data")
          ≡ done spec.client_key_pem)
      × (token_from disk parse b64_to_string u ≡ done spec.token)
      × (spec.username ≡ of_user (λ (x : User). x.username) u)
      × (spec.password ≡ of_user (λ (x : User). x.password) u)

  spec_with-MadeOf :
      (k : Cluster) (u : Option User) (spec : ConnectionSpec)
      → spec_with disk parse b64_to_string k u ≡ done spec
      → MadeOf k u spec
  unfolding spec_with
  spec_with-MadeOf k u spec h =
      let (ca, e1, h1) =
        >>=-done
          (material disk parse b64_to_string k.certificate_authority_data k.certificate_authority
            k.file_path (codes "certificate-authority-data"))
          _ spec h in
      let (cert, e2, h2) =
        >>=-done
          (user_material u (λ (x : User). x.client_certificate_data)
            (λ (x : User). x.client_certificate) (codes "client-certificate-data"))
          _ spec h1 in
      let (key, e3, h3) =
        >>=-done
          (user_material u (λ (x : User). x.client_key_data) (λ (x : User). x.client_key)
            (codes "client-key-data"))
          _ spec h2 in
      let (sent, e4, h4) = >>=-done (token_from disk parse b64_to_string u) _ spec h3 in
      let same = done-injective _ spec h4 in
      (
        ap (λ (x : ConnectionSpec). x.server) (sym same),
        ap (λ (x : ConnectionSpec). x.insecure_skip_tls_verify) (sym same),
        e1 ∙ ap (λ (x : ConnectionSpec). done x.ca_pem) same,
        e2 ∙ ap (λ (x : ConnectionSpec). done x.client_cert_pem) same,
        e3 ∙ ap (λ (x : ConnectionSpec). done x.client_key_pem) same,
        e4 ∙ ap (λ (x : ConnectionSpec). done x.token) same,
        ap (λ (x : ConnectionSpec). x.username) (sym same),
        ap (λ (x : ConnectionSpec). x.password) (sym same),
      )

  spec_for-permitted :
      (c : Context) (k : Cluster) (spec : ConnectionSpec)
      → spec_for disk parse b64_to_string c k ≡ done spec
      → (spec_with disk parse b64_to_string k c.user ≡ done spec) × (permitted c.user ≡ true)
  unfolding spec_for not_supported
  spec_for-permitted c k spec h = elim (Option-cases c.user) [
    | inl e ↦ ground (arith, e, h)
    | inr (u, e) ↦ elim (Bool-cases (is_supported (auth_type u))) [
      | inl ok ↦ ground (arith, e, ok, h)
      | inr bad ↦ absurd (ground (arith, e, bad, h))
    ]
  ]

  spec_of-cluster :
      (c : Context) (spec : ConnectionSpec)
      → spec_of disk parse b64_to_string c ≡ done spec
      → (k : Cluster) × (c.cluster ≡ some k)
        × (filled k.server ≡ true)
        × (spec_for disk parse b64_to_string c k ≡ done spec)
  unfolding spec_of no_address
  spec_of-cluster c spec h = elim (Option-cases c.cluster) [
    | inl e ↦ absurd (ground (arith, e, h))
    | inr (k, e) ↦ elim (Bool-cases (filled k.server)) [
      | inl ok ↦ (k, e, ok, ground (arith, e, ok, h))
      | inr bad ↦ absurd (ground (arith, e, bad, h))
    ]
  ]

  map_some-some :
      {A B : Type 0} (f : A → B) (o : Option A) (b : B)
      → map_some f o ≡ some b
      → (a : A) × (o ≡ some a) × (f a ≡ b)
  map_some-some f none b h = cc
  map_some-some f (some a) b h = (a, refl, cc)

  module _ (env : Environment) (stat : Text → Outcome (Option File))
      (list : Text → Outcome (Option (List File))) (follows : Text → Text → Bool) where
    -- A connection that is made for a context's name comes from the files that the scan found:
    -- from the context that the first of them to answer and declare the name holds, bound by the
    -- merge; its cluster has an address, which is the connection's, as is its flag for
    -- certificates; its user, if there is one, authenticates in a supported way; certificates, key
    -- and token are what `material` and `token_from` read for that cluster and that user, and name
    -- and password are the user's.
    pub build_connection_spec-MadeOf :
        (context_name : Text) (extra_paths : List Text) (spec : ConnectionSpec)
        → build_connection_spec disk parse b64_to_string env stat list follows context_name
            extra_paths
          ≡ done spec
        → (s : Scan) × (scan env stat list (is_kubeconfig disk parse) follows extra_paths ≡ done s)
          × (c : Context) × (first_in
                (query disk parse b64_to_string)
                (λ x. x.contexts)
                (λ (x : Context). x.name)
                context_name
                s.files
              ≡ some c)
          × (k : Cluster) × ((bound (query disk parse b64_to_string) s.files c).cluster ≡ some k)
          × (filled k.server ≡ true)
          × (permitted (bound (query disk parse b64_to_string) s.files c).user ≡ true)
          × MadeOf k (bound (query disk parse b64_to_string) s.files c).user spec
    unfolding build_connection_spec not_found
    build_connection_spec-MadeOf context_name extra_paths spec h =
        let q = query disk parse b64_to_string in
        let scanned = scan env stat list (is_kubeconfig disk parse) follows extra_paths in
        let (r, er, h') = >>=-done (read q scanned) _ spec h in
        let (s, es, files, found, current) = read-bound q scanned r context_name er in
        elim (Option-cases (get (λ (x : Context). x.name) context_name r.contexts)) [
          | inl e ↦ absurd (ground (arith, e, h'))
          | inr (b, e) ↦
              let answered : spec_of disk parse b64_to_string b ≡ done spec =
                ground (arith, e, h') in
              let (c, first, same) =
                map_some-some (bound q s.files)
                  (first_in q (λ x. x.contexts) (λ (x : Context). x.name) context_name s.files) b
                  (sym found ∙ e) in
              let (k, ek, address, h'') =
                spec_of-cluster (bound q s.files c) spec
                  (ap (spec_of disk parse b64_to_string) same ∙ answered) in
              let (with_user, ok) = spec_for-permitted (bound q s.files c) k spec h'' in
              (
                s,
                es,
                c,
                first,
                k,
                ek,
                address,
                ok,
                spec_with-MadeOf k (bound q s.files c).user spec with_user,
              )
        ]
