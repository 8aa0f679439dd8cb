-- ===== src/Kubeconfig.antt =====
-- frontend/src/application/services/kubeconfig, domain/entities/kubeconfig and
-- infrastructure/entityRepo/kubeconfig: where kubeconfig files are looked for, how the files are
-- merged, and how a context becomes a connection. The file system, the environment, the YAML parser
-- and the decoders are parameters; during one call they answer the same question with the same
-- answer. Strings are lists of code units.
pub mod Shape
pub mod Document
pub mod Locate
pub mod Read
pub mod Connect
mod Tests
use kubiq.Base.{
  ◌≡◌, refl, ◌⊎◌, inl, inr, ℕ, Bool, true, false, ◌&&◌, ◌||◌, not, List, [], ◌∷◌, Option, none,
  some, String, Text, codes, leb, text_eq, if◌then◌else◌,
}
use kubiq.Resource.Filter.{is_empty}

-- `details` is what may be left out.
pub record ApiError : Type 0 where
  pub message : Text
  pub details : Option Text

-- What an awaited call ends with: a value, an `ApiError`, or something else that was thrown.
pub data Outcome {ℓ} (A : Type ℓ) : Type ℓ where
  done : A → Outcome A
  refused : ApiError → Outcome A
  thrown : Text → Outcome A

infixl 5 ◌>>=◌ ◌>>◌
abbrev pub ◌>>=◌ {ℓ κ} : {A : Type ℓ} {B : Type κ} → Outcome A → (A → Outcome B) → Outcome B
done a >>= f = f a
refused e >>= f = refused e
thrown e >>= f = thrown e

abbrev pub ◌>>◌ {ℓ κ} : {A : Type ℓ} {B : Type κ} → Outcome A → Outcome B → Outcome B
m >> k = m >>= λ _. k

pub Outcome-cases {ℓ} :
    {A : Type ℓ} (o : Outcome A)
    → ((a : A) × (o ≡ done a))
      ⊎ (((e : ApiError) × (o ≡ refused e)) ⊎ ((t : Text) × (o ≡ thrown t)))
Outcome-cases (done a) = inl (a, refl)
Outcome-cases (refused e) = inr (inl (e, refl))
Outcome-cases (thrown t) = inr (inr (t, refl))

pub >>=-done {ℓ κ} :
    {A : Type ℓ} {B : Type κ} (m : Outcome A) (f : A → Outcome B) (b : B)
    → (m >>= f) ≡ done b
    → (a : A) × (m ≡ done a) × (f a ≡ done b)
>>=-done (done a) f b h = (a, refl, h)
>>=-done (refused e) f b h = cc
>>=-done (thrown t) f b h = cc

-- A JavaScript string is true when it is not empty.
abbrev pub filled : Text → Bool
filled s = not (is_empty s)

pub record Cluster : Type 0 where
  pub name : Text
  pub server : Text
  pub certificate_authority : Text
  pub certificate_authority_data : Text
  pub insecure_skip_tls_verify : Bool
  pub tls_server_name : Text
  pub proxy_url : Text
  pub file_path : Text

pub record User : Type 0 where
  pub name : Text
  pub client_certificate : Text
  pub client_certificate_data : Text
  pub client_key : Text
  pub client_key_data : Text
  pub token : Text
  pub token_file : Text
  pub username : Text
  pub password : Text
  pub uses_exec : Bool
  pub uses_auth_provider : Bool
  pub file_path : Text

pub record Context : Type 0 where
  pub name : Text
  pub cluster_name : Text
  pub user_name : Text
  pub namespace : Text
  pub file_path : Text
  pub cluster : Option Cluster
  pub user : Option User

pub record File : Type 0 where
  pub path : Text
  pub name : Text
  pub is_directory : Bool
  pub size : ℕ
  pub modified_at : ℕ

pub data AuthType : Type 0 where
  client_certificate token basic exec auth_provider no_credentials : AuthType

abbrev pub max_size : ℕ
max_size = 4194304

abbrev starts_with_dot : Text → Bool
starts_with_dot [] = false
starts_with_dot (c ∷ s) = leb c 46 && leb 46 c

abbrev pub is_candidate : File → Bool
is_candidate f = not f.is_directory && not (starts_with_dot f.name) && leb f.size max_size

abbrev pub is_default : File → Bool
is_default f = text_eq f.name (codes "config")

-- `KubeconfigAuthTypeCatalog`
unfoldable pub title : AuthType → Text
title client_certificate = codes "Client certificate"
title token = codes "Bearer token"
title basic = codes "User name and password"
title exec = codes "Exec credential plugin"
title auth_provider = codes "Auth provider plugin"
title no_credentials = codes "No credentials"

unfoldable pub reason : AuthType → Text
reason exec =
    codes
      "this context runs an external command to obtain its credentials, and exec credential plugins arrive in a later version"
reason auth_provider =
    codes
      "this context relies on an auth provider plugin such as OIDC, and those arrive in a later version"
reason _ = []

abbrev pub is_supported : AuthType → Bool
is_supported exec = false
is_supported auth_provider = false
is_supported _ = true

unfoldable pub auth_type : User → AuthType
auth_type u =
    if u.uses_exec
    then exec
    else if u.uses_auth_provider
    then auth_provider
    else if filled u.client_certificate_data || filled u.client_certificate
    then client_certificate
    else if filled u.token || filled u.token_file
    then token
    else if filled u.username
    then basic
    else no_credentials

-- The getters of a context.
abbrev pub effective_namespace : Context → Text
effective_namespace c = if filled c.namespace then c.namespace else codes "default"

unfoldable pub context_auth_type : Context → AuthType
unfolding auth_type
context_auth_type c = elim c.user [ none ↦ no_credentials | some u ↦ auth_type u ]
