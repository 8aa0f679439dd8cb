-- ===== src/Kubeconfig/Shape.antt =====
-- infrastructure/entityRepo/kubeconfig/types: what the YAML parser is asked for.
use kubiq.Base.{Bool, List, Option, Text}

-- The value of a key that a document may not have, or may leave empty.
pub data Section (A : Type 0) : Type 0 where
  absent null : Section A
  listed : List A → Section A

pub record Entry (A : Type 0) : Type 0 where
  pub name : Option Text
  pub body : Option A

pub record ClusterDocument : Type 0 where
  pub server : Option Text
  pub certificate_authority : Option Text
  pub certificate_authority_data : Option Text
  pub insecure_skip_tls_verify : Option Bool
  pub tls_server_name : Option Text
  pub proxy_url : Option Text

pub record ContextDocument : Type 0 where
  pub cluster : Option Text
  pub user : Option Text
  pub namespace : Option Text

pub record UserDocument : Type 0 where
  pub client_certificate : Option Text
  pub client_certificate_data : Option Text
  pub client_key : Option Text
  pub client_key_data : Option Text
  pub token : Option Text
  pub token_file : Option Text
  pub username : Option Text
  pub password : Option Text
  -- Whether there is an object under `exec` and `auth-provider`.
  pub exec : Bool
  pub auth_provider : Bool

pub record Document : Type 0 where
  pub kind : Option Text
  pub current_context : Option Text
  pub clusters : Section (Entry ClusterDocument)
  pub contexts : Section (Entry ContextDocument)
  pub users : Section (Entry UserDocument)

-- What the parser makes of a text: a fault, with its line and column when it is one of syntax,
-- something that is no mapping, or a mapping.
pub data Parsed : Type 0 where
  faulty : Option (Text × Text) → Parsed
  other : Parsed
  mapping : Document → Parsed
