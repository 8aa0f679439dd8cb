-- ===== src/Kubeconfig/Tests.antt =====
-- Tests of the kubeconfig services on a folder and two files.
use kubiq.Kubeconfig.{Outcome, done, refused, Cluster, User, Context, File, filled, auth_type}
use kubiq.Kubeconfig.Shape.{
  ClusterDocument, ContextDocument, UserDocument, Document, Parsed, absent, null, listed, faulty,
  mapping,
}
use kubiq.Kubeconfig.Document.{
  entries, named_in, by_name, mapping_of, document, from_document, get_clusters, get_users, get_all,
  get_current_context_name, is_kubeconfig, resolve, folder_of, position,
}
use kubiq.Kubeconfig.Locate.{
  Environment, value, failure, lost, Scan, includes, distinct, distinct_from, split_by, expand,
  expand_all, split, named, home_folder, without_slashes, insert, sort, candidates, candidates_in,
  classify, visit_one, visit, visit_folders, scan, starts_with, fingerprint, stamps_of, stamp, join,
}
use kubiq.Kubeconfig.Locate.Found.{Unique, folders_among, answered_folder}
use kubiq.Kubeconfig.Locate.Visits.{answered_true}
use kubiq.Kubeconfig.Locate.Scanned.{offered, offered_in, scan-files}
use kubiq.Kubeconfig.Read.{Contents, Read, get, keep_first, keep, read_one, read_files, read}
use kubiq.Kubeconfig.Read.First.{first_in, current_in}
use kubiq.Kubeconfig.Read.Merged.{bound, map_some, read-bound}
use kubiq.Kubeconfig.Read.Faults.{readable, faults, read-readable}
use kubiq.Kubeconfig.Connect.{
  ConnectionSpec, query, material, decode, token_from, spec_with, spec_for, spec_of,
  build_connection_spec,
}
use kubiq.Kubeconfig.Connect.Spec.{permitted, MadeOf, build_connection_spec-MadeOf}
use kubiq.Resource.Filter.{is_empty, trim, trim_start, trim_end, is_space}
use kubiq.Base.{
  digits, ◌≡◌, refl, ◌++◌, Bool, true, false, not, ◌&&◌, ◌||◌, List, [], ◌∷◌, Option, none, some,
  String, Text, codes, text_eq, if◌then◌else◌,
}

abbrev no_cluster : ClusterDocument
no_cluster = record {
  server = some (codes "s");
  certificate_authority = none;
  certificate_authority_data = some (codes "Y2E");
  insecure_skip_tls_verify = some true;
  tls_server_name = none;
  proxy_url = none;
}

abbrev with_token : UserDocument
with_token = record {
  client_certificate = none;
  client_certificate_data = none;
  client_key = none;
  client_key_data = none;
  token = some (codes " t ");
  token_file = none;
  username = none;
  password = none;
  exec = false;
  auth_provider = false;
}

abbrev names : ContextDocument
names = record { cluster = some (codes "k"); user = some (codes "u"); namespace = none }

-- One file declares the cluster and its user, the other the context.
abbrev first_document : Document
first_document = record {
  kind = some (codes "Config");
  current_context = none;
  clusters = listed ((record { name = some (codes "k"); body = some no_cluster }) ∷ []);
  contexts = absent;
  users = listed ((record { name = some (codes "u"); body = some with_token }) ∷ []);
}

abbrev second_document : Document
second_document = record {
  kind = none;
  current_context = some (codes "c");
  clusters = null;
  contexts = listed (
      (record { name = none; body = none })
      ∷ (record { name = some (codes "c"); body = some names })
      ∷ []);
  users = absent;
}

abbrev parsed : Text → Parsed
parsed t =
    if text_eq t (codes "1")
    then mapping first_document
    else if text_eq t (codes "2")
    then mapping second_document
    else faulty none

abbrev disk : Text → Outcome (Option Text)
disk p =
    if text_eq p (codes "/a")
    then done (some (codes "1"))
    else if text_eq p (codes "/d/b")
    then done (some (codes "2"))
    else if text_eq p (codes "/d/x")
    then done (some (codes "?"))
    else done none

abbrev file : String → String → File
file path name = record {
  path = codes path;
  name = codes name;
  is_directory = false;
  size = 10;
  modified_at = 7;
}

abbrev folder : File
folder = record (file "/d" "d") { is_directory = true }

abbrev stat : Text → Outcome (Option File)
stat p = if text_eq p (codes "/d") then done (some folder) else done none

abbrev list : Text → Outcome (Option (List File))
list p =
    if text_eq p (codes "/d")
    then done (some (file "/d/x" "x" ∷ file "/d/.s" ".s" ∷ file "/d/b" "config" ∷ []))
    else done none

abbrev env : Environment
env = record {
  available = true;
  get = λ _. value (codes "/a:/d: /a");
  user_home_dir = failure;
  path_separator = value (codes ":");
  expand = λ _. lost;
}

abbrev follows : Text → Text → Bool
follows s t = false

abbrev b64 : Text → Option Text
b64 t = some (codes "ca")

abbrev found : Scan
found = record {
  files = codes "/a" ∷ codes "/d/b" ∷ [];
  problems =
      (record {
        path = codes "/d/x";
        error = record {
          message = codes "The kubeconfig file could not be read";
          details = some (codes "/d/x — the file is not valid YAML");
        };
      })
      ∷ [];
}

scanned : scan env stat list (is_kubeconfig disk parsed) follows [] ≡ done found
unfolding scan classify visit_folders visit visit_one candidates_in candidates sort insert named
    home_folder distinct distinct_from includes expand expand_all split split_by starts_with
    without_slashes trim trim_start trim_end is_space is_kubeconfig mapping_of position text_eq
scanned = refl

scan-files_example :
    Unique found.files
    × (includes (codes "/d/b") found.files ≡ (
        (includes (codes "/d/b") (named env []) && not (answered_folder (stat (codes "/d/b"))))
        || (answered_true (is_kubeconfig disk parsed (codes "/d/b"))
            && (offered list (codes "/d/b") (folders_among stat (named env []))
                || (not (is_empty (home_folder env))
                    && offered_in list (codes "/d/b") (home_folder env))))))
scan-files_example =
    scan-files env stat list (is_kubeconfig disk parsed) follows [] found (codes "/d/b") scanned

abbrev asked : Text → Outcome Contents
asked = query disk parsed b64

abbrev cluster : Cluster
cluster = record {
  name = codes "k";
  server = codes "s";
  certificate_authority = [];
  certificate_authority_data = codes "Y2E";
  insecure_skip_tls_verify = true;
  tls_server_name = [];
  proxy_url = [];
  file_path = codes "/a";
}

abbrev user : User
user = record {
  name = codes "u";
  client_certificate = [];
  client_certificate_data = [];
  client_key = [];
  client_key_data = [];
  token = codes " t ";
  token_file = [];
  username = [];
  password = [];
  uses_exec = false;
  uses_auth_provider = false;
  file_path = codes "/a";
}

abbrev context : Context
context = record {
  name = codes "c";
  cluster_name = codes "k";
  user_name = codes "u";
  namespace = [];
  file_path = codes "/d/b";
  cluster = some cluster;
  user = some user;
}

abbrev merged : Read
merged = record {
  files = found.files;
  contexts = context ∷ [];
  current_context_name = codes "c";
  problems = found.problems;
}

found-read : read asked (done found) ≡ done merged
unfolding read read_files read_one keep keep_first get query get_clusters get_users get_all
    get_current_context_name from_document document mapping_of entries named_in by_name trim
    trim_start trim_end is_space text_eq
found-read = refl

read-bound_example :
    (s : Scan) × (done found ≡ done s)
    × (merged.files ≡ s.files)
    × (get (λ (c : Context). c.name) (codes "c") merged.contexts
        ≡ map_some
            (bound asked s.files)
            (first_in asked (λ x. x.contexts) (λ (c : Context). c.name) (codes "c") s.files))
    × (merged.current_context_name ≡ current_in asked s.files)
read-bound_example = read-bound asked (done found) merged (codes "c") found-read

-- The second file does not answer.
abbrev broken : Text → Outcome Contents
broken p =
    if text_eq p (codes "/a")
    then done (record { clusters = []; users = []; contexts = context ∷ []; current = codes "c" })
    else refused (record { message = codes "m"; details = none })

read-readable_example :
    (r : Read) × (read broken
        (done (record found { files = readable broken found.files; problems = [] }))
      ≡ done r)
    × (read broken (done found)
        ≡ done (record r {
          files = found.files;
          problems = found.problems ++ faults broken found.files;
        }))
unfolding text_eq
read-readable_example = read-readable broken found ((λ t e. cc), ((λ t e. cc), tt))

abbrev connection : ConnectionSpec
connection = record {
  server = codes "s";
  ca_pem = codes "ca";
  client_cert_pem = [];
  client_key_pem = [];
  token = codes "t";
  username = [];
  password = [];
  insecure_skip_tls_verify = true;
  server_name = [];
  proxy_url = [];
  timeout_seconds = 0;
}

connected :
    build_connection_spec disk parsed b64 env stat list follows (codes "c") [] ≡ done connection
unfolding scan classify visit_folders visit visit_one candidates_in candidates sort insert named
    home_folder distinct distinct_from includes expand expand_all split split_by starts_with
    without_slashes trim trim_start trim_end is_space is_kubeconfig mapping_of position text_eq read
    read_files read_one keep keep_first get query get_clusters get_users get_all
    get_current_context_name from_document document entries named_in by_name build_connection_spec
    spec_of spec_for spec_with material decode token_from auth_type
connected = refl

build_connection_spec-MadeOf_example :
    (s : Scan) × (scan env stat list (is_kubeconfig disk parsed) follows [] ≡ done s)
    × (c : Context) × (first_in asked
          (λ x. x.contexts)
          (λ (x : Context). x.name)
          (codes "c")
          s.files
        ≡ some c)
    × (k : Cluster) × ((bound asked s.files c).cluster ≡ some k)
    × (filled k.server ≡ true)
    × (permitted (bound asked s.files c).user ≡ true)
    × MadeOf disk parsed b64 k (bound asked s.files c).user connection
build_connection_spec-MadeOf_example =
    build_connection_spec-MadeOf disk parsed b64 env stat list follows (codes "c") [] connection
      connected

-- A file's stamp, and the folder of a relative path.
fingerprinted :
    fingerprint env stat list (is_kubeconfig disk parsed) follows []
    ≡ done (codes "/a|absent\n/d/b|10|7\n/d/x|10|7")
unfolding fingerprint stamps_of stamp join digits candidates_in candidates sort insert named
    home_folder distinct distinct_from includes expand expand_all split split_by starts_with
    without_slashes trim trim_start trim_end is_space text_eq
fingerprinted = refl

resolved : resolve (codes "/d/b") (codes "ca.pem") ≡ codes "/d/ca.pem"
unfolding resolve folder_of
resolved = refl
