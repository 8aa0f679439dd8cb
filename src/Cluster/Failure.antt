-- ===== src/Cluster/Failure.antt =====
-- frontend/src/domain/models/kube/failure/KubeFailureCatalog.ts and KubeNetworkFailure.ts: what kind
-- of failure a request ended in. JavaScript's `toLowerCase` is the parameter `lower`.
use text.Mathlib.Text.{starts_with}
use kubiq.Base.{ℕ, Bool, true, false, ◌||◌, List, [], ◌∷◌, String, leb, ◌==◌, if◌then◌else◌}

pub data FailureKind : Type 0 where
  unauthorized forbidden missing conflict invalid expired throttled unavailable server_error
        timeout :
      FailureKind
  tls unreachable disconnected unknown : FailureKind

-- `text.includes(marker)`
pub includes : String → String → Bool
includes String.[] marker = starts_with String.[] marker
includes (String.◌∷◌ c text) marker = starts_with (String.◌∷◌ c text) marker || includes text marker

abbrev closed_markers : List String
closed_markers = "unknown session" ∷ "unknown stream" ∷ []

abbrev timeout_markers : List String
timeout_markers =
    "context deadline exceeded" ∷ "client.timeout exceeded" ∷ "timeout awaiting response headers"
    ∷ "tls handshake timeout" ∷ []

abbrev tls_markers : List String
tls_markers = "x509:" ∷ "tls:" ∷ "certificate" ∷ "unknown authority" ∷ []

pub matches : String → List String → Bool
unfolding includes
matches text [] = false
matches text (marker ∷ markers) = includes text marker || matches text markers

pub network_kind : (lower : String → String) → String → FailureKind
unfolding matches
network_kind lower failure =
    let text = lower failure in
    if matches text closed_markers
    then FailureKind.disconnected
    else if matches text timeout_markers
    then FailureKind.timeout
    else if matches text tls_markers
    then FailureKind.tls
    else FailureKind.unreachable

-- KubeFailureCatalog.kindOf
unfoldable pub kind_of : (lower : String → String) → ℕ → String → FailureKind
unfolding network_kind
kind_of lower status failure =
    if status == 0
    then network_kind lower failure
    else if status == 401
    then FailureKind.unauthorized
    else if status == 403
    then FailureKind.forbidden
    else if status == 404
    then FailureKind.missing
    else if status == 409
    then FailureKind.conflict
    else if status == 410
    then FailureKind.expired
    else if status == 422
    then FailureKind.invalid
    else if status == 429
    then FailureKind.throttled
    else if status == 503
    then FailureKind.unavailable
    else if leb 500 status
    then FailureKind.server_error
    else FailureKind.unknown

abbrev pub is_transient : FailureKind → Bool
is_transient FailureKind.throttled = true
is_transient FailureKind.unavailable = true
is_transient FailureKind.server_error = true
is_transient FailureKind.timeout = true
is_transient FailureKind.unreachable = true
is_transient _ = false
