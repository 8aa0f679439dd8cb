-- ===== src/PortForward/Target.antt =====
-- frontend/src/application/services/portForward/models/PortForwardTarget.ts with
-- frontend/src/domain/entities/portForward/PortForwardRemotePort.ts, and resolvePod and resolveService of
-- PortForwardService.ts: the pod and the port behind a forward. `normal` is what PortForwardRemotePort.of
-- does with a text: JavaScript's trim, its digit test and Number. A pod lists the ports of its init
-- containers and then those of its containers.
use kubiq.Base.{
  ℕ, Bool, false, ◌&&◌, ◌||◌, not, List, [], ◌∷◌, Option, none, some, String, str_eq, ltb, leb,
  ◌==◌, if◌then◌else◌,
}
use Prim.Native.String.{◌++◌ as ◌<>◌}

pub data RemotePort : Type 0 where
  number : ℕ → RemotePort
  named : String → RemotePort

pub record ContainerPort : Type 0 where
  pub name : Option String
  pub container_port : Option ℕ
  pub protocol : Option String

pub record Pod : Type 0 where
  pub name : String
  pub is_deleting : Bool
  pub phase : String
  pub ports : List ContainerPort

pub record ServicePort : Type 0 where
  pub name : Option String
  pub port : ℕ
  pub protocol : Option String
  pub target_port : Option RemotePort

pub record Service : Type 0 where
  pub ports : List ServicePort
  pub selector : List (String × String)

pub record Backend : Type 0 where
  pub pod_name : String
  pub target_port : ℕ

-- TPortForwardPort
pub record Port : Type 0 where
  pub port : ℕ
  pub name : String
  pub protocol : String

abbrev pub max_port : ℕ
max_port = 65535

abbrev pub in_range : ℕ → Bool
in_range port = ltb 0 port && leb port max_port

-- `value ?? ''`
abbrev pub or_empty : Option String → String
or_empty none = ""
or_empty (some t) = t

abbrev pub or_zero : Option ℕ → ℕ
or_zero none = 0
or_zero (some n) = n

unfoldable pub is_serving : Pod → Bool
is_serving pod = not pod.is_deleting && str_eq pod.phase "Running"

-- The first pod that serves.
unfoldable pub first_serving : List Pod → Option Pod
unfolding is_serving
first_serving [] = none
first_serving (pod ∷ pods) = if is_serving pod then some pod else first_serving pods

unfoldable pub selector_of : List (String × String) → String
selector_of [] = ""
selector_of ((k, v) ∷ []) = k <> "=" <> v
selector_of ((k, v) ∷ p ∷ ps) = (k <> "=" <> v) <> "," <> selector_of (p ∷ ps)

-- `find(port => port.name === wanted)`
unfoldable pub declared : String → List ContainerPort → Option ContainerPort
declared wanted [] = none
declared wanted (p ∷ ps) =
    let rest = declared wanted ps in
    if elim p.name [ none ↦ false | some n ↦ str_eq n wanted ] then some p else rest

-- `protocol || defaultProtocol`
abbrev pub protocol_of : Option String → String
protocol_of none = "TCP"
protocol_of (some p) = if str_eq p "" then "TCP" else p

abbrev pub port_of : ℕ → Option String → Option String → Port
port_of port name protocol = record {
  port = port;
  name = or_empty name;
  protocol = protocol_of protocol;
}

unfoldable pub same_declaration : Port → Port → Bool
same_declaration p q = p.port == q.port && str_eq p.name q.name && str_eq p.protocol q.protocol

unfoldable pub listed : Port → List Port → Bool
unfolding same_declaration
listed p [] = false
listed p (q ∷ qs) = same_declaration p q || listed p qs

-- The ports that no earlier port declares the same as.
unfoldable pub first_declarations : List Port → List Port → List Port
unfolding listed
first_declarations seen [] = []
first_declarations seen (p ∷ ps) =
    let rest = first_declarations (p ∷ seen) ps in if listed p seen then rest else p ∷ rest

unfoldable pub open_ports : List ContainerPort → List Port
open_ports [] = []
open_ports (p ∷ ps) =
    let rest = open_ports ps in
    if ltb 0 (or_zero p.container_port)
    then port_of (or_zero p.container_port) p.name p.protocol ∷ rest
    else rest

pub pod_ports : Pod → List Port
unfolding open_ports first_declarations
pod_ports pod = first_declarations [] (open_ports pod.ports)

pub service_ports : List ServicePort → List Port
service_ports [] = []
service_ports (p ∷ ps) =
    let rest = service_ports ps in
    if ltb 0 p.port then port_of p.port p.name p.protocol ∷ rest else rest

-- What `resolve` throws.
pub data Unresolved : Type 0 where
  pod_gone no_port no_service no_backend : Unresolved

pub data Result (A : Type 0) : Type 0 where
  ok : A → Result A
  thrown : Unresolved → Result A

module _ (normal : String → RemotePort) where
  abbrev pub of : RemotePort → RemotePort
  of (number n) = number n
  of (named t) = normal t

  abbrev pub fits : RemotePort → ServicePort → Bool
  fits (number n) p = p.port == n
  fits (named t) p = str_eq (or_empty p.name) t

  unfoldable pub service_port : List ServicePort → RemotePort → Option ServicePort
  service_port [] wanted = none
  service_port (p ∷ ps) wanted =
      let rest = service_port ps wanted in if fits (of wanted) p then some p else rest

  abbrev pub port_in : Pod → RemotePort → ℕ
  port_in pod (number n) = if in_range n then n else 0
  port_in pod (named t) = elim (declared t pod.ports) [
    | none ↦ 0
    | some p ↦ or_zero p.container_port
  ]

  unfoldable pub container_port : Pod → RemotePort → ℕ
  unfolding declared
  container_port pod remote = port_in pod (of remote)

  unfoldable pub target_port_of : Pod → ServicePort → ℕ
  unfolding container_port
  target_port_of pod p = elim p.target_port [
    | none ↦ p.port
    | some (number n) ↦
        let found = container_port pod (number n) in if found == 0 then p.port else found
    | some (named t) ↦
        let found = container_port pod (named t) in
        if str_eq t "" then p.port else if found == 0 then p.port else found
  ]

  -- resolvePod, from the pod that the cluster answers with.
  unfoldable pub resolve_pod : String → RemotePort → Option Pod → Result Backend
  unfolding container_port
  resolve_pod name remote none = thrown pod_gone
  resolve_pod name remote (some pod) =
      let port = container_port pod remote in
      if pod.is_deleting
      then thrown pod_gone
      else if port == 0
      then thrown no_port
      else ok (record { pod_name = name; target_port = port })

  -- resolveService up to its wait for the pods: the port, or what it throws. Without a selector it
  -- does not ask for pods.
  unfoldable pub resolve_service : RemotePort → Option Service → Result ServicePort
  unfolding service_port selector_of
  resolve_service remote none = thrown no_service
  resolve_service remote (some service) = elim (service_port service.ports remote) [
    | none ↦ thrown no_port
    | some p ↦ if str_eq (selector_of service.selector) "" then thrown no_backend else ok p
  ]

  -- The rest of it, from the running pods that the selector finds.
  unfoldable pub resolve_backend : ServicePort → List Pod → Result Backend
  unfolding first_serving target_port_of
  resolve_backend p pods = elim (first_serving pods) [
    | none ↦ thrown no_backend
    | some pod ↦ ok (record { pod_name = pod.name; target_port = target_port_of pod p })
  ]
