-- ===== src/PortForward/Session/State.antt =====
-- The state of a port forward's session, the calls that it makes and the events that it sees:
-- PortForwardSession.ts and what PortForwardService.ts knows of one session.
use kubiq.PortForward.Target.{RemotePort, Pod, Service, ServicePort, Backend}
use kubiq.Base.{ℕ, Bool, true, false, List, Option, String}

pub data Status : Type 0 where
  starting active stopped waiting reconnecting error : Status

abbrev pub is_active : Status → Bool
is_active active = true
is_active _ = false

pub record Runtime : Type 0 where
  pub status : Status
  pub error : String
  pub bound_port : ℕ
  pub pod_name : String
  pub target_port : ℕ

-- PortForwardRecord.idle
abbrev pub idle : Status → String → Runtime
idle status message = record {
  status = status;
  error = message;
  bound_port = 0;
  pod_name = "";
  target_port = 0;
}

-- What a check waits for: nothing, the pod, the service, the pods behind a port of it, the move to a
-- backend, or the end of the listener that it gave up.
pub data Phase : Type 0 where
  resting : Phase
  asking : Phase
  finding : Phase
  choosing : ServicePort → Phase
  moving : Backend → Phase
  abandoning : Phase

pub record Session : Type 0 where
  pub namespace : String
  pub name : String
  pub is_service : Bool
  pub remote_port : RemotePort
  pub forward_id : String
  pub runtime : Runtime
  pub last_error : String
  pub stopped : Bool
  pub checking : Bool
  pub held : Bool
  pub timer : Bool
  pub registered : Bool
  pub phase : Phase

pub data Call : Type 0 where
  report : Runtime → Call
  forget set_timer clear_timer throw_dropped : Call
  stop_forward : String → Call
  retarget : String → Backend → Call

abbrev pub new : String → String → Bool → RemotePort → Session
new namespace name is_service remote_port = record {
  namespace = namespace;
  name = name;
  is_service = is_service;
  remote_port = remote_port;
  forward_id = "";
  runtime = idle starting "";
  last_error = "";
  stopped = false;
  checking = false;
  held = false;
  timer = false;
  registered = false;
  phase = resting;
}

pub data Event : Type 0 where
  opens : String → ℕ → Backend → Event
  holds ticks stops cluster_stops closes stop_done : Event
  fails : String → Event
  pod_answer : Option Pod → Event
  service_answer : Option Service → Event
  pods_answer : List Pod → Event
  moved : Event
  -- The answer that a check waits for is an error, with its text. The end of a listener is no such
  -- answer: KubeForwardAdapter.stop keeps its errors.
  answer_fails : String → Event
