-- ===== src/Watch/Scope.antt =====
-- frontend/src/application/services/resourceWatch/models/ResourceWatchScope.ts: one watch of a list.
-- Time is an argument. `listService.watch` is awaited: `start` ends in its call, and `opened` or
-- `open_failed` is what follows its answer. Streams and objects are named by numbers and texts.
pub mod Retry
use kubiq.Base.{
  ℕ, zero, suc, ◌+◌, ◌-◌, ◌*◌, ◌^◌, min, ◌≡◌, refl, Bool, true, false, List, [], ◌∷◌, ◌++◌, Option,
  none, some, String, str_eq, ltb, ◌==◌, if◌then◌else◌,
}

-- ResourceWatchLimits
abbrev pub minimum_lifetime : ℕ
minimum_lifetime = 1000

abbrev pub max_consecutive_flaps : ℕ
max_consecutive_flaps = 3

abbrev pub retry_base_delay : ℕ
retry_base_delay = 500

abbrev pub retry_max_delay : ℕ
retry_max_delay = 15000

pub data Status : Type 0 where
  eof stopped error : Status

pub data EventType : Type 0 where
  added modified deleted bookmark error expired : EventType

-- What the code reads of an object: its version and its key.
pub record KubeObject : Type 0 where
  pub version : String
  pub key : String

pub record Event : Type 0 where
  pub type : EventType
  pub object : Option KubeObject

pub data Call : Type 0 where
  watch : String → Call
  stop_stream : ℕ → Call
  sink_accept : EventType → KubeObject → Call
  sink_resync sink_stale : Call
  set_timer : ℕ → Call
  clear_timer : Call

pub record Scope : Type 0 where
  pub stream : Option ℕ
  pub resource_version : String
  pub opened_at : ℕ
  pub flaps : ℕ
  pub attempt : ℕ
  -- Whether a retry is scheduled.
  pub retry : Bool
  pub stopped : Bool

pub new : String → Scope
new version = record {
  stream = none;
  resource_version = version;
  opened_at = 0;
  flaps = 0;
  attempt = 0;
  retry = false;
  stopped = false;
}

pub start : ℕ → Scope → Scope × List Call
start now s =
    if s.stopped then (s, []) else (record s { opened_at = now }, watch s.resource_version ∷ [])

-- `this.stream = ` the answer of `watch`: whether the scope was stopped meanwhile is not read.
pub opened : ℕ → Scope → Scope × List Call
opened stream s = (record s { stream = some stream }, [])

-- The rejection of a retried `start`.
pub open_failed : Scope → Scope × List Call
open_failed s = (s, sink_stale ∷ [])

pub cancel_retry : Scope → Scope × List Call
cancel_retry s = if s.retry then (record s { retry = false }, clear_timer ∷ []) else (s, [])

abbrev pub stop_open : Option ℕ → List Call
stop_open none = []
stop_open (some stream) = stop_stream stream ∷ []

pub stop : Scope → Scope × List Call
unfolding cancel_retry
stop s =
    let (s', calls) = cancel_retry (record s { stopped = true }) in
    (record s' { stream = none }, calls ++ stop_open s'.stream)

pub remember : KubeObject → Scope → Scope
remember o s = if str_eq o.version "" then s else record s { resource_version = o.version }

abbrev pub remembered : Option KubeObject → Scope → Scope
remembered none s = s
remembered (some o) s = remember o s

pub event_calls : EventType → Option KubeObject → List Call
event_calls expired object = sink_resync ∷ []
event_calls EventType.error object = sink_stale ∷ []
event_calls bookmark object = []
event_calls _ none = []
event_calls type (some o) = sink_accept type o ∷ []

pub on_event : Event → Scope → Scope × List Call
unfolding remember event_calls
on_event e s = if s.stopped then (s, []) else (remembered e.object s, event_calls e.type e.object)

pub can_retry : ℕ → Scope → Scope × Bool
can_retry now s =
    let counted =
      if ltb (now - s.opened_at) minimum_lifetime
      then record s { flaps = s.flaps + 1; attempt = s.attempt + 1 }
      else record s { flaps = 0; attempt = 0 } in
    (counted, ltb counted.flaps max_consecutive_flaps)

pub retry_delay : Scope → ℕ
retry_delay s =
    if s.attempt == 0 then 0 else min (retry_base_delay * 2 ^ (s.attempt - 1)) retry_max_delay

pub schedule_retry : Scope → Scope × List Call
unfolding cancel_retry retry_delay
schedule_retry s =
    let (s', calls) = cancel_retry s in
    (record s' { retry = true }, calls ++ set_timer (retry_delay s') ∷ [])

-- `onClose` past its guards: the status is `eof`.
pub close_eof : ℕ → Scope → Scope × List Call
unfolding can_retry schedule_retry
close_eof now s =
    let (s', retries) = can_retry now s in
    if retries then schedule_retry s' else (s', sink_stale ∷ [])

pub on_close : Status → ℕ → Scope → Scope × List Call
unfolding close_eof
on_close status now s =
    let s' = record s { stream = none } in
    if s.stopped then (s', []) else elim status [
      | Status.stopped ↦ (s', [])
      | Status.error ↦ (s', sink_stale ∷ [])
      | eof ↦ close_eof now s'
    ]

-- The timer of `scheduleRetry` fires.
pub retry_fired : ℕ → Scope → Scope × List Call
unfolding start
retry_fired now s = start now (record s { retry = false })
