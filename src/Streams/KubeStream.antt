-- ===== src/Streams/KubeStream.antt =====
-- frontend/src/infrastructure/entityRepo/kube/transport/KubeStreamSubscriptionBase.ts: a watch or a
-- log stream. The calls of `onChunk`, `onFailure` and `onClosed` are values.
pub mod Delivery
use kubiq.Base.{
  ℕ, ◌≡◌, refl, Bool, true, false, ◌||◌, List, [], ◌∷◌, ◌++◌, Option, none, some, String, str_eq,
  if◌then◌else◌,
}
use kubiq.Streams.Inbox.{
  Inbox, Handled, fresh, listen as subscribe, shut, accept as take, attach as replay,
}

pub data Status : Type 0 where
  eof stopped error : Status

pub record Message : Type 0 where
  pub stream_id : String
  pub chunk : Option String
  pub error : Option String
  pub status : Option Status

pub data Call : Type 0 where
  on_chunk on_failure : String → Call
  on_closed : Status → Call

abbrev pub Subscription : Type 0
Subscription = Inbox Message (Unit {0})

-- The raw status of a close event; it may be missing.
pub read_status : Option String → Status
read_status none = Status.error
read_status (some s) =
    if str_eq s "eof" then eof else if str_eq s "stopped" then stopped else Status.error

abbrev pub or_empty : Option String → String
or_empty none = ""
or_empty (some s) = s

-- What the three listeners make of an event's data.
abbrev pub chunk_message : Option String → Option String → Message
chunk_message id payload = record {
  stream_id = or_empty id;
  chunk = some (or_empty payload);
  error = none;
  status = none;
}

abbrev pub error_message : Option String → Option String → Message
error_message id details = record {
  stream_id = or_empty id;
  chunk = none;
  error = some (or_empty details);
  status = none;
}

pub close_message : Option String → Option String → Message
unfolding read_status
close_message id raw = record {
  stream_id = or_empty id;
  chunk = none;
  error = none;
  status = some (read_status raw);
}

abbrev pub call : Call → Bool → Handled (Unit {0}) Call
call c ends = record { inner = tt; calls = c ∷ []; ends = ends }

abbrev pub no_call : Handled (Unit {0}) Call
no_call = record { inner = tt; calls = []; ends = false }

-- A message without any of the three is ignored.
dispatch_status : Option Status → Handled (Unit {0}) Call
dispatch_status none = no_call
dispatch_status (some s) = call (on_closed s) true

dispatch_error : Option String → Option Status → Handled (Unit {0}) Call
unfolding dispatch_status
dispatch_error (some details) status = call (on_failure details) false
dispatch_error none status = dispatch_status status

dispatch_chunk : Option String → Option String → Option Status → Handled (Unit {0}) Call
unfolding dispatch_error
dispatch_chunk (some data') error' status = call (on_chunk data') false
dispatch_chunk none error' status = dispatch_error error' status

pub dispatch : Message → Unit {0} → Handled (Unit {0}) Call
unfolding dispatch_chunk
dispatch m u = dispatch_chunk m.chunk m.error m.status

abbrev pub id_of : Message → String
id_of m = m.stream_id

pub listen : Subscription → Subscription
unfolding subscribe
listen = subscribe 3

pub accept : Message → Subscription → Subscription × List Call
unfolding take
accept = take id_of dispatch

pub attach : String → Subscription → Subscription × List Call
unfolding replay
attach = replay id_of dispatch

pub cancel : Subscription → Subscription
unfolding shut
cancel = shut

pub close : Status → Subscription → Subscription × List Call
unfolding shut
close s b = if b.closed then (b, []) else (shut b, on_closed s ∷ [])

-- `stop` up to its wait: the id that `StopStream` is called with, if it is.
pub stop : Subscription → Subscription × List Call × Option String
unfolding close
stop b =
    let (b', calls) = close stopped b in
    if b.closed
    then (b, [], none)
    else if str_eq b.id ""
    then (b', calls, none)
    else (b, [], some b.id)

-- `stop` behind its wait, whether `StopStream` answered or threw.
pub stop_settled : Subscription → Subscription × List Call
unfolding close
stop_settled = close stopped
