-- ===== src/Logs/Session.antt =====
-- frontend/src/application/services/podLogs/models/PodLogSession.ts: one log that is shown. A
-- subscription is named by a number; the calls of the sink, of `forget` and of a subscription's `stop`
-- are values. The keys that the session passes on unchanged are left out.
pub mod Race
pub mod Chunks
mod Tests
use kubiq.Logs.Buffer.{Buffer, append, flush}
use kubiq.Base.{
  ℕ, Bool, true, false, ◌&&◌, List, [], ◌∷◌, ◌++◌, Option, none, some, Text, codes, text_eq, length,
  ◌==◌, if◌then◌else◌,
}

pub data State : Type 0 where
  connecting streaming restarted ended failed : State

pub data Status : Type 0 where
  eof stopped error : Status

pub data Call : Type 0 where
  on_state : State → Text → Call
  on_lines : (size dropped : ℕ) → Call
  stop_subscription : ℕ → Call
  forget : Call

pub record Session : Type 0 where
  pub buffer : Buffer
  pub follow : Bool
  pub subscription : Option ℕ
  -- Whether a `forget` is held.
  pub held : Bool
  pub state : State
  pub failure : Text
  pub disposed : Bool

abbrev pub new : Buffer → Bool → Session
new buffer follow = record {
  buffer = buffer;
  follow = follow;
  subscription = none;
  held = false;
  state = connecting;
  failure = [];
  disposed = false;
}

abbrev pub dropped_message : Text
dropped_message = codes "The cluster stopped sending this log"

-- `===` on states.
abbrev pub state_eq : State → State → Bool
state_eq connecting connecting = true
state_eq streaming streaming = true
state_eq restarted restarted = true
state_eq ended ended = true
state_eq failed failed = true
state_eq _ _ = false

pub hold : Session → Session
hold s = record s { held = true }

pub attach : ℕ → Session → Session × List Call
attach n s =
    if s.disposed then (s, stop_subscription n ∷ []) else (record s { subscription = some n }, [])

pub enter : State → Text → Session → Session × List Call
enter state failure s =
    if state_eq s.state state && text_eq s.failure failure
    then (s, [])
    else (record s { state = state; failure = failure }, on_state state failure ∷ [])

abbrev pub publish : Session → List Call
publish s = on_lines (length s.buffer.buffered) s.buffer.dropped ∷ []

pub on_chunk : Text → Session → Session × List Call
unfolding enter
on_chunk chunk s =
    let (s', calls) = enter streaming [] s in
    let (b, lines) = append s'.buffer chunk in
    let after = record s' { buffer = b } in
    if s.disposed
    then (s, [])
    else if lines == 0
    then (after, calls)
    else (after, calls ++ publish after)

pub on_failure : (message details : Text) → Session → Session
on_failure message [] s = record s { failure = message }
on_failure message (c ∷ details) s = record s { failure = message ++ (codes ": " ++ (c ∷ details)) }

-- The state and the failure that a close ends in.
pub close_state : Status → Session → State × Text
close_state error s = (failed, elim s.failure [ [] ↦ dropped_message | c ∷ f ↦ c ∷ f ])
close_state eof s = (if s.follow then restarted else ended, [])
close_state stopped s = (ended, [])

pub on_close : Status → Session → Session × List Call
unfolding close_state enter
on_close status s =
    let flushed = record s { buffer = flush s.buffer } in
    let (state, failure) = close_state status s in
    let (s', calls) = enter state failure flushed in
    if s.disposed then (s, []) else (s', publish flushed ++ calls)

pub dispose : Session → Session × List Call
dispose s = (record s { disposed = true; held = false }, if s.held then forget ∷ [] else [])

abbrev pub stop_open : Option ℕ → List Call
stop_open none = []
stop_open (some n) = stop_subscription n ∷ []

pub stop : Session → Session × List Call
unfolding dispose
stop s =
    let (s', calls) = dispose s in
    (record s' { subscription = none }, calls ++ stop_open s'.subscription)
