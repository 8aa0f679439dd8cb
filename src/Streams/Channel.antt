-- ===== src/Streams/Channel.antt =====
-- frontend/src/infrastructure/channel/KubeChannelSubscription.ts: an exec or attach channel. The
-- base64 decoder of TerminalBytes is a parameter, since `atob` is the browser's.
pub mod Delivery
mod Tests
use kubiq.Base.{Bool, true, false, List, [], ◌∷◌, Option, none, some, String, str_eq, if◌then◌else◌}
use kubiq.Streams.Inbox.{
  Inbox, Handled, listen as subscribe, shut, accept as take, attach as replay,
}

pub data Status : Type 0 where
  eof closed error : Status

pub record Message : Type 0 where
  pub channel_id : String
  pub stream : Option String
  pub payload : Option String
  pub error : Option String
  pub status : Option Status
  pub reason : Option String

-- `B` is the type of decoded bytes.
pub data Call (B : Type 0) : Type 0 where
  on_data : String → B → Call B
  on_error : String → Call B
  on_close : Status → String → Call B

pub read_status : Option String → Status
read_status none = Status.error
read_status (some s) =
    if str_eq s "eof" then eof else if str_eq s "closed" then closed else Status.error

abbrev pub or_text : Option String → String → String
or_text none other = other
or_text (some s) other = s

-- What the three listeners make of an event's data.
abbrev pub data_message : Option String → Option String → Option String → Message
data_message id stream payload = record {
  channel_id = or_text id "";
  stream = some (or_text stream "stdout");
  payload = some (or_text payload "");
  error = none;
  status = none;
  reason = none;
}

abbrev pub error_message : Option String → Option String → Message
error_message id details = record {
  channel_id = or_text id "";
  stream = none;
  payload = none;
  error = some (or_text details "");
  status = none;
  reason = none;
}

pub close_message : Option String → Option String → Option String → Message
unfolding read_status
close_message id raw reason = record {
  channel_id = or_text id "";
  stream = none;
  payload = none;
  error = none;
  status = some (read_status raw);
  reason = some (or_text reason "");
}

abbrev pub id_of : Message → String
id_of m = m.channel_id

module _ {B : Type 0} (decode : String → B) where
  abbrev pub call : Call B → Bool → Handled (Unit {0}) (Call B)
  call c ends = record { inner = tt; calls = c ∷ []; ends = ends }

  pub dispatch_status : Option Status → Option String → Handled (Unit {0}) (Call B)
  dispatch_status none reason = record { inner = tt; calls = []; ends = false }
  dispatch_status (some s) reason = call (on_close s (or_text reason "")) true

  pub dispatch_error : Option String → Option Status → Option String → Handled (Unit {0}) (Call B)
  unfolding dispatch_status
  dispatch_error (some details) status reason = call (on_error details) false
  dispatch_error none status reason = dispatch_status status reason

  pub dispatch_payload :
      Message → Option String → Option String → Option Status → Handled (Unit {0}) (Call B)
  unfolding dispatch_error
  dispatch_payload m (some chunk) error' status =
      call (on_data (or_text m.stream "stdout") (decode chunk)) false
  dispatch_payload m none error' status = dispatch_error error' status m.reason

  unfoldable pub dispatch : Message → Unit {0} → Handled (Unit {0}) (Call B)
  unfolding dispatch_payload
  dispatch m u = dispatch_payload m m.payload m.error m.status

  pub accept : Message → Inbox Message (Unit {0}) → Inbox Message (Unit {0}) × List (Call B)
  unfolding take
  accept = take id_of dispatch

  pub attach : String → Inbox Message (Unit {0}) → Inbox Message (Unit {0}) × List (Call B)
  unfolding replay
  attach = replay id_of dispatch

pub listen : Inbox Message (Unit {0}) → Inbox Message (Unit {0})
unfolding subscribe
listen = subscribe 3

pub cancel : Inbox Message (Unit {0}) → Inbox Message (Unit {0})
unfolding shut
cancel = shut
