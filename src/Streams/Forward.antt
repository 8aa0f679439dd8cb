-- ===== src/Streams/Forward.antt =====
-- frontend/src/infrastructure/channel/KubeForwardSubscription.ts: the errors and the end of a port
-- forward.
pub mod Delivery
use kubiq.Base.{ℕ, true, false, List, [], ◌∷◌, Option, none, some, String}
use kubiq.Streams.Inbox.{
  Inbox, Handled, listen as subscribe, shut, accept as take, attach as replay,
}

pub record Message : Type 0 where
  pub forward_id : String
  pub error : Option String
  pub status : Option String

pub data Call : Type 0 where
  on_error on_close : String → Call

abbrev pub or_text : Option String → String → String
or_text none other = other
or_text (some s) other = s

-- What the two listeners make of an event's data.
abbrev pub error_message : Option String → Option String → Message
error_message id error' = record {
  forward_id = or_text id "";
  error = some (or_text error' "");
  status = none;
}

abbrev pub close_message : Option String → Option String → Message
close_message id status' = record {
  forward_id = or_text id "";
  error = none;
  status = some (or_text status' "closed");
}

abbrev pub id_of : Message → String
id_of m = m.forward_id

pub dispatch_error : Option String → Option String → Handled (Unit {0}) Call
dispatch_error (some details) status' = record {
  inner = tt;
  calls = on_error details ∷ [];
  ends = false;
}
dispatch_error none (some s) = record { inner = tt; calls = on_close s ∷ []; ends = true }
dispatch_error none none = record { inner = tt; calls = []; ends = false }

unfoldable pub dispatch : Message → Unit {0} → Handled (Unit {0}) Call
unfolding dispatch_error
dispatch m u = dispatch_error m.error m.status

pub listen : Inbox Message (Unit {0}) → Inbox Message (Unit {0})
unfolding subscribe
listen = subscribe 2

pub accept : Message → Inbox Message (Unit {0}) → Inbox Message (Unit {0}) × List Call
unfolding take
accept = take id_of dispatch

pub attach : String → Inbox Message (Unit {0}) → Inbox Message (Unit {0}) × List Call
unfolding replay
attach = replay id_of dispatch

pub cancel : Inbox Message (Unit {0}) → Inbox Message (Unit {0})
unfolding shut
cancel = shut
