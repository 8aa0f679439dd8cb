-- ===== src/Streams/Pty.antt =====
-- frontend/src/infrastructure/process/PtySubscription.ts: the output and the exit of a local shell.
-- The base64 decoder of TerminalBytes is a parameter, since `atob` is the browser's.
pub mod Delivery
use kubiq.Base.{ℕ, ℤ, pos, true, false, List, [], ◌∷◌, Option, none, some, String}
use kubiq.Streams.Inbox.{
  Inbox, Handled, listen as subscribe, shut, accept as take, attach as replay,
}

pub record Message : Type 0 where
  pub process_id : String
  pub stream : Option String
  pub payload : Option String
  pub code : Option ℤ

-- `B` is the type of decoded bytes.
pub data Call (B : Type 0) : Type 0 where
  on_data : String → B → Call B
  on_exit : ℤ → Call B

abbrev pub or_else {ℓ} : {A : Type ℓ} → Option A → A → A
or_else none other = other
or_else (some a) other = a

-- What the listeners make of an event's data: one for each output stream, and one for the exit.
abbrev pub data_message : String → Option String → Option String → Message
data_message name id payload = record {
  process_id = or_else id "";
  stream = some name;
  payload = some (or_else payload "");
  code = none;
}

abbrev pub exit_message : Option String → Option ℤ → Message
exit_message id code = record {
  process_id = or_else id "";
  stream = none;
  payload = none;
  code = some (or_else code (pos 0));
}

abbrev pub id_of : Message → String
id_of m = m.process_id

module _ {B : Type 0} (decode : String → B) where
  pub dispatch_payload : Option String → Option String → Option ℤ → Handled (Unit {0}) (Call B)
  dispatch_payload stream (some chunk) code = record {
    inner = tt;
    calls = on_data (or_else stream "stdout") (decode chunk) ∷ [];
    ends = false;
  }
  dispatch_payload stream none (some code) = record {
    inner = tt;
    calls = on_exit code ∷ [];
    ends = true;
  }
  dispatch_payload stream none none = record { inner = tt; calls = []; ends = false }

  unfoldable pub dispatch : Message → Unit {0} → Handled (Unit {0}) (Call B)
  unfolding dispatch_payload
  dispatch m u = dispatch_payload m.stream m.payload m.code

  pub accept : Message → Inbox Message (Unit {0}) → Inbox Message (Unit {0}) × List (Call B)
  unfolding take
  accept = take id_of dispatch

  pub attach : String → Inbox Message (Unit {0}) → Inbox Message (Unit {0}) × List (Call B)
  unfolding replay
  attach = replay id_of dispatch

pub listen : Inbox Message (Unit {0}) → Inbox Message (Unit {0})
unfolding subscribe
listen = subscribe 3

pub cancel : Inbox Message (Unit {0}) → Inbox Message (Unit {0})
unfolding shut
cancel = shut
