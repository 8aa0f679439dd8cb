-- ===== src/Streams/Download.antt =====
-- frontend/src/infrastructure/download/DownloadRun.ts: a download's progress, and the outcome that it
-- settles. The outcome's promise is the first of the calls `resolve` and `reject`.
pub mod Settled
use kubiq.Base.{
  ℕ, Bool, true, false, ◌||◌, List, [], ◌∷◌, Option, none, some, String, str_eq, if◌then◌else◌,
}
use kubiq.Streams.Inbox.{
  Inbox, Handled, listen as subscribe, shut, accept as take, attach as replay,
}

pub record Done : Type 0 where
  pub success : Bool
  pub cancelled : Bool
  pub path : String
  pub size : ℕ
  pub sha256 : String
  pub error : String

pub record Message : Type 0 where
  pub download_id : String
  pub progress : Option (ℕ × ℕ)
  pub done : Option Done

pub record Outcome : Type 0 where
  pub cancelled : Bool
  pub path : String
  pub size : ℕ
  pub sha256 : String

-- An ApiError: its message and its details.
pub record Failure : Type 0 where
  pub message : String
  pub details : String

pub data Call : Type 0 where
  on_progress : (received total : ℕ) → Call
  resolve : Outcome → Call
  reject : Failure → Call

abbrev pub failure_message : String
failure_message = "The download failed"

abbrev pub Run : Type 0
Run = Inbox Message (Unit {0})

abbrev pub id_of : Message → String
id_of m = m.download_id

abbrev pub or_else {ℓ} : {A : Type ℓ} → Option A → A → A
or_else none other = other
or_else (some a) other = a

-- What the two listeners make of an event's data, whose fields have the types that the core sends.
abbrev pub progress_message : Option String → Option ℕ → Option ℕ → Message
progress_message id received total = record {
  download_id = or_else id "";
  progress = some (or_else received 0, or_else total 0);
  done = none;
}

abbrev pub done_message :
    Option String
    → Option Bool
    → Option Bool
    → Option String
    → Option ℕ
    → Option String
    → Option String
    → Message
done_message id success cancelled path size sha256 details = record {
  download_id = or_else id "";
  progress = none;
  done = some (record {
    success = or_else success false;
    cancelled = or_else cancelled false;
    path = or_else path "";
    size = or_else size 0;
    sha256 = or_else sha256 "";
    error = or_else details "";
  });
}

-- `complete`: what it settles the outcome with.
pub settled_by : Done → Call
settled_by d =
    if d.success || d.cancelled
    then resolve
        (record { cancelled = d.cancelled; path = d.path; size = d.size; sha256 = d.sha256 })
    else reject (record { message = failure_message; details = d.error })

pub dispatch_progress : Option (ℕ × ℕ) → Option Done → Handled (Unit {0}) Call
unfolding settled_by
dispatch_progress (some (received, total)) ending = record {
  inner = tt;
  calls = on_progress received total ∷ [];
  ends = false;
}
dispatch_progress none (some d) = record { inner = tt; calls = settled_by d ∷ []; ends = true }
dispatch_progress none none = record { inner = tt; calls = []; ends = false }

unfoldable pub dispatch : Message → Unit {0} → Handled (Unit {0}) Call
unfolding dispatch_progress
dispatch m u = dispatch_progress m.progress m.done

pub listen : Run → Run
unfolding subscribe
listen = subscribe 2

pub accept : Message → Run → Run × List Call
unfolding take
accept = take id_of dispatch

pub attach : String → Run → Run × List Call
unfolding replay
attach = replay id_of dispatch

pub finish : Run → Run
unfolding shut
finish = shut

pub fail : Failure → Run → Run × List Call
unfolding finish
fail e b = if b.closed then (b, []) else (finish b, reject e ∷ [])

-- `cancel` up to its wait: the id that `Cancel` is called with, if it is.
pub cancel : Run → Option String
cancel b = if b.closed then none else if str_eq b.id "" then none else some b.id

-- `cancel` where `Cancel` threw. There is no look at `finished` here.
pub cancel_failed : Run → Run × List Call
unfolding finish
cancel_failed b =
    (finish b, resolve (record { cancelled = true; path = ""; size = 0; sha256 = "" }) ∷ [])
