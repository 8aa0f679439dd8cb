-- ===== src/Terminal/Session.antt =====
-- frontend/src/application/services/terminal/models/TerminalSession.ts with its subclass
-- ChannelTerminalSession.ts and ChannelExitReason.ts: a terminal on a channel. The channel adapter's
-- calls, the view's writes and the sink's states are values. JavaScript's `trim` and JSON.parse are
-- the parameters `trim` and `parse_json`.
pub mod Replay
pub mod Early
mod Tests
use kubiq.Terminal.Scrollback.{Scrollback, append, snapshot}
use kubiq.Base.{
  ℕ, Bool, true, false, not, ◌&&◌, ◌||◌, List, [], ◌∷◌, ◌++◌, Option, none, some, String, str_eq,
  length, ◌==◌, if◌then◌else◌,
}

pub data State : Type 0 where
  starting running ended failed : State

pub data Hint : Type 0 where
  no_hint kubectl unsupported desktop : Hint

pub data Status : Type 0 where
  eof closed error : Status

pub data Call : Type 0 where
  on_state : State → String → Hint → Call
  write_view : List ℕ → Call
  forget cleanup : Call
  channel_close : String → Call
  channel_write : String → List ℕ → Call
  channel_resize : String → (cols rows : ℕ) → Call

pub record Session : Type 0 where
  pub buffer : Scrollback
  pub disposed : Bool
  -- Whether a view, a `forget` and a cleanup are held.
  pub view : Bool
  pub held : Bool
  pub cleans : Bool
  pub state : State
  pub failure : String
  pub hint : Hint
  pub channel_id : String
  pub transport_failure : String

abbrev pub new : Scrollback → Session
new buffer = record {
  buffer = buffer;
  disposed = false;
  view = false;
  held = false;
  cleans = false;
  state = starting;
  failure = "";
  hint = no_hint;
  channel_id = "";
  transport_failure = "";
}

-- `===` on states and on hints.
abbrev pub state_eq : State → State → Bool
state_eq starting starting = true
state_eq running running = true
state_eq ended ended = true
state_eq failed failed = true
state_eq _ _ = false

abbrev pub hint_eq : Hint → Hint → Bool
hint_eq no_hint no_hint = true
hint_eq kubectl kubectl = true
hint_eq unsupported unsupported = true
hint_eq desktop desktop = true
hint_eq _ _ = false

pub hold : Session → Session
hold s = record s { held = true }

pub attach_view : Session → Session × List Call
attach_view s =
    let replay = snapshot s.buffer in
    (record s { view = true }, if length replay == 0 then [] else write_view replay ∷ [])

pub detach_view : Session → Session
detach_view s = record s { view = false }

pub is_writable : Session → Bool
is_writable s = not s.disposed && (not (state_eq s.state ended) && not (state_eq s.state failed))

pub dispose : Session → Session × List Call
dispose s =
    (record s { disposed = true; view = false; held = false }, if s.held then forget ∷ [] else [])

pub publish : List ℕ → Session → Session × List Call
publish data' s =
    let after = record s { buffer = append data' s.buffer } in
    if s.disposed || length data' == 0
    then (s, [])
    else (after, if s.view then write_view data' ∷ [] else [])

pub enter : State → String → Hint → Session → Session × List Call
enter state failure hint s =
    if state_eq s.state state && (str_eq s.failure failure && hint_eq s.hint hint)
    then (s, [])
    else (
      record s { state = state; failure = failure; hint = hint },
      on_state state failure hint ∷ [],
    )

pub fail : String → Hint → Session → Session × List Call
unfolding enter
fail = enter failed

-- ChannelTerminalSession
abbrev pub dropped : String
dropped = "The cluster closed this session"

pub attach : String → Session → Session × List Call
unfolding enter
attach id s =
    if s.disposed
    then (s, channel_close id ∷ [])
    else enter running "" no_hint (record s { channel_id = id })

pub on_cleanup : Session → Session
on_cleanup s = record s { cleans = true }

pub on_data : List ℕ → Session → Session × List Call
unfolding enter publish
on_data data' s =
    let (s', calls) = enter running "" no_hint s in
    let (s'', more) = publish data' s' in (s'', calls ++ more)

pub on_error : String → Session → Session
on_error details s = record s { transport_failure = details }

-- What JSON.parse returned: whether it is an object that is no array, and two of its fields where
-- they are strings.
pub record Parsed : Type 0 where
  pub is_object : Bool
  pub status : Option String
  pub message : Option String

abbrev pub success : String
success = "Success"

abbrev pub is_text : Option String → String → Bool
is_text none expected = false
is_text (some s) expected = str_eq s expected

abbrev pub filled_or : Option String → String → String
filled_or none other = other
filled_or (some s) other = if str_eq s "" then other else s

-- `a || b` on strings.
abbrev pub or_text : String → String → String
or_text s other = if str_eq s "" then other else s

module _ (trim : String → String) (parse_json : String → Option Parsed) where
  abbrev pub explained : String → Option Parsed → String
  explained trimmed none = trimmed
  explained trimmed (some p) =
      if not p.is_object
      then trimmed
      else if is_text p.status success
      then ""
      else filled_or p.message trimmed

  -- ChannelExitReason.text
  pub exit_text : String → String
  exit_text reason =
      let trimmed = trim reason in
      if str_eq trimmed "" then "" else explained trimmed (parse_json trimmed)

  pub on_close : Status → String → Session → Session × List Call
  unfolding exit_text enter
  on_close status reason s =
      let text = exit_text reason in
      if s.disposed then (s, []) else elim status [
        | error ↦ enter failed (or_text text (or_text s.transport_failure dropped)) no_hint s
        | _ ↦ enter ended text no_hint s
      ]

pub write : List ℕ → Session → List Call
unfolding is_writable
write data' s = if is_writable s then channel_write s.channel_id data' ∷ [] else []

pub resize : (cols rows : ℕ) → Session → List Call
resize cols rows s = channel_resize s.channel_id cols rows ∷ []

pub stop : Session → Session × List Call
unfolding dispose
stop s =
    let (s', calls) = dispose (record s { channel_id = ""; cleans = false }) in
    (s', calls ++ (channel_close s.channel_id ∷ (if s.cleans then cleanup ∷ [] else [])))
