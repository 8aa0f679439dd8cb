-- ===== src/Streams/Process.antt =====
-- frontend/src/infrastructure/process/ProcessRun.ts: the output and the exit of a process. The
-- browser's `atob` and `TextDecoder` are parameters: `decode` with `stream: true`, and `finish` for
-- the decode without input, each from a decoder's state to its new one.
pub mod Exits
use kubiq.Base.{
  pos, ℕ, ℤ, negsuc, Bool, true, false, List, [], ◌∷◌, ◌++◌, Option, none, some, String, str_eq,
  if◌then◌else◌,
}
use kubiq.Streams.Inbox.{
  Inbox, Handled, fresh, listen as subscribe, shut, accept as take, attach as replay,
}

pub record Message : Type 0 where
  pub process_id : String
  pub chunk : Option String
  pub is_error : Bool
  pub code : Option ℤ

pub data Call : Type 0 where
  on_output : String → Bool → Call
  on_exit : ℤ → Call

pub record Decoders (D : Type 0) : Type 0 where
  pub output : D
  pub errors : D

abbrev pub killed_code : ℤ
killed_code = negsuc 0

abbrev pub id_of : Message → String
id_of m = m.process_id

abbrev pub or_else {ℓ} : {A : Type ℓ} → Option A → A → A
or_else none other = other
or_else (some a) other = a

-- What the listeners make of an event's data: one for each output stream, and one for the exit.
abbrev pub chunk_message : Option String → Option String → Bool → Message
chunk_message id payload is_error = record {
  process_id = or_else id "";
  chunk = some (or_else payload "");
  is_error = is_error;
  code = none;
}

abbrev pub exit_message : Option String → Option ℤ → Message
exit_message id code = record {
  process_id = or_else id "";
  chunk = none;
  is_error = false;
  code = some (or_else code (pos 0));
}

-- `if (text !== '') this.sink.onOutput(text, isError)`
pub output_calls : String → Bool → List Call
output_calls text is_error = if str_eq text "" then [] else on_output text is_error ∷ []

module _ {D B : Type 0} (atob : String → Option B) (no_bytes : B) (decode : D → B → D × String)
    (finish : D → D × String) where
  abbrev pub or_none : Option B → B
  or_none none = no_bytes
  or_none (some b) = b

  -- An `atob` that throws gives no bytes.
  abbrev pub bytes : String → B
  bytes chunk = or_none (atob chunk)

  pub emit : String → Bool → Decoders D → Decoders D × List Call
  unfolding output_calls
  emit chunk true s =
      let (errors, text) = decode s.errors (bytes chunk) in
      (record s { errors = errors }, output_calls text true)
  emit chunk false s =
      let (output, text) = decode s.output (bytes chunk) in
      (record s { output = output }, output_calls text false)

  -- `complete` past its guard, and without `finished` and `release`.
  pub trailing : ℤ → Decoders D → Decoders D × List Call
  unfolding output_calls
  trailing code s =
      let (output, text) = finish s.output in
      let (errors, error_text) = finish s.errors in
      (
        record { output = output; errors = errors },
        output_calls text false ++ (output_calls error_text true ++ on_exit code ∷ []),
      )

  pub dispatch_chunk : Option String → Bool → Option ℤ → Decoders D → Handled (Decoders D) Call
  unfolding emit trailing
  dispatch_chunk (some chunk) is_error code s =
      let (s', calls) = emit chunk is_error s in record { inner = s'; calls = calls; ends = false }
  dispatch_chunk none is_error (some code) s =
      let (s', calls) = trailing code s in record { inner = s'; calls = calls; ends = true }
  dispatch_chunk none is_error none s = record { inner = s; calls = []; ends = false }

  unfoldable pub dispatch : Message → Decoders D → Handled (Decoders D) Call
  unfolding dispatch_chunk
  dispatch m s = dispatch_chunk m.chunk m.is_error m.code s

  pub accept : Message → Inbox Message (Decoders D) → Inbox Message (Decoders D) × List Call
  unfolding take
  accept = take id_of dispatch

  pub attach : String → Inbox Message (Decoders D) → Inbox Message (Decoders D) × List Call
  unfolding replay
  attach = replay id_of dispatch

  pub complete : ℤ → Inbox Message (Decoders D) → Inbox Message (Decoders D) × List Call
  unfolding trailing shut
  complete code b =
      let (s, calls) = trailing code b.inner in
      if b.closed then (b, []) else (shut (record b { inner = s }), calls)

  pub cancel : ℤ → Inbox Message (Decoders D) → Inbox Message (Decoders D) × List Call
  unfolding complete
  cancel = complete

  -- `kill` up to its wait: the id that `Kill` is called with, if it is.
  pub kill : Inbox Message (Decoders D) → Option String
  kill b = if b.closed then none else if str_eq b.id "" then none else some b.id

  -- `kill` where `Kill` threw.
  pub kill_failed : Inbox Message (Decoders D) → Inbox Message (Decoders D) × List Call
  unfolding complete
  kill_failed = complete killed_code

pub listen : {D : Type 0} → Inbox Message (Decoders D) → Inbox Message (Decoders D)
unfolding subscribe
listen = subscribe 3
