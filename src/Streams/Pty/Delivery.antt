-- ===== src/Streams/Pty/Delivery.antt =====
-- accept and attach of PtySubscription.ts: what the handler is told.
mod Tests
use kubiq.Base.{
  ℤ, ◌≡◌, refl, ap, ◌∙◌, ◌≢◌, inl, inr, not, Bool-cases, List, [], ◌∷◌, ◌++◌, Option, none, some,
  String, str_eq, if◌then◌else◌,
}
use kubiq.Streams.Inbox.{Handled}
use kubiq.Streams.Inbox.Delivery.{heard, session, session-calls}
use kubiq.Streams.Pty.{Message, Call, on_data, on_exit, or_else, id_of, dispatch, dispatch_payload}

module _ {B : Type 0} (decode : String → B) where
  -- What one message under the id says, before what the later ones say.
  abbrev pub spoken : Option String → Option String → Option ℤ → List (Call B) → List (Call B)
  spoken stream (some chunk) code later = on_data (or_else stream "stdout") (decode chunk) ∷ later
  spoken stream none (some code) later = on_exit code ∷ []
  spoken stream none none later = later

  -- What the messages under one id say, up to the first exit.
  pub transcript : String → List Message → List (Call B)
  transcript id [] = []
  transcript id (m ∷ ms) =
      let later = transcript id ms in
      if not (str_eq m.process_id id) then later else spoken m.stream m.payload m.code later

  dispatch-spoken :
      (stream payload : Option String) (code : Option ℤ)
      (h : Unit {0} → Handled (Unit {0}) (Call B))
      → let d = dispatch_payload decode stream payload code in
        (if d.ends then d else record (h d.inner) { calls = d.calls ++ (h d.inner).calls }).calls
        ≡ spoken stream payload code (h tt).calls
  unfolding dispatch_payload
  dispatch-spoken stream (some chunk) code h = refl
  dispatch-spoken stream none (some code) h = refl
  dispatch-spoken stream none none h = refl

  heard-transcript :
      (id : String) (ms : List Message)
      → (heard id_of (dispatch decode) id ms tt).calls ≡ transcript id ms
  unfolding heard transcript dispatch
  heard-transcript id [] = refl
  heard-transcript id (m ∷ ms) = elim (Bool-cases (not (str_eq m.process_id id))) [
    | inl e ↦ rw e (heard-transcript id ms)
    | inr e ↦ rw e (
        dispatch-spoken m.stream m.payload m.code (heard id_of (dispatch decode) id ms)
        ∙ ap (spoken m.stream m.payload m.code) (heard-transcript id ms))
  ]

  -- Whether a shell's output came before its id was known or after, the handler is told what the
  -- messages under that id say, in order and up to the first exit. The id is not empty.
  pub pty_session-transcript :
      (id : String) (early late : List Message)
      → id ≢ ""
      → (session id_of (dispatch decode) 3 id early late tt).1 ≡ transcript id (early ++ late)
  pty_session-transcript id early late e =
      session-calls id_of (dispatch decode) 3 id early late tt e
      ∙ heard-transcript id (early ++ late)
