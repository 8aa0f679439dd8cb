-- ===== src/Streams/Forward/Delivery.antt =====
-- accept and attach of KubeForwardSubscription.ts: what the handler is told.
mod Tests
use kubiq.Base.{
  ◌≡◌, refl, ap, ◌∙◌, ◌≢◌, inl, inr, not, Bool-cases, List, [], ◌∷◌, ◌++◌, Option, none, some,
  String, str_eq, if◌then◌else◌,
}
use kubiq.Streams.Inbox.{Handled}
use kubiq.Streams.Inbox.Delivery.{heard, session, session-calls}
use kubiq.Streams.Forward.{Message, Call, on_error, on_close, id_of, dispatch, dispatch_error}

-- What one message under the id says, before what the later ones say.
abbrev pub spoken : Option String → Option String → List Call → List Call
spoken (some details) status later = on_error details ∷ later
spoken none (some s) later = on_close s ∷ []
spoken none none later = later

-- What the messages under one id say, up to the first close.
pub transcript : String → List Message → List Call
transcript id [] = []
transcript id (m ∷ ms) =
    let later = transcript id ms in
    if not (str_eq m.forward_id id) then later else spoken m.error m.status later

dispatch-spoken :
    (error status : Option String) (h : Unit {0} → Handled (Unit {0}) Call)
    → let d = dispatch_error error status in
      (if d.ends then d else record (h d.inner) { calls = d.calls ++ (h d.inner).calls }).calls
      ≡ spoken error status (h tt).calls
unfolding dispatch_error
dispatch-spoken (some details) status h = refl
dispatch-spoken none (some s) h = refl
dispatch-spoken none none h = refl

heard-transcript :
    (id : String) (ms : List Message) → (heard id_of dispatch id ms tt).calls ≡ transcript id ms
unfolding heard transcript dispatch
heard-transcript id [] = refl
heard-transcript id (m ∷ ms) = elim (Bool-cases (not (str_eq m.forward_id id))) [
  | inl e ↦ rw e (heard-transcript id ms)
  | inr e ↦ rw e (
      dispatch-spoken m.error m.status (heard id_of dispatch id ms)
      ∙ ap (spoken m.error m.status) (heard-transcript id ms))
]

-- Whether the messages of a port forward came before its id was known or after, the handler is told
-- what the messages under that id say, in order and up to the first close. The id is not empty.
pub forward_session-transcript :
    (id : String) (early late : List Message)
    → id ≢ ""
    → (session id_of dispatch 2 id early late tt).1 ≡ transcript id (early ++ late)
forward_session-transcript id early late e =
    session-calls id_of dispatch 2 id early late tt e ∙ heard-transcript id (early ++ late)
