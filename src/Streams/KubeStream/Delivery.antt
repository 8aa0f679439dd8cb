-- ===== src/Streams/KubeStream/Delivery.antt =====
-- accept, attach, stop and cancel of KubeStreamSubscriptionBase.ts: what the handler is told.
mod Tests
use kubiq.Base.{
  ◌≡◌, refl, ap, ◌∙◌, ◌≢◌, inl, inr, not, Bool-cases, List, [], ◌∷◌, ◌++◌, Option, none, some,
  String, str_eq, if◌then◌else◌,
}
use kubiq.Streams.Inbox.{Handled}
use kubiq.Streams.Inbox.Delivery.{heard, session, session-calls}
use kubiq.Streams.KubeStream.{
  Status, Message, Call, on_chunk, on_failure, on_closed, dispatch, dispatch_chunk, id_of,
}

-- What one message under the id says, before what the later ones say.
abbrev pub spoken : Option String → Option String → Option Status → List Call → List Call
spoken (some chunk) error status later = on_chunk chunk ∷ later
spoken none (some error) status later = on_failure error ∷ later
spoken none none (some status) later = on_closed status ∷ []
spoken none none none later = later

-- What the messages under one id say, up to the first close.
pub transcript : String → List Message → List Call
transcript id [] = []
transcript id (m ∷ ms) =
    let later = transcript id ms in
    if not (str_eq m.stream_id id) then later else spoken m.chunk m.error m.status later

dispatch-spoken :
    (chunk error : Option String) (status : Option Status) (h : Unit {0} → Handled (Unit {0}) Call)
    → let d = dispatch_chunk chunk error status in
      (if d.ends then d else record (h d.inner) { calls = d.calls ++ (h d.inner).calls }).calls
      ≡ spoken chunk error status (h tt).calls
unfolding dispatch_chunk
dispatch-spoken (some chunk) error status h = refl
dispatch-spoken none (some error) status h = refl
dispatch-spoken none none (some status) h = refl
dispatch-spoken none none none h = refl

heard-transcript :
    (id : String) (ms : List Message) → (heard id_of dispatch id ms tt).calls ≡ transcript id ms
unfolding heard transcript dispatch
heard-transcript id [] = refl
heard-transcript id (m ∷ ms) = elim (Bool-cases (not (str_eq m.stream_id id))) [
  | inl e ↦ rw e (heard-transcript id ms)
  | inr e ↦ rw e (
      dispatch-spoken m.chunk m.error m.status (heard id_of dispatch id ms)
      ∙ ap (spoken m.chunk m.error m.status) (heard-transcript id ms))
]

-- Whether a stream's messages came before its id was known or after, the handler is told what the
-- messages under that id say, in order and up to the first close; messages of other streams are
-- ignored, and after a close nothing is told. The id is not empty.
pub session-transcript :
    (id : String) (early late : List Message)
    → id ≢ ""
    → (session id_of dispatch 3 id early late tt).1 ≡ transcript id (early ++ late)
session-transcript id early late e =
    session-calls id_of dispatch 3 id early late tt e ∙ heard-transcript id (early ++ late)
