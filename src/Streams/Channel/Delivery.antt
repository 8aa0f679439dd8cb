-- ===== src/Streams/Channel/Delivery.antt =====
-- accept and attach of KubeChannelSubscription.ts: what the handler is told.
use kubiq.Base.{
  ◌≡◌, refl, ap, ◌∙◌, ◌≢◌, inl, inr, not, Bool-cases, List, [], ◌∷◌, ◌++◌, Option, none, some,
  String, str_eq, if◌then◌else◌,
}
use kubiq.Streams.Inbox.{Handled}
use kubiq.Streams.Inbox.Delivery.{heard, session, session-calls}
use kubiq.Streams.Channel.{
  Status, Message, Call, on_data, on_error, on_close, or_text, id_of, dispatch, dispatch_payload,
}

module _ {B : Type 0} (decode : String → B) where
  -- What one message under the id says, before what the later ones say.
  abbrev pub spoken :
      Message → Option String → Option String → Option Status → List (Call B) → List (Call B)
  spoken m (some chunk) error status later =
      on_data (or_text m.stream "stdout") (decode chunk) ∷ later
  spoken m none (some error) status later = on_error error ∷ later
  spoken m none none (some status) later = on_close status (or_text m.reason "") ∷ []
  spoken m none none none later = later

  dispatch-spoken :
      (m : Message) (payload error : Option String) (status : Option Status)
      (h : Unit {0} → Handled (Unit {0}) (Call B))
      → let d = dispatch_payload decode m payload error status in
        (if d.ends then d else record (h d.inner) { calls = d.calls ++ (h d.inner).calls }).calls
        ≡ spoken m payload error status (h tt).calls
  unfolding dispatch_payload
  dispatch-spoken m (some chunk) error status h = refl
  dispatch-spoken m none (some error) status h = refl
  dispatch-spoken m none none (some status) h = refl
  dispatch-spoken m none none none h = refl

  -- What the messages under one id say, up to the first close.
  pub transcript : String → List Message → List (Call B)
  transcript id [] = []
  transcript id (m ∷ ms) =
      let later = transcript id ms in
      if not (str_eq m.channel_id id) then later else spoken m m.payload m.error m.status later

  heard-transcript :
      (id : String) (ms : List Message)
      → (heard id_of (dispatch decode) id ms tt).calls ≡ transcript id ms
  unfolding heard transcript dispatch
  heard-transcript id [] = refl
  heard-transcript id (m ∷ ms) = elim (Bool-cases (not (str_eq m.channel_id id))) [
    | inl e ↦ rw e (heard-transcript id ms)
    | inr e ↦ rw e (
        dispatch-spoken m m.payload m.error m.status (heard id_of (dispatch decode) id ms)
        ∙ ap (spoken m m.payload m.error m.status) (heard-transcript id ms))
  ]

  -- Whether frames came before the channel's id was known or after, the handler is told what the
  -- frames under that id say, in order and up to the first close. The id is not empty.
  pub channel_session-transcript :
      (id : String) (early late : List Message)
      → id ≢ ""
      → (session id_of (dispatch decode) 3 id early late tt).1 ≡ transcript id (early ++ late)
  channel_session-transcript id early late e =
      session-calls id_of (dispatch decode) 3 id early late tt e
      ∙ heard-transcript id (early ++ late)
