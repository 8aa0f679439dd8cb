-- ===== src/Terminal/Session/Early.antt =====
-- attach, onClose, write and stop of ChannelTerminalSession.ts: what comes before the channel's id is
-- known.
use kubiq.Terminal.Session.{
  starting, running, no_hint, Status, eof, closed, error, on_state, channel_write, Parsed, Session,
  is_writable, attach, on_close, write, enter,
}
use kubiq.Base.{ℕ, ◌≡◌, refl, false, List, [], ◌∷◌, Option, String}

-- In a session that is starting and not disposed, a close that comes before `attach` is undone by it.
-- The close reports the end, once, and the session takes no writes. The attach then reports that the
-- session is running, once, and a write that follows goes to the channel.
pub attach-on_close :
    (trim : String → String) (parse_json : String → Option Parsed) (id reason : String)
    (status : Status) (s : Session) (data' : List ℕ)
    → s.disposed ≡ false
    → s.state ≡ starting
    → let over = on_close trim parse_json status reason s in
      let back = attach id over.0 in
      (is_writable over.0 ≡ false)
      × ((over.1 ≡ on_state over.0.state over.0.failure no_hint ∷ [])
          × ((back.1 ≡ on_state running "" no_hint ∷ [])
              × (write data' back.0 ≡ channel_write id data' ∷ [])))
unfolding attach on_close enter is_writable write
attach-on_close trim parse_json id reason eof s data' d e = simp (d, e) (refl, (refl, (refl, refl)))
attach-on_close trim parse_json id reason closed s data' d e =
    simp (d, e) (refl, (refl, (refl, refl)))
attach-on_close trim parse_json id reason error s data' d e =
    simp (d, e) (refl, (refl, (refl, refl)))
