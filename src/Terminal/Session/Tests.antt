-- ===== src/Terminal/Session/Tests.antt =====
-- Runs of a terminal session.
use kubiq.Base.{◌≡◌, refl, false, List, [], ◌∷◌, ◌++◌, Option, none, String}
use kubiq.Terminal.Scrollback.{new as new_scrollback, append, snapshot, concat}
use kubiq.Terminal.Session.{
  running, no_hint, eof, Call, on_state, channel_write, is_writable, write, Parsed, Session, new,
  attach, on_close, attach_view,
}
use kubiq.Terminal.Session.Early.{attach-on_close}
use kubiq.Terminal.Session.Replay.{written, data_all, written-replay}

abbrev untrimmed : String → String
untrimmed s = s

abbrev unparsed : String → Option Parsed
unparsed s = none

abbrev closed_early : Session × List Call
closed_early = on_close untrimmed unparsed eof "" (new (new_scrollback 4))

abbrev attached_late : Session × List Call
attached_late = attach "c1" closed_early.0

attach-on_close_example :
    (is_writable closed_early.0 ≡ false)
    × ((closed_early.1 ≡ on_state closed_early.0.state closed_early.0.failure no_hint ∷ [])
        × ((attached_late.1 ≡ on_state running "" no_hint ∷ [])
            × (write (7 ∷ []) attached_late.0 ≡ channel_write "c1" (7 ∷ []) ∷ [])))
attach-on_close_example =
    attach-on_close untrimmed unparsed "c1" "" eof (new (new_scrollback 4)) (7 ∷ []) refl refl

abbrev shown : Session
shown = new (append (1 ∷ 2 ∷ []) (new_scrollback 4))

written-replay_example :
    written (attach_view shown).1 ++ written (data_all ((3 ∷ []) ∷ []) (attach_view shown).0).1
    ≡ snapshot shown.buffer ++ concat ((3 ∷ []) ∷ [])
written-replay_example = written-replay ((3 ∷ []) ∷ []) shown refl
