-- ===== src/Terminal/Session/Replay.antt =====
-- attachView and onData of TerminalSession.ts: what a view is written.
use kubiq.Terminal.Scrollback.{concat, snapshot, append}
use kubiq.Terminal.Scrollback.Suffix.{append_no_bytes}
use kubiq.Terminal.Session.{
  attach_view, Call, write_view, on_state, forget, cleanup, channel_close, channel_write,
  channel_resize, Session, enter, publish, on_data,
}
use kubiq.Base.{
  length, ◌==◌, ap₂, true, ℕ, ◌≡◌, refl, ap, sym, ◌∙◌, false, List, [], ◌∷◌, ◌++◌, append_assoc,
  append-nil, arith, if◌then◌else◌,
}

-- What the view is written, in order.
pub written : List Call → List ℕ
written [] = []
written (write_view bytes ∷ calls) = bytes ++ written calls
written (_ ∷ calls) = written calls

written-append : (xs ys : List Call) → written (xs ++ ys) ≡ written xs ++ written ys
unfolding written
written-append [] ys = refl
written-append (write_view bytes ∷ xs) ys =
    ap (λ r. bytes ++ r) (written-append xs ys) ∙ sym (append_assoc bytes (written xs) (written ys))
written-append (on_state state failure hint ∷ xs) ys = written-append xs ys
written-append (forget ∷ xs) ys = written-append xs ys
written-append (cleanup ∷ xs) ys = written-append xs ys
written-append (channel_close id ∷ xs) ys = written-append xs ys
written-append (channel_write id bytes ∷ xs) ys = written-append xs ys
written-append (channel_resize id cols rows ∷ xs) ys = written-append xs ys

pub data_all : List (List ℕ) → Session → Session × List Call
data_all [] s = (s, [])
data_all (d ∷ ds) s =
    let (s', calls) = on_data d s in let (s'', more) = data_all ds s' in (s'', calls ++ more)

on_data_lem :
    (d : List ℕ) (s : Session)
    → s.disposed ≡ false
    → ((on_data d s).0.disposed ≡ false)
      × ((on_data d s).0.view ≡ s.view)
      × ((on_data d s).0.buffer ≡ append d s.buffer)
      × (written (on_data d s).1 ≡ (if s.view then d else []))
unfolding on_data enter publish written
on_data_lem [] s h = ground (arith, append_no_bytes s.buffer)
on_data_lem (x ∷ xs) s h = ground (arith, append-nil (x ∷ xs))

data_all_lem :
    (ds : List (List ℕ)) (s : Session)
    → s.disposed ≡ false
    → ((data_all ds s).0.disposed ≡ false)
      × ((data_all ds s).0.view ≡ s.view)
      × (written (data_all ds s).1 ≡ (if s.view then concat ds else []))
unfolding data_all concat written
data_all_lem [] s h = (h, refl, ground arith)
data_all_lem (d ∷ ds) s h =
    let first = on_data_lem d s h in
    let rest = data_all_lem ds (on_data d s).0 first.0 in
    (
      rest.0,
      rest.1 ∙ first.1,
      written-append (on_data d s).1 (data_all ds (on_data d s).0).1
          ∙ ground (arith, first.1, first.3, rest.2),
    )

replay_written : (r : List ℕ) → written (if length r == 0 then [] else write_view r ∷ []) ≡ r
unfolding written
replay_written [] = refl
replay_written (x ∷ xs) = ground (arith, append-nil (x ∷ xs))

written-attach_view :
    (s : Session)
    → (written (attach_view s).1 ≡ snapshot s.buffer)
      × ((attach_view s).0.view ≡ true)
      × ((attach_view s).0.disposed ≡ s.disposed)
unfolding attach_view written
written-attach_view s = (replay_written (snapshot s.buffer), refl, refl)

-- A view of a session that is not disposed is written what the buffer held when it came, and then all
-- of the output that follows, in order.
pub written-replay :
    (ds : List (List ℕ)) (s : Session)
    → s.disposed ≡ false
    → written (attach_view s).1 ++ written (data_all ds (attach_view s).0).1
      ≡ snapshot s.buffer ++ concat ds
written-replay ds s h =
    let seen = written-attach_view s in
    let rest = data_all_lem ds (attach_view s).0 (seen.2 ∙ h) in
    ap₂ (λ a b. a ++ b) seen.0 (rest.2 ∙ ap (λ b. if b then concat ds else []) seen.1)
