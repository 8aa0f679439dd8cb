-- ===== src/Streams/Inbox.antt =====
-- The part that the six subscription classes of frontend/src/infrastructure share, each with its own
-- copy: an id that is not known at first, messages held until it is, and a flag for the end.
pub mod Delivery
pub mod Settling
use kubiq.Base.{ℕ, ◌+◌, Bool, true, false, not, List, [], ◌∷◌, ◌++◌, String, str_eq, if◌then◌else◌}

-- `inner` is what else the class keeps.
pub record Inbox (M S : Type 0) : Type 0 where
  pub id : String
  pub closed : Bool
  pub pending : List M
  pub listeners : ℕ
  pub inner : S

-- What a class does with a message: its new state, its calls of the handler, and whether it ends.
pub record Handled (S O : Type 0) : Type 0 where
  pub inner : S
  pub calls : List O
  pub ends : Bool

abbrev pub fresh : {M S : Type 0} → S → Inbox M S
fresh s = record { id = ""; closed = false; pending = []; listeners = 0; inner = s }

-- `listen`: the classes subscribe to `n` events.
unfoldable pub listen : {M S : Type 0} → ℕ → Inbox M S → Inbox M S
listen n b = record b { listeners = b.listeners + n }

-- `closed = true` and `release()`.
unfoldable pub shut : {M S : Type 0} → Inbox M S → Inbox M S
shut b = record b { closed = true; listeners = 0 }

module _ {M S O : Type 0} (id_of : M → String) (handle : M → S → Handled S O) where
  -- What is left of `accept` behind its guards.
  unfoldable pub settle : Inbox M S → Handled S O → Inbox M S × List O
  unfolding shut
  settle b h =
      let after = record b { inner = h.inner } in (if h.ends then shut after else after, h.calls)

  unfoldable pub accept : M → Inbox M S → Inbox M S × List O
  accept m b =
      if b.closed
      then (b, [])
      else if str_eq b.id ""
      then (record b { pending = b.pending ++ m ∷ [] }, [])
      else if not (str_eq (id_of m) b.id)
      then (b, [])
      else settle b (handle m b.inner)

  -- Messages in a row, with all calls of the handler.
  unfoldable pub accept_all : List M → Inbox M S → Inbox M S × List O
  accept_all [] b = (b, [])
  accept_all (m ∷ ms) b =
      let (b', calls) = accept m b in let (b'', more) = accept_all ms b' in (b'', calls ++ more)

  -- Takes the held messages out, and accepts them again.
  unfoldable pub attach : String → Inbox M S → Inbox M S × List O
  attach id b = accept_all b.pending (record b { id = id; pending = [] })
