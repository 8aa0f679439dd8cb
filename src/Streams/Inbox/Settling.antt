-- ===== src/Streams/Inbox/Settling.antt =====
-- How often an inbox ends: a count that every end raises by one.
use kubiq.Base.{ℕ, ◌+◌, ◌≡◌, List, [], ◌∷◌, ◌++◌, arith, String, if◌then◌else◌}
use kubiq.Streams.Inbox.{Inbox, Handled, shut, settle, accept, accept_all, attach}

-- The ends that an inbox has had.
abbrev pub ends_of : {M S : Type 0} → Inbox M S → ℕ
ends_of b = if b.closed then 1 else 0

module _ {M S O : Type 0} (id_of : M → String) (handle : M → S → Handled S O) (count : List O → ℕ)
    (count-nil : count [] ≡ 0)
    (count-append : (xs ys : List O) → count (xs ++ ys) ≡ count xs + count ys)
    (count-handle : (m : M) (s : S)
      → count (handle m s).calls ≡ (if (handle m s).ends then 1 else 0)) where
  pub ends_of-accept :
      (m : M) (b : Inbox M S)
      → ends_of b + count (accept id_of handle m b).1 ≡ ends_of (accept id_of handle m b).0
  unfolding accept settle shut
  ends_of-accept m b = ground (arith, count-nil, count-handle m b.inner)

  pub ends_of-accept_all :
      (ms : List M) (b : Inbox M S)
      → ends_of b + count (accept_all id_of handle ms b).1
        ≡ ends_of (accept_all id_of handle ms b).0
  unfolding accept_all
  ends_of-accept_all [] b = ground (arith, count-nil)
  ends_of-accept_all (m ∷ ms) b =
      let r = accept id_of handle m b in
      ground (
        arith,
        ends_of-accept m b,
        ends_of-accept_all ms r.0,
        count-append r.1 (accept_all id_of handle ms r.0).1,
      )

  pub ends_of-attach :
      (id : String) (b : Inbox M S)
      → ends_of b + count (attach id_of handle id b).1 ≡ ends_of (attach id_of handle id b).0
  unfolding attach
  ends_of-attach id b = ends_of-accept_all b.pending (record b { id = id; pending = [] })
