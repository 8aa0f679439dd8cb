-- ===== src/Streams/Inbox/Delivery.antt =====
-- Whenever the id becomes known, the handler is called as if it had been known from the start.
use kubiq.Base.{
  ℕ, ◌≡◌, refl, sym, ap, ◌∙◌, ◌≢◌, inl, inr, true, false, not, Bool-cases, List, [], ◌∷◌, ◌++◌,
  append-nil, append_assoc, arith, String, str_eq, str_eq_iff, if◌then◌else◌,
}
use kubiq.Streams.Inbox.{Inbox, Handled, fresh, shut, settle, accept, accept_all, attach}

str_eq_ne : (a b : String) → a ≢ b → str_eq a b ≡ false
str_eq_ne a b h = elim (Bool-cases (str_eq a b)) [
  | inl e ↦ absurd (h ((str_eq_iff a b).0 e))
  | inr e ↦ e
]

module _ {M S O : Type 0} (id_of : M → String) (handle : M → S → Handled S O) where
  -- The messages under one id, up to the first that ends, as one step of the class.
  unfoldable pub heard : String → List M → S → Handled S O
  heard id [] s = record { inner = s; calls = []; ends = false }
  heard id (m ∷ ms) s =
      let h = handle m s in
      let next = heard id ms h.inner in
      let skipped = heard id ms s in
      if not (str_eq (id_of m) id)
      then skipped
      else if h.ends
      then h
      else record next { calls = h.calls ++ next.calls }

  module _ (id : String) (m : M) (ms : List M) (s : S) where
    heard_skipped : str_eq (id_of m) id ≡ false → heard id (m ∷ ms) s ≡ heard id ms s
    unfolding heard
    heard_skipped skip = rw skip

    heard_last :
        str_eq (id_of m) id ≡ true → (handle m s).ends ≡ true → heard id (m ∷ ms) s ≡ handle m s
    unfolding heard
    heard_last hit d = ground arith

    heard_on :
        str_eq (id_of m) id ≡ true
        → (handle m s).ends ≡ false
        → heard id (m ∷ ms) s ≡ (
            let next = heard id ms (handle m s).inner in
            record next { calls = (handle m s).calls ++ next.calls })
    unfolding heard
    heard_on hit d = ground arith

  module _ (b : Inbox M S) (h : Handled S O) where
    settle_last :
        h.ends ≡ true → settle id_of handle b h ≡ (shut (record b { inner = h.inner }), h.calls)
    unfolding settle
    settle_last d = simp d

    settle_on : h.ends ≡ false → settle id_of handle b h ≡ (record b { inner = h.inner }, h.calls)
    unfolding settle
    settle_on d = simp d

  module _ (m : M) (b : Inbox M S) where
    accept_closed : b.closed ≡ true → accept id_of handle m b ≡ (b, [])
    unfolding accept
    accept_closed h = simp h

    accept_held :
        b.closed ≡ false
        → b.id ≡ ""
        → accept id_of handle m b ≡ (record b { pending = b.pending ++ m ∷ [] }, [])
    unfolding accept
    accept_held h e = simp (h, e)

    accept_skipped :
        b.closed ≡ false
        → b.id ≢ ""
        → str_eq (id_of m) b.id ≡ false
        → accept id_of handle m b ≡ (b, [])
    unfolding accept
    accept_skipped h e skip = simp (h, str_eq_ne b.id "" e, skip)

    accept_settled :
        b.closed ≡ false
        → b.id ≢ ""
        → str_eq (id_of m) b.id ≡ true
        → accept id_of handle m b ≡ settle id_of handle b (handle m b.inner)
    unfolding accept
    accept_settled h e hit = simp (h, str_eq_ne b.id "" e, hit)

  settle-heard_nil : (b : Inbox M S) → (b, []) ≡ settle id_of handle b (heard b.id [] b.inner)
  unfolding heard settle
  settle-heard_nil b = refl

  shut-closed : (b : Inbox M S) → (shut b).closed ≡ true
  unfolding shut
  shut-closed b = refl

  -- Settling what ends not, then more, is settling both.
  settle-then :
      (b : Inbox M S) (h k : Handled S O)
      → (let (b', calls) = settle id_of handle (record b { inner = h.inner }) k in
          (b', h.calls ++ calls))
        ≡ settle id_of handle b (record k { calls = h.calls ++ k.calls })
  unfolding settle
  settle-then b h k = refl

  pub accept_all_closed :
      (ms : List M) (b : Inbox M S) → b.closed ≡ true → accept_all id_of handle ms b ≡ (b, [])
  unfolding accept_all
  accept_all_closed [] b h = refl
  accept_all_closed (m ∷ ms) b h = rw (accept_closed m b h, accept_all_closed ms b h)

  pub accept_all_held :
      (ms : List M) (b : Inbox M S)
      → b.closed ≡ false
      → b.id ≡ ""
      → accept_all id_of handle ms b ≡ (record b { pending = b.pending ++ ms }, [])
  unfolding accept_all
  accept_all_held [] b h e = λ i. (record b { pending = sym (append-nil b.pending) i }, [])
  accept_all_held (m ∷ ms) b h e =
      rw (accept_held m b h e, accept_all_held ms (record b { pending = b.pending ++ m ∷ [] }) h e)
        (λ i. (record b { pending = append_assoc b.pending (m ∷ []) ms i }, []))

  pub accept_all_attached :
      (ms : List M) (b : Inbox M S)
      → b.closed ≡ false
      → b.id ≢ ""
      → accept_all id_of handle ms b ≡ settle id_of handle b (heard b.id ms b.inner)
  unfolding accept_all
  accept_all_attached [] b h e = settle-heard_nil b
  accept_all_attached (m ∷ ms) b h e = elim (Bool-cases (str_eq (id_of m) b.id)) [
    | inr skip ↦ rw (
      accept_skipped m b h e skip,
      heard_skipped b.id m ms b.inner skip,
      accept_all_attached ms b h e,
    )
    | inl hit ↦ elim (Bool-cases (handle m b.inner).ends) [
      | inl d ↦
          rw
            (
              accept_settled m b h e hit,
              heard_last b.id m ms b.inner hit d,
              settle_last b (handle m b.inner) d,
              accept_all_closed ms (shut (record b { inner = (handle m b.inner).inner }))
                  (shut-closed (record b { inner = (handle m b.inner).inner })),
            )
            (λ i. (
              shut (record b { inner = (handle m b.inner).inner }),
              append-nil (handle m b.inner).calls i,
            ))
      | inr d ↦
          rw
            (
              accept_settled m b h e hit,
              heard_on b.id m ms b.inner hit d,
              settle_on b (handle m b.inner) d,
              accept_all_attached ms (record b { inner = (handle m b.inner).inner }) h e,
            )
            (settle-then b (handle m b.inner) (heard b.id ms (handle m b.inner).inner))
    ]
  ]

  accept_all-append :
      (ms ns : List M) (b : Inbox M S)
      → accept_all id_of handle (ms ++ ns) b ≡ (
          let (b', first) = accept_all id_of handle ms b in
          let (b'', second) = accept_all id_of handle ns b' in (b'', first ++ second))
  unfolding accept_all
  accept_all-append [] ns b = refl
  accept_all-append (m ∷ ms) ns b =
      let r = accept id_of handle m b in
      let first = (accept_all id_of handle ms r.0).1 in
      let rest = accept_all id_of handle ns (accept_all id_of handle ms r.0).0 in
      rw (accept_all-append ms ns r.0) (λ i. (rest.0, sym (append_assoc r.1 first rest.1) i))

  -- An open inbox under a known id, with `n` listeners.
  abbrev pub attached : ℕ → String → S → Inbox M S
  attached n id s = record { id = id; closed = false; pending = []; listeners = n; inner = s }

  -- A new subscription with `n` listeners: messages before the id is known, the id, messages after.
  unfoldable pub session : ℕ → String → List M → List M → S → Inbox M S × List O
  session n id early late s =
      let (b, first) = accept_all id_of handle early (record (fresh s) { listeners = n }) in
      let (b', second) = attach id_of handle id b in
      let (b'', third) = accept_all id_of handle late b' in (b'', first ++ (second ++ third))

  pub session_lem :
      (n : ℕ) (id : String) (early late : List M) (s : S)
      → id ≢ ""
      → session n id early late s
        ≡ settle id_of handle (attached n id s) (heard id (early ++ late) s)
  unfolding session attach
  session_lem n id early late s e =
      rw (accept_all_held early (record (fresh s) { listeners = n }) refl refl) (
        sym (accept_all-append early late (attached n id s))
        ∙ accept_all_attached (early ++ late) (attached n id s) refl e)

  pub session-calls :
      (n : ℕ) (id : String) (early late : List M) (s : S)
      → id ≢ ""
      → (session n id early late s).1 ≡ (heard id (early ++ late) s).calls
  unfolding settle
  session-calls n id early late s e =
      ap (λ (r : Inbox M S × List O). r.1) (session_lem n id early late s e)
