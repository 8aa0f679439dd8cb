-- ===== src/Terminal/Scrollback/Suffix.antt =====
-- append and snapshot of TerminalBuffer.ts: what is kept of the output.
use kubiq.Terminal.Scrollback.{new, append, snapshot, Scrollback, concat, shift_over}
use kubiq.Base.{
  ◌+◌, ◌+◌, append-nil, ℕ, ◌-◌, ◌≡◌, refl, sym, ap, ◌∙◌, ◌⊎◌, inl, inr, true, List, [], ◌∷◌, ◌++◌,
  append_assoc, arith, ltb, leb, length, length-append, Bool-cases,
}

concat-append : (cs ds : List (List ℕ)) → concat (cs ++ ds) ≡ concat cs ++ concat ds
unfolding concat
concat-append [] ds = refl
concat-append (c ∷ cs) ds =
    ap (λ r. c ++ r) (concat-append cs ds) ∙ sym (append_assoc c (concat cs) (concat ds))

-- `bytes` counts the chunks, and above the limit there is one chunk at most.
pub record IsSound (b : Scrollback) : Type 0 where
  pub counted : b.bytes ≡ length (concat b.chunks)
  pub limited : (leb b.bytes b.limit ≡ true) ⊎ (leb (length b.chunks) 1 ≡ true)

-- What the loop leaves: the count, the limit, and a suffix of the bytes.
shift_over_lem :
    (limit : ℕ) (cs : List (List ℕ)) (bytes : ℕ)
    → bytes ≡ length (concat cs)
    → let r = shift_over limit cs bytes in
      (r.1 ≡ length (concat r.0))
      × ((leb r.1 limit ≡ true) ⊎ (leb (length r.0) 1 ≡ true))
      × ((p : List ℕ) × (concat cs ≡ p ++ concat r.0))
unfolding shift_over concat
shift_over_lem limit [] bytes h = (h, inr (ground arith), ([], refl))
shift_over_lem limit (c ∷ []) bytes h = (h, inr (ground arith), ([], refl))
shift_over_lem limit (c ∷ d ∷ cs) bytes h = elim (Bool-cases (ltb limit bytes)) [
  | inr e ↦ rw e (h, inl (ground arith), ([], refl))
  | inl e ↦
      let rest =
        shift_over_lem limit (d ∷ cs) (bytes - length c)
          (omega (arith, length-append c (concat (d ∷ cs)))) in
      rw e (
        rest.0,
        rest.1,
        (
          c ++ rest.2.0,
          ap (λ r. c ++ r) rest.2.1
              ∙ sym (
                  append_assoc c rest.2.0
                    (concat (shift_over limit (d ∷ cs) (bytes - length c)).0)),
        ),
      )
]

pub append_no_bytes : (b : Scrollback) → append [] b ≡ b
unfolding append
append_no_bytes b = refl

-- Output that comes keeps a sound buffer sound: it counts its bytes, and is within the limit or a
-- single chunk. What is shown again is an end of what was shown before with the output behind it.
pub snapshot-append :
    (chunk : List ℕ) (b : Scrollback)
    → IsSound b
    → IsSound (append chunk b)
      × ((p : List ℕ) × (snapshot b ++ chunk ≡ p ++ snapshot (append chunk b)))
unfolding append snapshot concat
snapshot-append [] b s = (s, ([], append-nil (concat b.chunks)))
snapshot-append (x ∷ xs) b s =
    let cs = b.chunks ++ (x ∷ xs) ∷ [] in
    let grown : concat cs ≡ concat b.chunks ++ (x ∷ xs) =
      concat-append b.chunks ((x ∷ xs) ∷ [])
      ∙ ap (λ r. concat b.chunks ++ r) (append-nil (x ∷ xs)) in
    let r =
      shift_over_lem b.limit cs (b.bytes + length (x ∷ xs))
        (omega (arith, s.counted, ap length grown, length-append (concat b.chunks) (x ∷ xs))) in
    let full = shift_over b.limit cs (b.bytes + length (x ∷ xs)) in
    let e : append (x ∷ xs) b ≡ record b { chunks = full.0; bytes = full.1 } = ground arith in
    rw e (record { counted = r.0; limited = r.1 }, (r.2.0, sym grown ∙ r.2.1))

pub new-IsSound : (limit : ℕ) → IsSound (new limit)
unfolding concat
new-IsSound limit = record { counted = refl; limited = inr (ground arith) }
