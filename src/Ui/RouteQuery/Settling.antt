-- ===== src/Ui/RouteQuery/Settling.antt =====
-- RouteQueryState.ts: the flush of a view's fields into the address ends, and they agree.
use kubiq.Ui.RouteQuery.{
  one, Query, Field, fallback, text, or_fallback, same_text, wanted, write_query, next_from,
  next_query, read_back,
}
use kubiq.Base.{
  ◌≡◌, refl, sym, ap, ◌∙◌, subst, inl, inr, Bool, true, false, List, [], ◌∷◌, Option, none, some,
  String, str_eq, str_eq_iff, arith, map_get, map_get-set, map_get-delete, All, Bool-cases,
}

-- The address says of a field what it should.
abbrev pub Agrees : Query → Field → Type 0
Agrees query f = text (map_get f.key query) ≡ wanted f

abbrev pub Distinct : List Field → Type 0
Distinct [] = Unit
Distinct (f ∷ fs) = All (λ (g : Field). str_eq g.key f.key ≡ false) fs × Distinct fs

same_text-eq : (a b : Option String) → same_text a b ≡ true → a ≡ b
same_text-eq none none h = refl
same_text-eq none (some t) h = cc
same_text-eq (some t) none h = cc
same_text-eq (some t) (some u) h = ap some ((str_eq_iff t u).0 h)

same_text_refl : (a : Option String) → same_text a a ≡ true
same_text_refl none = refl
same_text_refl (some t) = (str_eq_iff t t).1 refl

text-write_query :
    (k : String) (t : Option String) (next : Query) → text (map_get k (write_query k t next)) ≡ t
unfolding text
text-write_query k none next = rw (map_get-delete k k next, (str_eq_iff k k).1 refl) refl
text-write_query k (some t) next =
    rw (map_get-set k k (one (some t)) next, (str_eq_iff k k).1 refl) refl

map_get-write_query :
    (k j : String) (t : Option String) (next : Query)
    → str_eq k j ≡ false
    → map_get j (write_query k t next) ≡ map_get j next
map_get-write_query k j none next h = map_get-delete k j next ∙ rw h refl
map_get-write_query k j (some t) next h = map_get-set k j (one (some t)) next ∙ rw h refl

-- The loop leaves the keys of other fields.
map_get-next_from :
    (k : String) (current : Query) (fs : List Field) (next : Query) (changed : Bool)
    → All (λ (g : Field). str_eq g.key k ≡ false) fs
    → map_get k (next_from current fs next changed).0 ≡ map_get k next
unfolding next_from
map_get-next_from k current [] next changed h = refl
map_get-next_from k current (f ∷ fs) next changed h =
    elim (Bool-cases (same_text (wanted f) (text (map_get f.key current)))) [
      | inl e ↦ rw (e, next_from) (map_get-next_from k current fs next changed h.1)
      | inr e ↦
          rw (e, next_from)
            (map_get-next_from k current fs (write_query f.key (wanted f) next) true h.1
              ∙ map_get-write_query f.key k (wanted f) next h.0)
    ]

untouched :
    (f : Field) (t : Option String) (current next : Query) (fs : List Field)
    → All (λ (g : Field). str_eq g.key f.key ≡ false) fs
    → All (λ (g : Field). map_get g.key next ≡ map_get g.key current) fs
    → All (λ (g : Field). map_get g.key (write_query f.key t next) ≡ map_get g.key current) fs
untouched f t current next [] d h = tt
untouched f t current next (g ∷ fs) d h = (
  map_get-write_query f.key g.key t next
        (ground (arith, d, str_eq_iff g.key f.key, str_eq_iff f.key g.key))
      ∙ h.0,
  untouched f t current next fs d.1 h.1,
)

next_from-Agrees :
    (current : Query) (fs : List Field) (next : Query) (changed : Bool)
    → Distinct fs
    → All (λ (g : Field). map_get g.key next ≡ map_get g.key current) fs
    → All (Agrees (next_from current fs next changed).0) fs
unfolding next_from
next_from-Agrees current [] next changed d h = tt
next_from-Agrees current (f ∷ fs) next changed d h =
    elim (Bool-cases (same_text (wanted f) (text (map_get f.key current)))) [
      | inl e ↦
          let skipped : next_from current (f ∷ fs) next changed
              ≡ next_from current fs next changed =
            rw (e, next_from) refl in
          subst (λ r. All (Agrees (r.0)) (f ∷ fs)) (sym skipped)
            (
              ap text (map_get-next_from f.key current fs next changed d.0 ∙ h.0)
                  ∙ sym (same_text-eq (wanted f) (text (map_get f.key current)) e),
              next_from-Agrees current fs next changed d.1 h.1,
            )
      | inr e ↦
          let next' = write_query f.key (wanted f) next in
          let written : next_from current (f ∷ fs) next changed ≡ next_from current fs next' true =
            rw (e, next_from) refl in
          subst (λ r. All (Agrees (r.0)) (f ∷ fs)) (sym written)
            (
              ap text (map_get-next_from f.key current fs next' true d.0)
                  ∙ text-write_query f.key (wanted f) next,
              next_from-Agrees current fs next' true d.1
                  (untouched f (wanted f) current next fs d.0 h.1),
            )
    ]

-- An address that agrees is not written.
next_from-settled :
    (current : Query) (fs : List Field) (next : Query) (changed : Bool)
    → All (Agrees current) fs
    → next_from current fs next changed ≡ (next, changed)
unfolding next_from
next_from-settled current [] next changed h = refl
next_from-settled current (f ∷ fs) next changed h =
    let same : same_text (wanted f) (text (map_get f.key current)) ≡ true =
      rw (h.0) (same_text_refl (wanted f)) in
    rw (same, next_from) (next_from-settled current fs next changed h.1)

next_from-changed :
    (current : Query) (fs : List Field) (next : Query) → (next_from current fs next true).1 ≡ true
unfolding next_from
next_from-changed current [] next = refl
next_from-changed current (f ∷ fs) next = ground (
  arith,
  next_from-changed current fs next,
  next_from-changed current fs (write_query f.key (wanted f) next),
)

next_from-unchanged :
    (current : Query) (fs : List Field) (next : Query)
    → (next_from current fs next false).1 ≡ false
    → All (Agrees current) fs
unfolding next_from
next_from-unchanged current [] next h = tt
next_from-unchanged current (f ∷ fs) next h =
    elim (Bool-cases (same_text (wanted f) (text (map_get f.key current)))) [
      | inl e ↦ (
        sym (same_text-eq (wanted f) (text (map_get f.key current)) e),
        next_from-unchanged current fs next (ground (arith, h, e)),
      )
      | inr e ↦
          absurd
            (ground (arith, h, e, next_from-changed current fs (write_query f.key (wanted f) next)))
    ]

or_fallback-wanted : (f : Field) → or_fallback f (wanted f) ≡ f.value
or_fallback-wanted f = ground (arith, str_eq_iff f.value (fallback f))

pub read_back-settled :
    (kept : String → String → String) (query : Query) (fs : List Field)
    → All (Agrees query) fs
    → read_back kept query fs ≡ (fs, false)
unfolding read_back
read_back-settled kept query [] h = refl
read_back-settled kept query (f ∷ fs) h =
    let asked : or_fallback f (text (map_get f.key query)) ≡ f.value =
      rw (h.0) (or_fallback-wanted f) in
    rw (asked, (str_eq_iff f.value f.value).1 refl, read_back-settled kept query fs h.1, read_back)
      refl

pub next_query-settled :
    (query : Query) (fs : List Field) → All (Agrees query) fs → next_query fs query ≡ none
unfolding next_query
next_query-settled query fs h = rw (next_from-settled query fs query false h, next_query) refl

All-same :
    (query : Query) (fs : List Field)
    → All (λ (g : Field). map_get g.key query ≡ map_get g.key query) fs
All-same query [] = tt
All-same query (f ∷ fs) = (refl, All-same query fs)

pub next_query-Agrees :
    (query next : Query) (fs : List Field)
    → Distinct fs
    → next_query fs query ≡ some next
    → All (Agrees next) fs
unfolding next_query
next_query-Agrees query next fs d e = elim (Bool-cases ((next_from query fs query false).1)) [
  | inl changed ↦
      let same : (next_from query fs query false).0 ≡ next = ground (arith, e, changed) in
      subst (λ q. All (Agrees q) fs) same
        (next_from-Agrees query fs query false d (All-same query fs))
  | inr same ↦ absurd (ground (arith, e, same))
]

pub next_query-none :
    (query : Query) (fs : List Field) → next_query fs query ≡ none → All (Agrees query) fs
unfolding next_query
next_query-none query fs e = elim (Bool-cases ((next_from query fs query false).1)) [
  | inl changed ↦ absurd (ground (arith, e, changed))
  | inr same ↦ next_from-unchanged query fs query same
]
