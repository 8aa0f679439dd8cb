-- ===== src/Resource/Store/Changes.antt =====
-- applyChanges of ClusterResourceStore.ts: its slots and positions do what the changes say one at a time.
use kubiq.Resource.Store.{
  Change, State, Merging, is_deleted, filled, compact, merge_one, merge_all, merged_items,
  index_from, merging, apply_changes, shift_total,
}
use kubiq.Resource.Store.Slots.{
  place, Distinct, remove, upsert, place-put-none, place-put-some, place-append, Distinct-put-none,
  Distinct-put-some, Distinct-append, compact-put-none, compact-put-some, compact-append,
  remove_absent, length-put-none, length-put-some, length-snoc,
}
use kubiq.Base.{
  ℕ, ◌+◌, ◌≡◌, refl, sym, ap, ◌∙◌, subst, inl, inr, true, false, List, [], ◌∷◌, Option, none, some,
  String, str_eq, str_eq_iff, arith, if◌then◌else◌, length, map_get, map_set, map_get-set,
  map_get-delete, Bool-cases, Option-cases, All,
}

module _ {E : Type 0} (key_of : E → String) where
  -- No two objects of a list have one key.
  abbrev pub Unique : List E → Type 0
  Unique [] = Unit
  Unique (x ∷ xs) = All (λ y. str_eq (key_of y) (key_of x) ≡ false) xs × Unique xs

  -- The entity of a change has the key that the change names.
  abbrev pub IsKeyed : Change E → Type 0
  IsKeyed c = key_of c.entity ≡ c.key

  -- One change: a deletion takes the object out, any other takes its place, or the end.
  unfoldable pub apply_one : Change E → List E → List E
  unfolding remove upsert
  apply_one c items =
      if is_deleted c.type then remove key_of c.key items else upsert key_of c.key c.entity items

  unfoldable pub apply_each : List (Change E) → List E → List E
  unfolding apply_one
  apply_each [] items = items
  apply_each (c ∷ cs) items = apply_each cs (apply_one c items)

  -- The positions are those of the slots, whose keys differ, and the counts explain the length.
  pub record IsMerging (n : ℕ) (m : Merging E) : Type 0 where
    pub indexed : (k : String) → map_get k m.positions ≡ place key_of k m.slots
    pub distinct : Distinct key_of m.slots
    pub counted : length (compact m.slots) + m.removed ≡ n + m.added

  merge_one-lem :
      (n : ℕ) (m : Merging E) (c : Change E)
      → IsKeyed c
      → IsMerging n m
      → IsMerging n (merge_one m c)
        × (compact (merge_one m c).slots ≡ apply_one c (compact m.slots))
  unfolding merge_one apply_one
  merge_one-lem n m c q h = elim (Option-cases (map_get c.key m.positions)) [
    | inl e ↦
        let absent : place key_of c.key m.slots ≡ none = sym (h.indexed c.key) ∙ e in
        let absent' : place key_of (key_of c.entity) m.slots ≡ none = rw q absent in
        elim (Bool-cases (is_deleted c.type)) [
          | inl d ↦
              rw (e, d, merge_one, apply_one) (h, sym (remove_absent key_of c.key m.slots absent))
          | inr d ↦
              rw (e, d, merge_one, apply_one)
                (
                  record {
                    indexed = λ k.
                        map_get-set c.key k (length m.slots) m.positions
                        ∙ ground
                            (arith, h.indexed k, place-append key_of k c.entity m.slots absent', q);
                    distinct = Distinct-append key_of c.entity m.slots h.distinct absent';
                    counted = omega (arith, h.counted, length-snoc key_of c.entity m.slots);
                  },
                  compact-append key_of c.key c.entity m.slots absent,
                )
        ]
    | inr (i, e) ↦
        let found : place key_of c.key m.slots ≡ some i = sym (h.indexed c.key) ∙ e in
        elim (Bool-cases (is_deleted c.type)) [
          | inl d ↦
              rw (e, d, merge_one, apply_one)
                (
                  record {
                    indexed = λ k.
                        map_get-delete c.key k m.positions
                        ∙ ground (
                          arith,
                          h.indexed k,
                          place-put-none key_of c.key k i m.slots h.distinct found,
                        );
                    distinct = Distinct-put-none key_of c.key i m.slots h.distinct found;
                    counted =
                        omega (arith, h.counted, length-put-none key_of c.key i m.slots found);
                  },
                  compact-put-none key_of c.key i m.slots found,
                )
          | inr d ↦
              rw (e, d, merge_one, apply_one)
                (
                  record {
                    indexed = λ k.
                        h.indexed k
                        ∙ sym (place-put-some key_of c.key k i c.entity m.slots q h.distinct found);
                    distinct = Distinct-put-some key_of c.key i c.entity m.slots q h.distinct found;
                    counted =
                        omega
                          (arith, h.counted, length-put-some key_of c.key i c.entity m.slots found);
                  },
                  compact-put-some key_of c.key i c.entity m.slots found,
                )
        ]
  ]

  merge_all-lem :
      (n : ℕ) (cs : List (Change E)) (m : Merging E)
      → All IsKeyed cs
      → IsMerging n m
      → IsMerging n (merge_all m cs)
        × (compact (merge_all m cs).slots ≡ apply_each cs (compact m.slots))
  unfolding merge_all apply_each
  merge_all-lem n [] m q h = (h, refl)
  merge_all-lem n (c ∷ cs) m q h =
      let (kept, same) = merge_one-lem n m c q.0 h in
      let (all_kept, all_same) = merge_all-lem n cs (merge_one m c) q.1 kept in
      (all_kept, all_same ∙ ap (apply_each cs) same)

  compact-filled : (xs : List E) → compact (filled xs) ≡ xs
  unfolding compact filled
  compact-filled [] = refl
  compact-filled (x ∷ xs) = ap (λ l. x ∷ l) (compact-filled xs)

  place-filled :
      (k : String) (xs : List E)
      → All (λ y. str_eq (key_of y) k ≡ false) xs
      → place key_of k (filled xs) ≡ none
  unfolding place filled
  place-filled k [] h = refl
  place-filled k (x ∷ xs) h = ground (arith, h, place-filled k xs h.1)

  Distinct-filled : (xs : List E) → Unique xs → Distinct key_of (filled xs)
  unfolding filled
  Distinct-filled [] h = tt
  Distinct-filled (x ∷ xs) h = (place-filled (key_of x) xs h.0, Distinct-filled xs h.1)

  place-none :
      (k : String) (slots : List (Option E))
      → place key_of k slots ≡ none
      → All (λ y. str_eq (key_of y) k ≡ false) (compact slots)
  unfolding place compact
  place-none k [] h = tt
  place-none k (none ∷ slots) h = place-none k slots (ground (arith, h))
  place-none k (some x ∷ slots) h = (ground (arith, h), place-none k slots (ground (arith, h)))

  Unique-compact : (slots : List (Option E)) → Distinct key_of slots → Unique (compact slots)
  unfolding compact
  Unique-compact [] h = tt
  Unique-compact (none ∷ slots) h = Unique-compact slots h
  Unique-compact (some x ∷ slots) h = (place-none (key_of x) slots h.0, Unique-compact slots h.1)

  abbrev pub behind : ℕ → Option ℕ → Option ℕ → Option ℕ
  behind at before none = before
  behind at before (some i) = some (at + i)

  map_get-index_from :
      (k : String) (at : ℕ) (xs : List E) (m : List (String × ℕ))
      → Unique xs
      → map_get k (index_from key_of at xs m) ≡ behind at (map_get k m) (place key_of k (filled xs))
  unfolding index_from place filled
  map_get-index_from k at [] m h = refl
  map_get-index_from k at (x ∷ xs) m h = elim (Bool-cases (str_eq (key_of x) k)) [
    | inl e ↦
        let same : key_of x ≡ k = (str_eq_iff (key_of x) k).0 e in
        let alone : place key_of k (filled xs) ≡ none =
          subst (λ j. place key_of j (filled xs) ≡ none) same (place-filled (key_of x) xs h.0) in
        map_get-index_from k (at + 1) xs (map_set (key_of x) at m) h.1
        ∙ ground (arith, e, alone, map_get-set (key_of x) k at m)
    | inr e ↦
        map_get-index_from k (at + 1) xs (map_set (key_of x) at m) h.1
        ∙ ground (arith, e, map_get-set (key_of x) k at m)
  ]

  merging-IsMerging : (xs : List E) → Unique xs → IsMerging (length xs) (merging key_of xs)
  unfolding map_get
  merging-IsMerging xs h = record {
    indexed = λ k. map_get-index_from k 0 xs [] h ∙ ground arith;
    distinct = Distinct-filled xs h;
    counted = ap (λ l. length l + 0) (compact-filled xs);
  }

  shift_total-counted :
      (t : Option ℕ) (more fewer n n' : ℕ)
      → n' + fewer ≡ n + more
      → shift_total t more fewer ≡ shift_total t n' n
  shift_total-counted none more fewer n n' h = refl
  shift_total-counted (some t) more fewer n n' h = ap some (omega arith)

  shift_total_same : (t : Option ℕ) (n : ℕ) → t ≡ shift_total t n n
  shift_total_same none n = refl
  shift_total_same (some t) n = ap some (omega arith)

  -- On a loaded list whose objects have keys of their own, a batch of changes does what its changes
  -- do one at a time, in order; the keys stay different, and the total, where the cluster gave one,
  -- moves by as much as the length, and not below 0.
  pub items-apply_changes :
      (changes : List (Change E)) (s : State E)
      → Unique s.items
      → All IsKeyed changes
      → s.loaded ≡ true
      → ((apply_changes key_of changes s).items ≡ apply_each changes s.items)
        × Unique (apply_changes key_of changes s).items
        × ((apply_changes key_of changes s).total
            ≡ shift_total s.total (length (apply_changes key_of changes s).items) (length s.items))
  unfolding apply_changes apply_each merged_items
  items-apply_changes [] s u q h =
      rw (h, apply_changes) (refl, u, shift_total_same s.total (length s.items))
  items-apply_changes (c ∷ cs) s u q h =
      let m = merge_all (merging key_of s.items) (c ∷ cs) in
      let (kept, same) =
        merge_all-lem (length s.items) (c ∷ cs) (merging key_of s.items) q
          (merging-IsMerging s.items u) in
      rw (h, apply_changes)
        (
          same ∙ ap (apply_each (c ∷ cs)) (compact-filled s.items),
          Unique-compact m.slots kept.distinct,
          shift_total-counted s.total m.added m.removed (length s.items) (length (compact m.slots))
              kept.counted,
        )
