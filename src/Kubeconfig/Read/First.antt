-- ===== src/Kubeconfig/Read/First.antt =====
-- read of KubeconfigService.ts: what the loop over the files keeps of a name.
use kubiq.Kubeconfig.{ApiError, Outcome-cases, Outcome, done, refused, thrown}
use kubiq.Kubeconfig.Locate.{Problem}
use kubiq.Resource.Filter.{is_empty}
use kubiq.Kubeconfig.Read.{or_some, Contents, Merge, get, keep_first, keep, read_one, read_files}
use kubiq.Base.{
  ◌≡◌, refl, sym, ap, ◌∙◌, inl, inr, List, [], ◌∷◌, ◌++◌, Option, none, some, Text, text_eq_iff,
  arith, if◌then◌else◌,
}

or_some_assoc : {A : Type 0} (a b c : Option A) → or_some (or_some a b) c ≡ or_some a (or_some b c)
or_some_assoc (some a) b c = refl
or_some_assoc none b c = refl

pub or_some-none : {A : Type 0} (a : Option A) → or_some a none ≡ a
or_some-none (some a) = refl
or_some-none none = refl

pub done-injective : {A : Type 0} (a b : A) → done a ≡ done b → a ≡ b
done-injective a b h = cc

module _ {A : Type 0} (name_of : A → Text) where
  get-append :
      (n : Text) (xs ys : List A)
      → get name_of n (xs ++ ys) ≡ or_some (get name_of n xs) (get name_of n ys)
  unfolding get
  get-append n [] ys = refl
  get-append n (x ∷ xs) ys = ground (arith, get-append n xs ys)

  get-keep_first :
      (n : Text) (target entities : List A)
      → get name_of n (keep_first name_of target entities)
        ≡ or_some (get name_of n target) (get name_of n entities)
  unfolding keep_first get
  get-keep_first n target [] = ground arith
  get-keep_first n target (a ∷ entities) = ground (
    arith,
    get-keep_first n target entities,
    get-keep_first n (target ++ a ∷ []) entities,
    get-append n target (a ∷ []),
    text_eq_iff (name_of a) n,
  )

module _ (query : Text → Outcome Contents) where
  -- The first file that answers and that declares a name, read for that name alone.
  unfoldable pub first_in :
      {A : Type 0} → (Contents → List A) → (A → Text) → Text → List Text → Option A
  unfolding get
  first_in select name_of n [] = none
  first_in select name_of n (file ∷ files) =
      let rest = first_in select name_of n files in
      elim (query file) [ done c ↦ or_some (get name_of n (select c)) rest | _ ↦ rest ]

  abbrev pub noted : Text → ApiError → Merge → Merge
  noted file e m = record m { problems = m.problems ++ (record { path = file; error = e }) ∷ [] }

  pub read_files-nil : (m m' : Merge) → read_files query [] m ≡ done m' → done m ≡ done m'
  unfolding read_files
  read_files-nil m m' h = h

  pub read_files-done :
      (file : Text) (files : List Text) (c : Contents) (m : Merge)
      → query file ≡ done c
      → read_files query (file ∷ files) m ≡ read_files query files (keep c m)
  unfolding read_files read_one
  read_files-done file files c m e = rw (e, read_one) refl

  pub read_files-refused :
      (file : Text) (files : List Text) (x : ApiError) (m : Merge)
      → query file ≡ refused x
      → read_files query (file ∷ files) m ≡ read_files query files (noted file x m)
  unfolding read_files read_one
  read_files-refused file files x m e = rw (e, read_one) refl

  pub read_files-thrown :
      (file : Text) (files : List Text) (t : Text) (m : Merge)
      → query file ≡ thrown t
      → read_files query (file ∷ files) m ≡ thrown t
  unfolding read_files read_one
  read_files-thrown file files t m e = rw (e, read_one) refl

  module _ {A : Type 0} (name_of : A → Text) (select : Contents → List A) (held : Merge → List A)
      (kept : (c : Contents) (m : Merge) → held (keep c m) ≡ keep_first name_of (held m) (select c))
      (left : (m : Merge) (ps : List Problem) → held (record m { problems = ps }) ≡ held m) where
    got_file :
        (n : Text) (file : Text) (files : List Text) (c : Contents) (m : Merge)
        → query file ≡ done c
        → or_some (get name_of n (held (keep c m))) (first_in select name_of n files)
          ≡ or_some (get name_of n (held m)) (first_in select name_of n (file ∷ files))
    unfolding first_in
    got_file n file files c m e =
        rw (kept c m, get-keep_first name_of n (held m) (select c), e, first_in)
          (or_some_assoc (get name_of n (held m)) (get name_of n (select c))
            (first_in select name_of n files))

    missed_file :
        (n : Text) (file : Text) (files : List Text) (x : ApiError) (m : Merge)
        → query file ≡ refused x
        → or_some (get name_of n (held (noted file x m))) (first_in select name_of n files)
          ≡ or_some (get name_of n (held m)) (first_in select name_of n (file ∷ files))
    unfolding first_in
    missed_file n file files x m e = rw (left m (noted file x m).problems, e, first_in) refl

    pub read_files-get :
        (n : Text) (files : List Text) (m m' : Merge)
        → read_files query files m ≡ done m'
        → get name_of n (held m')
          ≡ or_some (get name_of n (held m)) (first_in select name_of n files)
    unfolding first_in
    read_files-get n [] m m' h =
        ap (λ x. get name_of n (held x)) (sym (done-injective m m' (read_files-nil m m' h)))
        ∙ sym (or_some-none (get name_of n (held m)))
    read_files-get n (file ∷ files) m m' h = elim (Outcome-cases (query file)) [
      | inl (c, e) ↦
          let later : get name_of n (held m') ≡ _ =
            read_files-get n files (keep c m) m' (sym (read_files-done file files c m e) ∙ h) in
          later ∙ got_file n file files c m e
      | inr (inl (x, e)) ↦
          let later : get name_of n (held m') ≡ _ =
            read_files-get n files (noted file x m) m'
              (sym (read_files-refused file files x m e) ∙ h) in
          later ∙ missed_file n file files x m e
      | inr (inr (t, e)) ↦ absurd (ground (arith, h, read_files-thrown file files t m e))
    ]

abbrev pub or_else : Text → Text → Text
or_else a b = if is_empty a then b else a

or_else_assoc : (a b c : Text) → or_else (or_else a b) c ≡ or_else a (or_else b c)
or_else_assoc [] b c = refl
or_else_assoc (x ∷ a) b c = refl

or_else_nil : (a : Text) → or_else a [] ≡ a
or_else_nil [] = refl
or_else_nil (x ∷ a) = refl

-- The current context that the first file with one names.
unfoldable pub current_in : (Text → Outcome Contents) → List Text → Text
current_in query [] = []
current_in query (file ∷ files) =
    let rest = current_in query files in
    elim (query file) [ done c ↦ or_else c.current rest | _ ↦ rest ]

pub read_files-current :
    (query : Text → Outcome Contents) (files : List Text) (m m' : Merge)
    → read_files query files m ≡ done m'
    → m'.current_context_name ≡ or_else m.current_context_name (current_in query files)
unfolding current_in keep
read_files-current query [] m m' h =
    ap (λ (x : Merge). x.current_context_name)
      (sym (done-injective m m' (read_files-nil query m m' h)))
    ∙ sym (or_else_nil m.current_context_name)
read_files-current query (file ∷ files) m m' h = elim (Outcome-cases (query file)) [
  | inl (c, e) ↦
      let later =
        read_files-current query files (keep c m) m'
          (sym (read_files-done query file files c m e) ∙ h) in
      later
      ∙ rw (e, current_in) (or_else_assoc m.current_context_name c.current (current_in query files))
  | inr (inl (x, e)) ↦
      let later =
        read_files-current query files (noted query file x m) m'
          (sym (read_files-refused query file files x m e) ∙ h) in
      later ∙ rw (e, current_in) refl
  | inr (inr (t, e)) ↦ absurd (ground (arith, h, read_files-thrown query file files t m e))
]
