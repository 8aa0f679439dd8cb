-- ===== src/Kubeconfig/Read/Faults.antt =====
-- read of KubeconfigService.ts: a file that fails.
use kubiq.Kubeconfig.{ApiError, Outcome-cases, Outcome, done, refused, thrown, ◌>>=◌}
use kubiq.Kubeconfig.Locate.{Problem, Scan}
use kubiq.Kubeconfig.Read.First.{read_files-done, read_files-refused}
use kubiq.Kubeconfig.Read.{Contents, Merge, Read, bind, new_merge, keep, read_files, read}
use kubiq.Base.{
  ◌≡◌, ◌≢◌, refl, sym, ap, ◌∙◌, inl, inr, List, [], ◌∷◌, ◌++◌, Text, map, All, append-nil,
  append_assoc,
}

-- Which files fail, with what is noted of them, and which do not.
module _ (query : Text → Outcome Contents) where
  abbrev pub AllCaught : List Text → Type 0
  AllCaught files = All (λ file. (t : Text) → query file ≢ thrown t) files

  unfoldable pub faults : List Text → List Problem
  faults [] = []
  faults (file ∷ files) =
      let rest = faults files in
      elim (query file) [ refused e ↦ (record { path = file; error = e }) ∷ rest | _ ↦ rest ]

  unfoldable pub readable : List Text → List Text
  readable [] = []
  readable (file ∷ files) =
      let rest = readable files in elim (query file) [ done c ↦ file ∷ rest | _ ↦ rest ]

  readable-done :
      (file : Text) (files : List Text) (c : Contents)
      → query file ≡ done c
      → readable (file ∷ files) ≡ file ∷ readable files
  unfolding readable
  readable-done file files c e = rw (e, readable) refl

  readable-refused :
      (file : Text) (files : List Text) (x : ApiError)
      → query file ≡ refused x
      → readable (file ∷ files) ≡ readable files
  unfolding readable
  readable-refused file files x e = rw (e, readable) refl

  faults-done :
      (file : Text) (files : List Text) (c : Contents)
      → query file ≡ done c
      → faults (file ∷ files) ≡ faults files
  unfolding faults
  faults-done file files c e = rw (e, faults) refl

  faults-refused :
      (file : Text) (files : List Text) (x : ApiError)
      → query file ≡ refused x
      → faults (file ∷ files) ≡ (record { path = file; error = x }) ∷ faults files
  unfolding faults
  faults-refused file files x e = rw (e, faults) refl

  abbrev with_problems : Merge → List Problem → Merge
  with_problems m ps = record m { problems = m.problems ++ ps }

  read_files-with_problems :
      (files : List Text) (m : Merge) (ps : List Problem)
      → AllCaught files
      → (m' : Merge) × (m'.problems ≡ m.problems)
        × (read_files query (readable files) m ≡ done m')
        × (read_files query files (with_problems m ps)
            ≡ done (with_problems m' (ps ++ faults files)))
  unfolding faults readable read_files keep
  read_files-with_problems [] m ps h =
      (m, refl, refl, ap (λ qs. done (with_problems m qs)) (sym (append-nil ps)))
  read_files-with_problems (file ∷ files) m ps h = elim (Outcome-cases (query file)) [
    | inl (c, e) ↦
        let (m', kept, clean, whole) = read_files-with_problems files (keep c m) ps h.1 in
        (
          m',
          kept,
          ap (λ fs. read_files query fs m) (readable-done file files c e)
              ∙ read_files-done query file (readable files) c m e
              ∙ clean,
          read_files-done query file files c (with_problems m ps) e
              ∙ whole
              ∙ ap (λ qs. done (with_problems m' (ps ++ qs))) (sym (faults-done file files c e)),
        )
    | inr (inl (x, e)) ↦
        let p : Problem = record { path = file; error = x } in
        let (m', kept, clean, whole) = read_files-with_problems files m (ps ++ p ∷ []) h.1 in
        (
          m',
          kept,
          ap (λ fs. read_files query fs m) (readable-refused file files x e) ∙ clean,
          read_files-refused query file files x (with_problems m ps) e
              ∙ ap (λ qs. read_files query files (record m { problems = qs }))
                  (append_assoc m.problems ps (p ∷ []))
              ∙ whole
              ∙ ap (λ qs. done (with_problems m' qs))
                  (append_assoc ps (p ∷ []) (faults files)
                    ∙ ap (λ qs. ps ++ qs) (sym (faults-refused file files x e))),
        )
    | inr (inr (t, e)) ↦ absurd (h.0 t e)
  ]

-- What `read` does behind its loop.
abbrev reading : List Text → Merge → Outcome Read
reading files m = done (record {
  files = files;
  contexts = map (bind m.clusters m.users) m.contexts;
  current_context_name = m.current_context_name;
  problems = m.problems;
})

-- A file that fails with an `ApiError` is as if it were not there, but for a note of it: where no file
-- fails otherwise, the merge of the files ends, with the contexts and the current context that the
-- merge of the files that answer has, and with one problem for each that fails, in their order, behind
-- those of the scan.
pub read-readable :
    (query : Text → Outcome Contents) (s : Scan)
    → AllCaught query s.files
    → (r : Read) × (read query (done (record s { files = readable query s.files; problems = [] }))
        ≡ done r)
      × (read query (done s)
          ≡ done (record r { files = s.files; problems = s.problems ++ faults query s.files }))
unfolding read
read-readable query s h =
    let (m, kept, clean, whole) =
      read_files-with_problems query s.files (new_merge []) s.problems h in
    (
      record {
        files = readable query s.files;
        contexts = map (bind m.clusters m.users) m.contexts;
        current_context_name = m.current_context_name;
        problems = m.problems;
      },
      ap (λ o. o >>= reading (readable query s.files)) clean,
      ap (λ o. o >>= reading s.files) whole
          ∙ ap (λ qs. reading s.files (record m { problems = qs }))
              (ap (λ qs. qs ++ (s.problems ++ faults query s.files)) kept),
    )
