-- ===== src/Kubeconfig/Locate/Scanned.antt =====
-- scan of KubeconfigService.ts: which paths it finds.
use kubiq.Kubeconfig.{Outcome, done, >>=-done, File}
use kubiq.Kubeconfig.Locate.{
  Scan, Environment, includes, distinct_from, distinct, entries_of, classify, candidates_in, visit,
  visit_folders, scan, named, home_folder,
}
use kubiq.Kubeconfig.Locate.Found.{
  Unique, has_path, has_candidate, has_path-sort, answered_folder, folders_among,
  includes-files_among, files_among-Unique,
}
use kubiq.Resource.Filter.{is_empty}
use kubiq.Base.{
  ◌≡◌, refl, sym, ap, ◌∙◌, subst, inl, inr, Bool, true, false, not, ◌&&◌, ◌||◌, List, [], ◌∷◌, ◌++◌,
  Option, Text, text_eq, text_eq_iff, arith, if◌then◌else◌, Bool-cases,
}
use kubiq.Kubeconfig.Locate.Visits.{
  answered_true, done-injective, named-Unique, classify-among, visit-includes, visit-Unique,
}

-- A path is that of a candidate among the entries that were listed.
abbrev pub answered_candidate : Text → Outcome (Option (List File)) → Bool
answered_candidate p (done found) = has_candidate p (entries_of found)
answered_candidate p _ = false

-- A path is that of a candidate in a folder.
abbrev pub offered_in : (Text → Outcome (Option (List File))) → Text → Text → Bool
offered_in list p folder = elim (list folder) [
  | done found ↦ has_candidate p (entries_of found)
  | _ ↦ false
]

-- A path is that of a candidate in one of the folders.
unfoldable pub offered : (Text → Outcome (Option (List File))) → Text → List Text → Bool
offered list p [] = false
offered list p (folder ∷ folders) =
    let rest = offered list p folders in offered_in list p folder || rest

module _ (list : Text → Outcome (Option (List File))) (p : Text) where
  includes-offered :
      (q : Text) (seen : List Text)
      → includes q seen ≡ true
      → (offered_in list p q || offered list p seen) ≡ offered list p seen
  unfolding includes offered
  includes-offered q [] h = ground (arith, h)
  includes-offered q (x ∷ seen) h = elim (Bool-cases (text_eq x q)) [
    | inl e ↦ let same = (text_eq_iff x q).0 e in ground (arith, ap (offered_in list p) same)
    | inr e ↦ ground (arith, includes-offered q seen (ground (arith, h, e)))
  ]

  offered-distinct_from :
      (seen folders : List Text)
      → (offered list p (distinct_from seen folders) || offered list p seen)
        ≡ (offered list p folders || offered list p seen)
  unfolding distinct_from offered
  offered-distinct_from seen [] = refl
  offered-distinct_from seen (d ∷ folders) = elim (Bool-cases (includes d seen)) [
    | inl e ↦
        rw (e, distinct_from)
          (offered-distinct_from seen folders ∙ ground (arith, includes-offered d seen e))
    | inr e ↦ rw (e, distinct_from) (ground (arith, offered-distinct_from (d ∷ seen) folders))
  ]

  offered-distinct :
      (folders : List Text) → offered list p (distinct folders) ≡ offered list p folders
  unfolding distinct offered
  offered-distinct folders = ground (arith, offered-distinct_from [] folders)

  offered-append :
      (folders : List Text) (d : Text)
      → offered list p (folders ++ d ∷ []) ≡ (offered list p folders || offered_in list p d)
  unfolding offered
  offered-append [] d = ground arith
  offered-append (f ∷ folders) d = ground (arith, offered-append folders d)

module _ (env : Environment) (stat : Text → Outcome (Option File))
    (list : Text → Outcome (Option (List File))) (is_kubeconfig : Text → Outcome Bool)
    (follows : Text → Text → Bool) where
  candidates_in-has_path :
      (p folder : Text) (cs : List File)
      → candidates_in list follows folder ≡ done cs
      → has_path p cs ≡ offered_in list p folder
  unfolding candidates_in
  candidates_in-has_path p folder cs h =
      let (found, e, h') = >>=-done (list folder) _ cs h in
      ap (has_path p) (sym (done-injective _ cs h'))
      ∙ has_path-sort follows p (entries_of found)
      ∙ ap (answered_candidate p) (sym e)

  visit_folders-includes :
      (p : Text) (folders : List Text) (s s' : Scan)
      → visit_folders env stat list is_kubeconfig follows folders s ≡ done s'
      → includes p s'.files
        ≡ (includes p s.files || (offered list p folders && answered_true (is_kubeconfig p)))
  unfolding visit_folders offered
  visit_folders-includes p [] s s' h = ground (arith, h)
  visit_folders-includes p (folder ∷ folders) s s' h =
      let (cs, ec, h') = >>=-done (candidates_in list follows folder) _ s' h in
      let (next, en, rest) = >>=-done (visit is_kubeconfig cs s) _ s' h' in
      ground (
        arith,
        visit_folders-includes p folders next s' rest,
        visit-includes is_kubeconfig p cs s next en,
        candidates_in-has_path p folder cs ec,
      )

  visit_folders-Unique :
      (folders : List Text) (s s' : Scan)
      → visit_folders env stat list is_kubeconfig follows folders s ≡ done s'
      → Unique s.files
      → Unique s'.files
  unfolding visit_folders
  visit_folders-Unique [] s s' h u = subst (λ (x : Scan). Unique x.files) (done-injective s s' h) u
  visit_folders-Unique (folder ∷ folders) s s' h u =
      let (cs, ec, h') = >>=-done (candidates_in list follows folder) _ s' h in
      let (next, en, rest) = >>=-done (visit is_kubeconfig cs s) _ s' h' in
      visit_folders-Unique folders next s' rest (visit-Unique is_kubeconfig cs s next en u)

  offered-home :
      (p home : Text) (folders : List Text)
      → offered list p (distinct (if is_empty home then folders else folders ++ home ∷ []))
        ≡ (offered list p folders || (not (is_empty home) && offered_in list p home))
  offered-home p home folders =
      offered-distinct list p (if is_empty home then folders else folders ++ home ∷ [])
      ∙ ground (arith, offered-append list p folders home)

  -- When the scan ends: no file is listed twice, and a path is listed exactly when it is one of the
  -- named paths and not a folder, or when its file is a kubeconfig and it is a candidate in a folder that is
  -- named or in the home folder.
  pub scan-files :
      (extra_paths : List Text) (s : Scan) (p : Text)
      → scan env stat list is_kubeconfig follows extra_paths ≡ done s
      → Unique s.files
        × (includes p s.files ≡ (
            (includes p (named env extra_paths) && not (answered_folder (stat p)))
            || (answered_true (is_kubeconfig p)
                && (offered list p (folders_among stat (named env extra_paths))
                    || (not (is_empty (home_folder env)) && offered_in list p (home_folder env))))))
  unfolding scan
  scan-files extra_paths s p h =
      let (paths, ep, h') = >>=-done (classify stat (named env extra_paths)) _ s h in
      let home = home_folder env in
      let sorted = classify-among stat (named env extra_paths) paths ep in
      let files_are = ap (λ r. r.0) sorted in
      let folders_are = ap (λ r. r.1) sorted in
      let folders = if is_empty home then paths.1 else paths.1 ++ home ∷ [] in
      let start : Scan = record { files = paths.0; problems = [] } in
      (
        visit_folders-Unique (distinct folders) start s h' (
            subst Unique (sym files_are)
              (files_among-Unique stat (named env extra_paths) (named-Unique env extra_paths))),
        visit_folders-includes p (distinct folders) start s h'
            ∙ ground (
              arith,
              ap (includes p) files_are ∙ includes-files_among stat p (named env extra_paths),
              offered-home p home paths.1,
              ap (offered list p) folders_are,
            ),
      )
