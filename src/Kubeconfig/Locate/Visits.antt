-- ===== src/Kubeconfig/Locate/Visits.antt =====
-- scan of KubeconfigService.ts: its two loops over paths and over candidates.
use kubiq.Kubeconfig.{Outcome, done, >>=-done, Outcome-cases, File}
use kubiq.Kubeconfig.Locate.{
  Scan, Environment, includes, is_folder, classify, visit_one, visit, named,
}
use kubiq.Kubeconfig.Locate.Found.{
  Unique, includes-append, Unique-append, distinct-Unique, has_path, files_among, folders_among,
}
use kubiq.Base.{
  ◌≡◌, refl, sym, ap, ◌∙◌, subst, inl, inr, ◌⊎◌, Bool, true, false, ◌&&◌, ◌||◌, List, [], ◌∷◌, ◌++◌,
  Option, Text, text_eq, text_eq_iff, arith, if◌then◌else◌, Bool-cases,
}

abbrev pub answered_true : Outcome Bool → Bool
answered_true (done b) = b
answered_true _ = false

pub done-injective : {A : Type 0} (a b : A) → done a ≡ done b → a ≡ b
done-injective a b h = cc

pub named-Unique : (env : Environment) (extra_paths : List Text) → Unique (named env extra_paths)
unfolding named
named-Unique env extra_paths = distinct-Unique _

module _ (stat : Text → Outcome (Option File)) where
  -- Where a path goes.
  abbrev placed : Text → Option File → List Text × List Text → List Text × List Text
  placed p e rest = if is_folder e then (rest.0, p ∷ rest.1) else (p ∷ rest.0, rest.1)

  placed-among :
      (p : Text) (ps : List Text) (e : Option File)
      → stat p ≡ done e
      → placed p e (files_among stat ps, folders_among stat ps)
        ≡ (files_among stat (p ∷ ps), folders_among stat (p ∷ ps))
  unfolding files_among folders_among
  placed-among p ps e h =
      rw (h, files_among, folders_among)
        (elim (Bool-cases (is_folder e)) [ inl f ↦ rw (f) refl | inr f ↦ rw (f) refl ])

  pub classify-among :
      (ps : List Text) (r : List Text × List Text)
      → classify stat ps ≡ done r
      → r ≡ (files_among stat ps, folders_among stat ps)
  unfolding classify files_among folders_among
  classify-among [] r h = sym (done-injective _ r h)
  classify-among (p ∷ ps) r h =
      let (e, es, h') = >>=-done (stat p) _ r h in
      let (rest, er, h'') = >>=-done (classify stat ps) _ r h' in
      sym (done-injective _ r h'')
      ∙ ap (placed p e) (classify-among ps rest er)
      ∙ placed-among p ps e es

module _ (is_kubeconfig : Text → Outcome Bool) where
  visit_one-includes :
      (p : Text) (c : File) (s s' : Scan)
      → visit_one is_kubeconfig c s ≡ done s'
      → includes p s'.files
        ≡ (includes p s.files || (text_eq c.path p && answered_true (is_kubeconfig p)))
  unfolding visit_one includes
  visit_one-includes p c s s' h = elim (Bool-cases (includes c.path s.files)) [
    | inl e ↦ ground (arith, e, h, text_eq_iff c.path p)
    | inr e ↦ elim (Outcome-cases (is_kubeconfig c.path)) [
      | inl (b, a) ↦
          ground (arith, e, a, h, text_eq_iff c.path p, includes-append p s.files (c.path ∷ []))
      | inr (inl (x, a)) ↦ ground (arith, e, a, h, text_eq_iff c.path p)
      | inr (inr (t, a)) ↦ ground (arith, e, a, h)
    ]
  ]

  visit_one-files :
      (c : File) (s s' : Scan)
      → visit_one is_kubeconfig c s ≡ done s'
      → (s'.files ≡ s.files)
        ⊎ ((includes c.path s.files ≡ false) × (s'.files ≡ s.files ++ c.path ∷ []))
  unfolding visit_one
  visit_one-files c s s' h = elim (Bool-cases (includes c.path s.files)) [
    | inl e ↦ inl (ground (arith, e, h))
    | inr e ↦ elim (Outcome-cases (is_kubeconfig c.path)) [
      | inl (true, a) ↦ inr (e, ground (arith, e, a, h))
      | inl (false, a) ↦ inl (ground (arith, e, a, h))
      | inr (inl (x, a)) ↦ inl (ground (arith, e, a, h))
      | inr (inr (t, a)) ↦ absurd (ground (arith, e, a, h))
    ]
  ]

  visit_one-Unique :
      (c : File) (s s' : Scan)
      → visit_one is_kubeconfig c s ≡ done s'
      → Unique s.files
      → Unique s'.files
  visit_one-Unique c s s' h u = elim (visit_one-files c s s' h) [
    | inl e ↦ subst Unique (sym e) u
    | inr (new, e) ↦ subst Unique (sym e) (Unique-append c.path s.files u new)
  ]

  pub visit-includes :
      (p : Text) (cs : List File) (s s' : Scan)
      → visit is_kubeconfig cs s ≡ done s'
      → includes p s'.files
        ≡ (includes p s.files || (has_path p cs && answered_true (is_kubeconfig p)))
  unfolding visit has_path
  visit-includes p [] s s' h = ground (arith, h)
  visit-includes p (c ∷ cs) s s' h =
      let (next, one, rest) = >>=-done (visit_one is_kubeconfig c s) _ s' h in
      ground (arith, visit-includes p cs next s' rest, visit_one-includes p c s next one)

  pub visit-Unique :
      (cs : List File) (s s' : Scan)
      → visit is_kubeconfig cs s ≡ done s'
      → Unique s.files
      → Unique s'.files
  unfolding visit
  visit-Unique [] s s' h u = subst (λ (x : Scan). Unique x.files) (done-injective s s' h) u
  visit-Unique (c ∷ cs) s s' h u =
      let (next, one, rest) = >>=-done (visit_one is_kubeconfig c s) _ s' h in
      visit-Unique cs next s' rest (visit_one-Unique c s next one u)
