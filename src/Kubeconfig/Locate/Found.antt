-- ===== src/Kubeconfig/Locate/Found.antt =====
-- scan of KubeconfigService.ts: the list of paths, as a set.
use kubiq.Kubeconfig.{Outcome, done, File, is_candidate}
use kubiq.Kubeconfig.Locate.{
  includes, distinct_from, distinct, insert, sort, candidates, comes_after, is_folder,
}
use kubiq.Base.{
  ◌≡◌, refl, ◌∙◌, inl, inr, Bool, false, not, ◌&&◌, ◌||◌, List, [], ◌∷◌, ◌++◌, Option, Text,
  text_eq, text_eq_iff, arith, if◌then◌else◌, Bool-cases,
}

abbrev pub Unique : List Text → Type 0
Unique [] = Unit
Unique (p ∷ ps) = (includes p ps ≡ false) × Unique ps

pub includes-append :
    (p : Text) (xs ys : List Text) → includes p (xs ++ ys) ≡ (includes p xs || includes p ys)
unfolding includes
includes-append p [] ys = refl
includes-append p (x ∷ xs) ys = ground (arith, includes-append p xs ys)

pub Unique-append :
    (p : Text) (xs : List Text) → Unique xs → includes p xs ≡ false → Unique (xs ++ p ∷ [])
unfolding includes
Unique-append p [] u h = (refl, tt)
Unique-append p (x ∷ xs) u h = (
  includes-append x xs (p ∷ []) ∙ ground (arith, h, u.0, text_eq_iff x p, text_eq_iff p x),
  Unique-append p xs u.1 (ground (arith, h)),
)

includes-distinct_from :
    (p : Text) (seen ps : List Text)
    → includes p (distinct_from seen ps) ≡ (includes p ps && not (includes p seen))
unfolding distinct_from includes
includes-distinct_from p seen [] = refl
includes-distinct_from p seen (q ∷ ps) = ground (
  arith,
  includes-distinct_from p seen ps,
  includes-distinct_from p (q ∷ seen) ps,
  text_eq_iff q p,
)

pub includes-distinct : (p : Text) (ps : List Text) → includes p (distinct ps) ≡ includes p ps
unfolding distinct includes
includes-distinct p ps = ground (arith, includes-distinct_from p [] ps)

distinct_from-Unique : (seen ps : List Text) → Unique (distinct_from seen ps)
unfolding distinct_from includes
distinct_from-Unique seen [] = tt
distinct_from-Unique seen (p ∷ ps) = elim (Bool-cases (includes p seen)) [
  | inl e ↦ rw (e, distinct_from) (distinct_from-Unique seen ps)
  | inr e ↦
      rw (e, distinct_from)
        (
          includes-distinct_from p (p ∷ seen) ps ∙ ground (arith, text_eq_iff p p),
          distinct_from-Unique (p ∷ seen) ps,
        )
]

pub distinct-Unique : (ps : List Text) → Unique (distinct ps)
unfolding distinct
distinct-Unique ps = distinct_from-Unique [] ps

-- A path is that of one of the files.
unfoldable pub has_path : Text → List File → Bool
has_path p [] = false
has_path p (f ∷ fs) = text_eq f.path p || has_path p fs

-- A path is that of a candidate among the entries of a folder.
unfoldable pub has_candidate : Text → List File → Bool
has_candidate p [] = false
has_candidate p (f ∷ fs) = (is_candidate f && text_eq f.path p) || has_candidate p fs

has_path-insert :
    (follows : Text → Text → Bool) (p : Text) (f : File) (fs : List File)
    → has_path p (insert follows f fs) ≡ (text_eq f.path p || has_path p fs)
unfolding has_path insert
has_path-insert follows p f [] = refl
has_path-insert follows p f (g ∷ fs) = elim (Bool-cases (comes_after follows f g)) [
  | inl e ↦ rw (e, insert) ground (arith, has_path-insert follows p f fs)
  | inr e ↦ rw (e, insert) refl
]

pub has_path-sort :
    (follows : Text → Text → Bool) (p : Text) (fs : List File)
    → has_path p (sort follows (candidates fs)) ≡ has_candidate p fs
unfolding has_path sort candidates has_candidate
has_path-sort follows p [] = refl
has_path-sort follows p (f ∷ fs) = elim (Bool-cases (is_candidate f)) [
  | inl e ↦
      rw (e, candidates)
        (has_path-insert follows p f (sort follows (candidates fs))
          ∙ ground (arith, has_path-sort follows p fs))
  | inr e ↦ rw (e, candidates) (has_path-sort follows p fs)
]

-- Whether the file system says that a path is a folder.
abbrev pub answered_folder : Outcome (Option File) → Bool
answered_folder (done e) = is_folder e
answered_folder _ = false

unfoldable pub files_among : (Text → Outcome (Option File)) → List Text → List Text
files_among stat [] = []
files_among stat (p ∷ ps) =
    let rest = files_among stat ps in if answered_folder (stat p) then rest else p ∷ rest

unfoldable pub folders_among : (Text → Outcome (Option File)) → List Text → List Text
folders_among stat [] = []
folders_among stat (p ∷ ps) =
    let rest = folders_among stat ps in if answered_folder (stat p) then p ∷ rest else rest

pub includes-files_among :
    (stat : Text → Outcome (Option File)) (p : Text) (ps : List Text)
    → includes p (files_among stat ps) ≡ (includes p ps && not (answered_folder (stat p)))
unfolding includes files_among
includes-files_among stat p [] = refl
includes-files_among stat p (q ∷ ps) =
    ground (arith, includes-files_among stat p ps, text_eq_iff q p)

pub files_among-Unique :
    (stat : Text → Outcome (Option File)) (ps : List Text)
    → Unique ps
    → Unique (files_among stat ps)
unfolding files_among
files_among-Unique stat [] u = tt
files_among-Unique stat (p ∷ ps) u = elim (Bool-cases (answered_folder (stat p))) [
  | inl e ↦ rw (e, files_among) (files_among-Unique stat ps u.1)
  | inr e ↦
      rw (e, files_among)
        (ground (arith, includes-files_among stat p ps, u.0), files_among-Unique stat ps u.1)
]
