-- ===== src/Ui/RouteQuery/Keys.antt =====
-- The fields of RouteQueryState.ts keep their keys through what a view does.
use kubiq.Ui.RouteQuery.{Query, Field, text, or_fallback, read_back, set_field}
use kubiq.Ui.RouteQuery.Settling.{Distinct}
use kubiq.Base.{
  ◌≡◌, refl, sym, ap, ◌∙◌, subst, inl, inr, false, List, [], ◌∷◌, String, str_eq, map_get, All,
  Bool-cases,
}

-- The keys of the fields stay what they are.
pub SameKeys : List Field → List Field → Type 0
SameKeys [] [] = Unit
SameKeys (f ∷ fs) (g ∷ gs) = (f.key ≡ g.key) × SameKeys fs gs
SameKeys [] (g ∷ gs) = ⊥
SameKeys (f ∷ fs) [] = ⊥

SameKeys-refl : (fs : List Field) → SameKeys fs fs
unfolding SameKeys
SameKeys-refl [] = tt
SameKeys-refl (f ∷ fs) = (refl, SameKeys-refl fs)

SameKeys-All :
    (k : String) (fs gs : List Field)
    → SameKeys fs gs
    → All (λ (g : Field). str_eq g.key k ≡ false) fs
    → All (λ (g : Field). str_eq g.key k ≡ false) gs
unfolding SameKeys
SameKeys-All k [] [] e h = tt
SameKeys-All k [] (g ∷ gs) e h = elim e [ ]
SameKeys-All k (f ∷ fs) [] e h = elim e [ ]
SameKeys-All k (f ∷ fs) (g ∷ gs) e h =
    (ap (λ j. str_eq j k) (sym e.0) ∙ h.0, SameKeys-All k fs gs e.1 h.1)

pub SameKeys-Distinct : (fs gs : List Field) → SameKeys fs gs → Distinct fs → Distinct gs
unfolding SameKeys
SameKeys-Distinct [] [] e d = tt
SameKeys-Distinct [] (g ∷ gs) e d = elim e [ ]
SameKeys-Distinct (f ∷ fs) [] e d = elim e [ ]
SameKeys-Distinct (f ∷ fs) (g ∷ gs) e d = (
  subst (λ k. All (λ (h : Field). str_eq h.key k ≡ false) gs) e.0
      (SameKeys-All f.key fs gs e.1 d.0),
  SameKeys-Distinct fs gs e.1 d.1,
)

pub SameKeys-set_field : (k v : String) (fs : List Field) → SameKeys fs (set_field k v fs)
unfolding SameKeys set_field
SameKeys-set_field k v [] = tt
SameKeys-set_field k v (f ∷ fs) = elim (Bool-cases (str_eq f.key k)) [
  | inl e ↦ rw (e, set_field) (refl, SameKeys-refl fs)
  | inr e ↦ rw (e, set_field) (refl, SameKeys-set_field k v fs)
]

pub SameKeys-read_back :
    (kept : String → String → String) (query : Query) (fs : List Field)
    → SameKeys fs (read_back kept query fs).0
unfolding SameKeys read_back
SameKeys-read_back kept query [] = tt
SameKeys-read_back kept query (f ∷ fs) =
    elim (Bool-cases (str_eq f.value (or_fallback f (text (map_get f.key query))))) [
      | inl e ↦ rw (e, read_back) (refl, SameKeys-read_back kept query fs)
      | inr e ↦ rw (e, read_back) (refl, SameKeys-read_back kept query fs)
    ]
