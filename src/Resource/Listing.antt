-- ===== src/Resource/Listing.antt =====
-- frontend/src/application/services/resourceList/ResourceListService.ts: a list is one page for each
-- namespace. The pages are what the cluster answers, in the order of the scopes; `E` is the entities.
use kubiq.Base.{ℕ, ◌+◌, Bool, List, [], ◌∷◌, ◌++◌, Option, none, some, String, if◌then◌else◌}

-- TResourceScopeCursor
pub record Cursor : Type 0 where
  pub namespace : String
  pub resource_version : String

pub record Page (E : Type 0) : Type 0 where
  pub items : List E
  pub total : Option ℕ
  pub start : Option String

-- TResourceListResult
pub record Result (E : Type 0) : Type 0 where
  pub items : List E
  pub total : Option ℕ
  pub cursors : List Cursor

abbrev pub or_all : List String → List String
or_all [] = "" ∷ []
or_all (n ∷ ns) = n ∷ ns

unfoldable pub scopes : Bool → Option (List String) → List String
scopes namespaced namespaces =
    or_all (if namespaced then elim namespaces [ none ↦ [] | some ns ↦ ns ] else [])

abbrev pub version_of : Option String → String
version_of none = ""
version_of (some v) = v

module _ {E : Type 0} where
  -- The loop of `sumTotals`.
  unfoldable pub sum_from : ℕ → List (Page E) → Option ℕ
  sum_from total [] = some total
  sum_from total (p ∷ ps) = elim p.total [ none ↦ none | some t ↦ sum_from (total + t) ps ]

  unfoldable pub items_of : List (Page E) → List E
  items_of [] = []
  items_of (p ∷ ps) = p.items ++ items_of ps

  unfoldable pub cursors_of : List String → List (Page E) → List Cursor
  cursors_of (n ∷ ns) (p ∷ ps) =
      record { namespace = n; resource_version = version_of p.start } ∷ cursors_of ns ps
  cursors_of _ _ = []

  -- `list`, from the pages that answer its scopes.
  unfoldable pub list : List String → List (Page E) → Result E
  unfolding sum_from items_of cursors_of
  list names pages = record {
    items = items_of pages;
    total = sum_from 0 pages;
    cursors = cursors_of names pages;
  }
