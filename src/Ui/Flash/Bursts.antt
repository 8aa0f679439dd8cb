-- ===== src/Ui/Flash/Bursts.antt =====
-- flash and has of UiFlashController.ts: which rows are tinted after a change, and when none is.
use kubiq.Base.{
  ℕ, ◌+◌, ◌≤◌, ◌<◌, ◌≡◌, refl, Bool, false, ◌||◌, List, [], ◌∷◌, ◌++◌, Option, none, some, arith,
  String, str_eq, str_eq_iff, ltb, leb, if◌then◌else◌, length, length-append, not, map_get, map_set,
  map_get-set,
}
use kubiq.Ui.Flash.{Flash, unexpired, recent, set_all, flash, has, events_within, is_suppressed}

-- The tests that came with `keys`.
abbrev pub listed : String → List String → Bool
listed k [] = false
listed k (j ∷ ks) = str_eq j k || listed k ks

map_get-set_all :
    (ks : List String) (at : ℕ) (m : List (String × ℕ)) (k : String)
    → map_get k (set_all ks at m) ≡ (if listed k ks then some at else map_get k m)
unfolding set_all
map_get-set_all [] at m k = refl
map_get-set_all (j ∷ ks) at m k =
    ground (arith, map_get-set_all ks at (map_set j at m) k, map_get-set j k at m)

-- A tint that is still running.
abbrev pub lit : ℕ → Option ℕ → Bool
lit now none = false
lit now (some at) = ltb now at

-- Each key stands once.
abbrev pub Unique : List (String × ℕ) → Type 0
Unique [] = Unit
Unique ((k, at) ∷ m) = (map_get k m ≡ none) × Unique m

map_get-unexpired-none :
    (now : ℕ) (m : List (String × ℕ)) (k : String)
    → map_get k m ≡ none
    → map_get k (unexpired now m) ≡ none
unfolding map_get unexpired
map_get-unexpired-none now [] k h = refl
map_get-unexpired-none now ((j, at) ∷ m) k h =
    ground (arith, map_get-unexpired-none now m k, str_eq_iff j k)

-- From `now` on, forgetting what is over changes no tint.
lit-unexpired :
    (now t : ℕ) (m : List (String × ℕ)) (k : String)
    → Unique m
    → now ≤ t
    → lit t (map_get k (unexpired now m)) ≡ lit t (map_get k m)
unfolding map_get unexpired
lit-unexpired now t [] k u le = refl
lit-unexpired now t ((j, at) ∷ m) k u le =
    ground (arith, lit-unexpired now t m k u.1 le, str_eq_iff j k, map_get-unexpired-none now m k)

-- Times do not fall along the list, start no earlier than `low`, and end by `high`.
abbrev pub InOrder : ℕ → List ℕ → ℕ → Type 0
InOrder low [] high = low ≤ high
InOrder low (at ∷ events) high = (low ≤ at) × InOrder at events high

-- The events of the window that ends at `now`.
abbrev pub newer : ℕ → ℕ → List ℕ → ℕ
newer window now [] = 0
newer window now (at ∷ events) = newer window now events + (if leb (at + window) now then 0 else 1)

-- Whether a change at `now` is within the burst limit: it and the changes in the window before it.
abbrev pub within_limit : ℕ → Flash → Bool
within_limit now f = leb (newer f.window now f.events + 1) f.burst_limit

all_newer :
    (window now low high : ℕ) (events : List ℕ)
    → now < low + window
    → InOrder low events high
    → newer window now events ≡ length events
all_newer window now low high [] h o = refl
all_newer window now low high (at ∷ events) h o =
    ground (arith, all_newer window now at high events)

length-recent :
    (window now low high : ℕ) (events : List ℕ)
    → InOrder low events high
    → length (recent window now events) ≡ newer window now events
unfolding recent
length-recent window now low high [] o = refl
length-recent window now low high (at ∷ events) o =
    ground (arith, length-recent window now at high events o.1, all_newer window now at high events)

all_within :
    (window now low high : ℕ) (events : List ℕ)
    → now < low + window
    → InOrder low events high
    → events_within window now events ≡ length events
unfolding events_within
all_within window now low high [] h o = refl
all_within window now low high (at ∷ events) h o =
    ground (arith, all_within window now at high events)

recent_within :
    (window now low high : ℕ) (events : List ℕ)
    → InOrder low events high
    → events_within window now (recent window now events) ≡ length (recent window now events)
unfolding recent events_within
recent_within window now low high [] o = refl
recent_within window now low high (at ∷ events) o =
    ground
      (arith, recent_within window now at high events o.1, all_within window now at high events)

within-append :
    (window now : ℕ) (xs ys : List ℕ)
    → events_within window now (xs ++ ys)
      ≡ events_within window now xs + events_within window now ys
unfolding events_within
within-append window now [] ys = omega arith
within-append window now (x ∷ xs) ys = omega (arith, within-append window now xs ys)

-- A change within the burst limit, counted over the window before it, tints its rows for the duration
-- and leaves every other tint as it was; a change above the limit takes every tint away. So for every
-- row and every time from the change on, if each row stands once in the map and the changes so far are
-- in order and not later than this one.
pub has-flash :
    (ks : List String) (k : String) (now t : ℕ) (f : Flash)
    → Unique f.expiry
    → InOrder 0 f.events now
    → now ≤ t
    → has k t (flash ks now f).0 ≡ (
        if within_limit now f
        then (if listed k ks then ltb t (now + f.duration) else has k t f)
        else false)
unfolding flash has map_get
has-flash ks k now t f u o le = ground (
  arith,
  length-recent f.window now 0 now f.events o,
  length-append (recent f.window now f.events) (now ∷ []),
  map_get-set_all ks (now + f.duration) (unexpired now f.expiry) k,
  lit-unexpired now t f.expiry k u le,
)

-- Right after a change, the table says that tints are suppressed exactly when the change tinted
-- nothing. The events so far are in order and not later than the change, and the window is not empty.
pub suppressed-flash :
    (ks : List String) (now : ℕ) (f : Flash)
    → InOrder 0 f.events now
    → 0 < f.window
    → is_suppressed now (flash ks now f).0 ≡ not (flash ks now f).1
unfolding flash is_suppressed events_within
suppressed-flash ks now f o w =
    let kept = recent f.window now f.events in
    let total = within-append f.window now kept (now ∷ []) in
    let first = recent_within f.window now 0 now f.events o in
    ground (arith, length-append kept (now ∷ []), total, first)
