-- ===== src/Ui/Flash.antt =====
-- frontend/src/components/common/table/UiFlashController.ts: which rows of a live table are tinted.
-- The expiry map is an association list, time an argument. `now - windowMs` may be negative there:
-- `at > now - windowMs` is `now < at + windowMs` here.
pub mod Bursts
mod Tests
use kubiq.Base.{
  ℕ, ◌+◌, ◌≡◌, refl, Bool, true, false, ◌||◌, not, List, [], ◌∷◌, ◌++◌, map, Option, none, some,
  String, ltb, leb, if◌then◌else◌, length, map_get, map_set,
}

pub record Flash : Type 0 where
  pub events : List ℕ
  pub expiry : List (String × ℕ)
  pub duration : ℕ
  pub burst_limit : ℕ
  pub window : ℕ

abbrev pub new : ℕ → ℕ → ℕ → Flash
new duration burst_limit window = record {
  events = [];
  expiry = [];
  duration = duration;
  burst_limit = burst_limit;
  window = window;
}

-- The entries that `prune` leaves.
pub unexpired : ℕ → List (String × ℕ) → List (String × ℕ)
unexpired now [] = []
unexpired now ((k, at) ∷ m) = if leb at now then unexpired now m else (k, at) ∷ unexpired now m

pub some_expired : ℕ → List (String × ℕ) → Bool
some_expired now [] = false
some_expired now ((k, at) ∷ m) = leb at now || some_expired now m

pub prune : ℕ → Flash → Flash × Bool
unfolding unexpired some_expired
prune now f = (record f { expiry = unexpired now f.expiry }, some_expired now f.expiry)

-- `shift()` while the first event is out of the window.
pub recent : ℕ → ℕ → List ℕ → List ℕ
recent window now [] = []
recent window now (at ∷ events) =
    if leb (at + window) now then recent window now events else at ∷ events

pub forget_stale_events : ℕ → Flash → Flash
unfolding recent
forget_stale_events now f = record f { events = recent f.window now f.events }

pub set_all : List String → ℕ → List (String × ℕ) → List (String × ℕ)
set_all [] at m = m
set_all (k ∷ ks) at m = set_all ks at (map_set k at m)

pub flash : List String → ℕ → Flash → Flash × Bool
unfolding prune forget_stale_events set_all
flash keys now f =
    let kept = forget_stale_events now (prune now f).0 in
    let pushed = record kept { events = kept.events ++ now ∷ [] } in
    if ltb f.burst_limit (length pushed.events)
    then (record pushed { expiry = [] }, false)
    else (record pushed { expiry = set_all keys (now + f.duration) pushed.expiry }, true)

pub has : String → ℕ → Flash → Bool
has key now f = elim (map_get key f.expiry) [ none ↦ false | some at ↦ ltb now at ]

pub keys : Flash → List String
keys f = map (λ e. e.0) f.expiry

pub events_within : ℕ → ℕ → List ℕ → ℕ
events_within window now [] = 0
events_within window now (at ∷ events) =
    (if ltb now (at + window) then 1 else 0) + events_within window now events

pub is_suppressed : ℕ → Flash → Bool
unfolding events_within
is_suppressed now f = ltb f.burst_limit (events_within f.window now f.events)

pub active : Flash → Bool
active f = not (leb (length f.expiry) 0)

pub clear : Flash → Flash
clear f = record f { events = []; expiry = [] }
