-- ===== src/Cluster/Health/Reports.antt =====
-- What a series of reports leaves: in the monitor, and in the store that its events filled.
use kubiq.Cluster.Health.{
  Health, Fault, Monitor, Changed, Store, new_monitor, health_of, detail_of, misses_of, apply,
  succeeded, failed_with, failed, forget, forget_all, new_store, shown_health, shown_detail, set,
  forget_shown, health_eq, is_healthy, needs_reconnect, or_else, failures_before_degraded,
}
use kubiq.Base.{
  ℕ, sym, ap, ◌∙◌, ◌&&◌, ◌||◌, not, none, some, str_eq, map_get-set, inl, inr, Bool-cases, arith,
  str_eq_iff, map_get-delete, ◌+◌, ◌≡◌, refl, Bool, true, false, List, [], ◌∷◌, String, leb,
  map_get, map_set, map_delete, if◌then◌else◌,
}

-- What happens to a cluster's connection.
pub data Report : Type 0 where
  answered : (id : String) → Report
  refused : (id : String) → (fault : Fault) → Report
  -- KubeContextProvider.release and releaseAll, which the monitor alone hears of.
  released : (id : String) → Report
  released_all : Report
  -- ClusterDisconnectedEvent, which ClusterSessionHandler passes to the store.
  disconnected : (id : String) → Report

pub publish : List Changed → Store → Store
publish [] s = s
publish (e ∷ events) s = publish events (set e s)

-- One report, as the monitor takes it and its events reach the store.
pub report : (lower : String → String) → Report → Monitor × Store → Monitor × Store
unfolding publish
report lower (Report.answered id) (m, s) = ((succeeded id m).0, publish (succeeded id m).1 s)
report lower (Report.refused id fault) (m, s) =
    ((failed lower id fault m).0, publish (failed lower id fault m).1 s)
report lower (Report.released id) (m, s) = (forget id m, s)
report lower Report.released_all (m, s) = (forget_all m, s)
report lower (Report.disconnected id) (m, s) = (m, forget_shown id s)

pub report_all : (lower : String → String) → List Report → Monitor × Store → Monitor × Store
unfolding report
report_all lower [] both = both
report_all lower (r ∷ rs) both = report_all lower rs (report lower r both)

-- What the monitor and the store have of one cluster.
AgreesAt : String → Monitor × Store → Type 0
AgreesAt id (m, s) =
    (map_get id s.health ≡ map_get id m.health) × (map_get id s.details ≡ map_get id m.details)

-- The monitor has nothing of a cluster.
Forgotten : String → Monitor × List Changed → Type 0
Forgotten id (m, events) = (map_get id m.health ≡ none) × (map_get id m.details ≡ none)

-- The store follows when the events that come with a new state are published.
FollowsAt : String → Store → Monitor × List Changed → Type 0
FollowsAt id s (m, events) = AgreesAt id (m, publish events s)

-- What holds of both branches of a test holds of it.
if_both :
    (P : Monitor × List Changed → Type 0) (x y : Monitor × List Changed)
    → P x
    → P y
    → (b : Bool) → P (if b then x else y)
if_both P x y a c true = a
if_both P x y a c false = c

map_get-set_both {ℓ} :
    {A : Type ℓ} (id j : String) (v : A) (xs ys : List (String × A))
    → map_get id xs ≡ map_get id ys
    → map_get id (map_set j v xs) ≡ map_get id (map_set j v ys)
map_get-set_both id j v xs ys e =
    map_get-set j id v xs
    ∙ ap (λ o. if str_eq j id then some v else o) e
    ∙ sym (map_get-set j id v ys)

map_get-set_other {ℓ} :
    {A : Type ℓ} (id j : String) (v : A) (xs : List (String × A))
    → str_eq j id ≡ false
    → map_get id xs ≡ none
    → map_get id (map_set j v xs) ≡ none
map_get-set_other id j v xs n e = map_get-set j id v xs ∙ rw (n) e

-- What `apply`, `succeeded` and `failed` keep, for a predicate that a changed count of misses and the
-- two branches of `apply` keep.
module _ (j : String) (P : Monitor × List Changed → Type 0)
    (counts : (m : Monitor) (misses : List (String × ℕ))
      → P (m, [])
      → P (record m { misses = misses }, []))
    (applies : (h : Health) (d : String) (m : Monitor) → P (m, []) → P (apply j h d m)) where
  succeeded_keeps : (m : Monitor) → P (m, []) → P (succeeded j m)
  unfolding succeeded
  succeeded_keeps m a = applies Health.healthy "" _ (counts m (map_delete j m.misses) a)

  failed_keeps : (h : Health) (d : String) (m : Monitor) → P (m, []) → P (failed_with j h d m)
  unfolding failed_with
  failed_keeps h d m a =
      let missed = misses_of j m + 1 in
      let counted = record m { misses = map_set j missed m.misses } in
      let kept = counts m (map_set j missed m.misses) a in
      if_both P _ _ (succeeded_keeps m a)
        (if_both P _ _ (applies h d m a)
          (if_both P _ _ (applies h d counted kept) kept (leb failures_before_degraded missed))
          (needs_reconnect h))
        (is_healthy h)

apply-FollowsAt :
    (id j : String) (s : Store) (h : Health) (d : String) (m : Monitor)
    → FollowsAt id s (m, [])
    → FollowsAt id s (apply j h d m)
unfolding FollowsAt AgreesAt apply publish set
apply-FollowsAt id j s h d m a =
    if_both (FollowsAt id s) _ _ a
      (
        map_get-set_both id j h s.health m.health a.0,
        map_get-set_both id j d s.details m.details a.1,
      )
      (health_eq (health_of j m) h)

apply-Forgotten :
    (id j : String) (h : Health) (d : String) (m : Monitor)
    → str_eq j id ≡ false
    → Forgotten id (m, [])
    → Forgotten id (apply j h d m)
unfolding Forgotten apply
apply-Forgotten id j h d m n a =
    if_both (Forgotten id) _ _ a
      (map_get-set_other id j h m.health n a.0, map_get-set_other id j d m.details n a.1)
      (health_eq (health_of j m) h)

-- Whether each release of a cluster, by itself or with all others, is followed by its disconnection
-- before anything else is reported of the cluster, and nothing else disconnects it. `waiting` says that
-- the disconnection is due. Reports of other clusters may stand anywhere.
unfoldable pub in_order : String → Bool → List Report → Bool
in_order id waiting [] = not waiting
in_order id waiting (Report.answered j ∷ rs) =
    not (waiting && str_eq j id) && in_order id waiting rs
in_order id waiting (Report.refused j fault ∷ rs) =
    not (waiting && str_eq j id) && in_order id waiting rs
in_order id waiting (Report.released j ∷ rs) = in_order id (waiting || str_eq j id) rs
in_order id waiting (Report.released_all ∷ rs) = in_order id true rs
in_order id waiting (Report.disconnected j ∷ rs) =
    (waiting || not (str_eq j id)) && in_order id (waiting && not (str_eq j id)) rs

-- While the disconnection is due the monitor has nothing of the cluster; else the two agree of it.
Holds : String → Bool → Monitor × Store → Type 0
Holds id true (m, s) = Forgotten id (m, [])
Holds id false both = AgreesAt id both

map_get-delete_both {ℓ} :
    {A : Type ℓ} (id j : String) (xs ys : List (String × A))
    → str_eq j id ≡ false
    → map_get id xs ≡ map_get id ys
    → map_get id (map_delete j xs) ≡ map_get id ys
map_get-delete_both id j xs ys n e = map_get-delete j id xs ∙ rw (n) e

map_get-delete_none {ℓ} :
    {A : Type ℓ} (id j : String) (xs : List (String × A))
    → map_get id xs ≡ none
    → map_get id (map_delete j xs) ≡ none
map_get-delete_none id j xs e = map_get-delete j id xs ∙ ground (arith, e)

map_get-delete_same {ℓ} :
    {A : Type ℓ} (id j : String) (xs : List (String × A))
    → str_eq j id ≡ true
    → map_get id (map_delete j xs) ≡ none
map_get-delete_same id j xs h = map_get-delete j id xs ∙ rw (h) refl

module _ (lower : String → String) (id : String) where
  -- What the next report must leave: some `next` that the rest of the history is in order for.
  Leads : List Report → Monitor × Store → Type 0
  Leads rs both = (next : Bool) × (in_order id next rs ≡ true) × Holds id next both

  answered-Leads :
      (j : String) (rs : List Report) (waiting : Bool) (both : Monitor × Store)
      → in_order id waiting (Report.answered j ∷ rs) ≡ true
      → Holds id waiting both
      → Leads rs (report lower (Report.answered j) both)
  unfolding Leads report in_order Holds Forgotten FollowsAt AgreesAt publish
  answered-Leads j rs true (m, s) h a =
      let other : str_eq j id ≡ false = ground (arith, h) in
      (
        true,
        ground (arith, h),
        succeeded_keeps j (Forgotten id) (λ m misses a. a)
            (λ g d m a. apply-Forgotten id j g d m other a) m a,
      )
  answered-Leads j rs false (m, s) h a = (
    false,
    ground (arith, h),
    succeeded_keeps j (FollowsAt id s) (λ m misses a. a) (apply-FollowsAt id j s) m a,
  )

  refused-Leads :
      (j : String) (fault : Fault) (rs : List Report) (waiting : Bool) (both : Monitor × Store)
      → in_order id waiting (Report.refused j fault ∷ rs) ≡ true
      → Holds id waiting both
      → Leads rs (report lower (Report.refused j fault) both)
  unfolding Leads report in_order Holds failed Forgotten FollowsAt AgreesAt publish
  refused-Leads j fault rs true (m, s) h a =
      let other : str_eq j id ≡ false = ground (arith, h) in
      (
        true,
        ground (arith, h),
        failed_keeps j (Forgotten id) (λ m misses a. a)
            (λ g d m a. apply-Forgotten id j g d m other a) _ _ m a,
      )
  refused-Leads j fault rs false (m, s) h a = (
    false,
    ground (arith, h),
    failed_keeps j (FollowsAt id s) (λ m misses a. a) (apply-FollowsAt id j s) _ _ m a,
  )

  released-Leads :
      (j : String) (rs : List Report) (waiting : Bool) (both : Monitor × Store)
      → in_order id waiting (Report.released j ∷ rs) ≡ true
      → Holds id waiting both
      → Leads rs (report lower (Report.released j) both)
  unfolding Leads report in_order Holds Forgotten AgreesAt forget
  released-Leads j rs true (m, s) h a =
      (true, h, (map_get-delete_none id j m.health a.0, map_get-delete_none id j m.details a.1))
  released-Leads j rs false (m, s) h a = elim (Bool-cases (str_eq j id)) [
    | inl e ↦ (
      true,
      ground (arith, h, e),
      (map_get-delete_same id j m.health e, map_get-delete_same id j m.details e),
    )
    | inr e ↦ (
      false,
      ground (arith, h, e),
      (
        sym (map_get-delete_both id j m.health s.health e (sym a.0)),
        sym (map_get-delete_both id j m.details s.details e (sym a.1)),
      ),
    )
  ]

  disconnected-Leads :
      (j : String) (rs : List Report) (waiting : Bool) (both : Monitor × Store)
      → in_order id waiting (Report.disconnected j ∷ rs) ≡ true
      → Holds id waiting both
      → Leads rs (report lower (Report.disconnected j) both)
  unfolding Leads report in_order Holds Forgotten AgreesAt forget_shown
  disconnected-Leads j rs true (m, s) h a = elim (Bool-cases (str_eq j id)) [
    | inl e ↦ (
      false,
      ground (arith, h, e),
      (
        map_get-delete_same id j s.health e ∙ sym a.0,
        map_get-delete_same id j s.details e ∙ sym a.1,
      ),
    )
    | inr e ↦ (true, ground (arith, h, e), a)
  ]
  disconnected-Leads j rs false (m, s) h a =
      let other : str_eq j id ≡ false = ground (arith, h) in
      (
        false,
        ground (arith, h),
        (
          map_get-delete_both id j s.health m.health other a.0,
          map_get-delete_both id j s.details m.details other a.1,
        ),
      )

  report-Leads :
      (r : Report) (rs : List Report) (waiting : Bool) (both : Monitor × Store)
      → in_order id waiting (r ∷ rs) ≡ true
      → Holds id waiting both
      → Leads rs (report lower r both)
  unfolding Leads report in_order Holds Forgotten forget_all map_get
  report-Leads (Report.answered j) rs waiting both h a = answered-Leads j rs waiting both h a
  report-Leads (Report.refused j fault) rs waiting both h a =
      refused-Leads j fault rs waiting both h a
  report-Leads (Report.released j) rs waiting both h a = released-Leads j rs waiting both h a
  report-Leads Report.released_all rs waiting (m, s) h a = (true, h, (refl, refl))
  report-Leads (Report.disconnected j) rs waiting both h a =
      disconnected-Leads j rs waiting both h a

  report_all-AgreesAt :
      (rs : List Report) (waiting : Bool) (both : Monitor × Store)
      → in_order id waiting rs ≡ true
      → Holds id waiting both
      → AgreesAt id (report_all lower rs both)
  unfolding report_all in_order Holds Leads
  report_all-AgreesAt [] true both h a = cc
  report_all-AgreesAt [] false both h a = a
  report_all-AgreesAt (r ∷ rs) waiting both h a =
      let (next, rest, held) = report-Leads r rs waiting both h a in
      report_all-AgreesAt rs next (report lower r both) rest held

-- In a history since the start in which each release of a cluster, alone or with all others, is
-- followed by that cluster's disconnection before anything else is reported of it, and in which nothing
-- else disconnects it, the store that the monitor's events filled shows for the cluster the health and
-- the detail that the monitor has. Answers, refusals, releases and disconnections of other clusters may
-- come in any order.
pub store-agrees :
    (lower : String → String) (rs : List Report) (id : String)
    → in_order id false rs ≡ true
    → let both = report_all lower rs (new_monitor, new_store) in
      (shown_health id both.1 ≡ health_of id both.0)
      × (shown_detail id both.1 ≡ detail_of id both.0)
unfolding Holds AgreesAt new_monitor new_store shown_health health_of shown_detail detail_of
store-agrees lower rs id h =
    let both = report_all lower rs (new_monitor, new_store) in
    let a : AgreesAt id both =
      report_all-AgreesAt lower id rs false (new_monitor, new_store) h (refl, refl) in
    ((λ i. or_else Health.healthy (a.0 i)), (λ i. or_else "" (a.1 i)))

-- Where the monitor alone forgets a cluster and the cluster answers again, no event comes of the
-- answer: the store goes on showing the health that it had.
pub forgotten_stays_shown :
    (id : String) (m : Monitor) (s : Store)
    → let answer = succeeded id (forget id m) in
      (health_of id answer.0 ≡ Health.healthy)
      × (shown_health id (publish answer.1 s) ≡ shown_health id s)
unfolding succeeded forget apply health_of or_else publish
forgotten_stays_shown id m s = ground (arith, map_get-delete id id m.health, str_eq_iff id id)
