-- ===== src/Cluster/Health/Streaks.antt =====
-- How many refusals in a row it takes before a cluster is shown unhealthy.
mod Tests
use kubiq.Cluster.Health.{
  Health, Fault, Monitor, of_failure, fault_kind, message_of, health_of, misses_of, apply,
  succeeded, failed_with, failed, health_eq, or_else, failures_before_degraded,
}
use kubiq.Base.{
  All, ap₂, ℕ, suc, ◌+◌, ◌≡◌, refl, ap, ◌∙◌, Bool, true, false, List, [], ◌∷◌, String, arith,
  str_eq, str_eq_iff, leb, length, map_set, map_delete, map_get-set, map_get-delete, if◌then◌else◌,
}

health_eq-true : (a b : Health) → health_eq a b ≡ true → a ≡ b
health_eq-true Health.healthy Health.healthy h = refl
health_eq-true Health.degraded Health.degraded h = refl
health_eq-true Health.expired Health.expired h = refl
health_eq-true Health.unreachable Health.unreachable h = refl
health_eq-true Health.healthy Health.degraded h = ground arith
health_eq-true Health.healthy Health.expired h = ground arith
health_eq-true Health.healthy Health.unreachable h = ground arith
health_eq-true Health.degraded Health.healthy h = ground arith
health_eq-true Health.degraded Health.expired h = ground arith
health_eq-true Health.degraded Health.unreachable h = ground arith
health_eq-true Health.expired Health.healthy h = ground arith
health_eq-true Health.expired Health.degraded h = ground arith
health_eq-true Health.expired Health.unreachable h = ground arith
health_eq-true Health.unreachable Health.healthy h = ground arith
health_eq-true Health.unreachable Health.degraded h = ground arith
health_eq-true Health.unreachable Health.expired h = ground arith

health_of-apply :
    (id j : String) (h : Health) (d : String) (m : Monitor)
    → health_of j (apply id h d m).0 ≡ (if str_eq id j then h else health_of j m)
unfolding apply health_of or_else
health_of-apply id j h d m =
    ground (arith, health_eq-true (health_of id m) h, str_eq_iff id j, map_get-set id j h m.health)

misses_of-apply :
    (id j : String) (h : Health) (d : String) (m : Monitor)
    → misses_of j (apply id h d m).0 ≡ misses_of j m
unfolding apply misses_of
misses_of-apply id j h d m = ground arith

-- A refusal that is counted: the cluster did not answer, and its credentials stand.
pub is_counted : Health → Bool
is_counted Health.degraded = true
is_counted Health.unreachable = true
is_counted _ = false

counted : String → Monitor → Monitor
counted id m = record m { misses = map_set id (misses_of id m + 1) m.misses }

failed_with-counted :
    (id : String) (h : Health) (d : String) (m : Monitor)
    → is_counted h ≡ true
    → failed_with id h d m ≡ (
        if leb failures_before_degraded (misses_of id m + 1)
        then apply id h d (counted id m)
        else (counted id m, []))
unfolding failed_with is_counted counted
failed_with-counted id Health.degraded d m c = refl
failed_with-counted id Health.unreachable d m c = refl
failed_with-counted id Health.healthy d m c = ground arith
failed_with-counted id Health.expired d m c = ground arith

pub health_of-counted :
    (id : String) (h : Health) (d : String) (m : Monitor)
    → is_counted h ≡ true
    → health_of id (failed_with id h d m).0
      ≡ (if leb failures_before_degraded (misses_of id m + 1) then h else health_of id m)
unfolding counted health_of
health_of-counted id h d m c =
    ap (λ x. health_of id x.0) (failed_with-counted id h d m c)
    ∙ ground (arith, health_of-apply id id h d (counted id m), str_eq_iff id id)

pub misses_of-counted :
    (id : String) (h : Health) (d : String) (m : Monitor)
    → is_counted h ≡ true
    → misses_of id (failed_with id h d m).0 ≡ misses_of id m + 1
unfolding counted misses_of or_else
misses_of-counted id h d m c =
    ap (λ x. misses_of id x.0) (failed_with-counted id h d m c)
    ∙ ground (
      arith,
      misses_of-apply id id h d (counted id m),
      map_get-set id id (misses_of id m + 1) m.misses,
      str_eq_iff id id,
    )

pub reported_by : (lower : String → String) → Fault → Health
reported_by lower fault = of_failure (fault_kind lower fault)

-- The refusals of one cluster, in the order they came.
pub refuse_all : (lower : String → String) → String → List Fault → Monitor → Monitor
refuse_all lower id [] m = m
refuse_all lower id (f ∷ fs) m = refuse_all lower id fs (failed lower id f m).0

pub AllCounted : (lower : String → String) → List Fault → Type 0
AllCounted lower = All (λ f. is_counted (reported_by lower f) ≡ true)

-- What the last refusal says.
pub last_reported : (lower : String → String) → Health → List Fault → Health
last_reported lower h [] = h
last_reported lower h (f ∷ fs) = last_reported lower (reported_by lower f) fs

-- One refusal and then the rest, by the number `n` of those before.
refusal_shown :
    (lower : String → String) (fs : List Fault) (n : ℕ) (h r : Health)
    → let first = if leb failures_before_degraded (n + 1) then r else h in
      (if leb failures_before_degraded (n + 1 + length fs)
        then last_reported lower first fs
        else first)
      ≡ (if leb failures_before_degraded (n + suc (length fs)) then last_reported lower r fs else h)
unfolding last_reported
refusal_shown lower [] n h r = ground arith
refusal_shown lower (f ∷ fs) n h r = ground arith

health_of-refuse_all :
    (lower : String → String) (id : String) (fs : List Fault) (m : Monitor)
    → AllCounted lower fs
    → health_of id (refuse_all lower id fs m) ≡ (
        if leb failures_before_degraded (misses_of id m + length fs)
        then last_reported lower (health_of id m) fs
        else health_of id m)
unfolding refuse_all AllCounted last_reported reported_by failed
health_of-refuse_all lower id [] m c = ground arith
health_of-refuse_all lower id (f ∷ fs) m c =
    let next = (failed lower id f m).0 in
    let health = health_of-counted id (reported_by lower f) (message_of f) m c.0 in
    let misses = misses_of-counted id (reported_by lower f) (message_of f) m c.0 in
    health_of-refuse_all lower id fs next c.1
    ∙ ap₂
        (λ n h.
          if leb failures_before_degraded (n + length fs) then last_reported lower h fs else h)
        misses health
    ∙ refusal_shown lower fs (misses_of id m) (health_of id m) (reported_by lower f)

health_of-succeeded : (id : String) (m : Monitor) → health_of id (succeeded id m).0 ≡ Health.healthy
unfolding succeeded
health_of-succeeded id m = ground (
  arith,
  health_of-apply id id Health.healthy "" (record m { misses = map_delete id m.misses }),
  str_eq_iff id id,
)

misses_of-succeeded : (id : String) (m : Monitor) → misses_of id (succeeded id m).0 ≡ 0
unfolding succeeded misses_of or_else
misses_of-succeeded id m = ground (
  arith,
  misses_of-apply id id Health.healthy "" (record m { misses = map_delete id m.misses }),
  map_get-delete id id m.misses,
  str_eq_iff id id,
)

-- After an answer and then refusals in a row that are neither an answer of the cluster nor about its
-- credentials, the cluster is healthy as long as there was one refusal at most, and from the second on
-- it has the health that the last refusal says.
pub streak_health :
    (lower : String → String) (id : String) (fs : List Fault) (m : Monitor)
    → AllCounted lower fs
    → health_of id (refuse_all lower id fs (succeeded id m).0) ≡ (
        if leb failures_before_degraded (length fs)
        then last_reported lower Health.healthy fs
        else Health.healthy)
streak_health lower id fs m c =
    health_of-refuse_all lower id fs (succeeded id m).0 c
    ∙ ap₂
        (λ n h.
          if leb failures_before_degraded (n + length fs) then last_reported lower h fs else h)
        (misses_of-succeeded id m) (health_of-succeeded id m)
    ∙ ground arith
