-- ===== src/Health/Complete.antt =====
-- What `performCompleteHealthCheck` returns and saves.
use mariadb_ha_operator.Base.{
  ◌≡◌, refl, sym, ap, ◌∙◌, subst, ℤ, pos, ltb_ℤ, true, false, Option, none, some, ◌&&◌,
  if◌then◌else◌,
}
use mariadb_ha_operator.Decimal.RoundTrip.{IsInt}
use mariadb_ha_operator.Api.{MariaDbHa}
use mariadb_ha_operator.World.{Error, Result, ok, err, Env, State}
use mariadb_ha_operator.World.Outcome.{try_error}
use mariadb_ha_operator.World.Ensures.{
  Ensures, Leaves, Leaves-function, Ensures-bind, Ensures-keep, Ensures-return, Ensures-modify,
  Ensures-read, Ensures-pass,
}
use mariadb_ha_operator.Health.Counters.{get_failure_count, save_failure_count}
use mariadb_ha_operator.Health.Counters.Laws.{get-save_failure_count}
use mariadb_ha_operator.Health.Counters.Tally.{fail_count-bounds}
use mariadb_ha_operator.Health.Checks.{
  HealthCheckResult, fail_count, is_some, perform_complete_health_check,
}

-- The result for an object in memory, and the object that is left.
pub record Completes (r : HealthCheckResult) (before after : MariaDbHa) : Type 0 where
  pub replication : r.replication_healthy ≡ (r.secondary_healthy && is_some r.replication_lag)
  pub primary : r.primary_fail_count ≡ fail_count before true r.primary_healthy
  pub secondary : r.secondary_fail_count ≡ fail_count before false r.secondary_healthy
  pub saved :
      after
      ≡ save_failure_count false r.secondary_fail_count
          (save_failure_count true r.primary_fail_count before)

abbrev IsComplete : Result HealthCheckResult → State → Type 0
IsComplete (err e) s = Unit
IsComplete (ok r) s = (before : MariaDbHa) × Completes r before s.ha

abbrev Any : State → Type 0
Any s = Unit

module _ (env : Env) where
  try_error-Any :
      (o : Option Error) → Ensures Any IsComplete (λ _. Any) (try_error {R = HealthCheckResult} o)
  unfolding try_error
  try_error-Any none = Ensures-pass
  try_error-Any (some e) = Ensures-return _ (λ s w. tt)

  complete : Leaves Any IsComplete (perform_complete_health_check env)
  unfolding perform_complete_health_check
  complete = Leaves-function _ (
      Ensures-bind _ _ (Ensures-keep _ (record { at = λ s w. tt })) (λ p.
        Ensures-bind _ _ (try_error-Any p.error) (λ _.
          Ensures-bind _ _ (Ensures-keep _ (record { at = λ s w. tt })) (λ q.
            Ensures-bind _ _ (try_error-Any q.error) (λ _.
              Ensures-bind _ _ (Ensures-keep _ (record { at = λ s w. tt })) (λ _.
                Ensures-bind _ _ (Ensures-read _) (λ ha.
                  let a = fail_count ha true p.healthy in
                  let b = fail_count ha false q.healthy in
                  Ensures-bind _ _
                    (Ensures-modify {P' = λ s. s.ha ≡ save_failure_count true a ha} _
                      (λ s w. ap (save_failure_count true a) w.0))
                    (λ _.
                      Ensures-bind _ _
                        (Ensures-modify
                          {P' = λ s.
                            s.ha ≡ save_failure_count false b (save_failure_count true a ha)}
                          _ (λ s w. ap (save_failure_count false b) w))
                        (λ _. Ensures-return _ (λ s w. (
                          ha,
                          record {
                            replication = refl;
                            primary = refl;
                            secondary = refl;
                            saved = w;
                          },
                        )))))))))))

abbrev pub or_zero : ℤ → ℤ
or_zero n = if ltb_ℤ (pos 0) n then n else pos 0

pub record Counts (r : HealthCheckResult) (ha : MariaDbHa) : Type 0 where
  pub replication : r.replication_healthy ≡ (r.secondary_healthy && is_some r.replication_lag)
  pub fits : IsInt r.primary_fail_count × IsInt r.secondary_fail_count
  pub primary_passed : r.primary_healthy ≡ true → r.primary_fail_count ≡ pos 0
  pub secondary_passed : r.secondary_healthy ≡ true → r.secondary_fail_count ≡ pos 0
  pub primary_read : get_failure_count ha true ≡ or_zero r.primary_fail_count
  pub secondary_read : get_failure_count ha false ≡ or_zero r.secondary_fail_count

Completes-Counts :
    (r : HealthCheckResult) (before after : MariaDbHa) → Completes r before after → Counts r after
Completes-Counts r before after c =
    let p = fail_count-bounds before true r.primary_healthy in
    let q = fail_count-bounds before false r.secondary_healthy in
    let a = r.primary_fail_count in
    let b = r.secondary_fail_count in
    let fit_a : IsInt a = subst IsInt (sym c.primary) p.0 in
    let fit_b : IsInt b = subst IsInt (sym c.secondary) q.0 in
    let first = save_failure_count true a before in
    record {
      replication = c.replication;
      fits = (fit_a, fit_b);
      primary_passed = λ e. c.primary ∙ p.1 e;
      secondary_passed = λ e. c.secondary ∙ q.1 e;
      primary_read =
          ap (λ h. get_failure_count h true) c.saved
          ∙ (get-save_failure_count first false true b fit_b
              ∙ get-save_failure_count before true true a fit_a);
      secondary_read =
          ap (λ h. get_failure_count h false) c.saved
          ∙ get-save_failure_count first false false b fit_b;
    }

of_result :
    (answer : Result HealthCheckResult) (r : HealthCheckResult) (s : State)
    → answer ≡ ok r
    → IsComplete answer s
    → Counts r s.ha
of_result answer r s e c =
    let (before, done) = subst (λ x. IsComplete x s) e c in Completes-Counts r before s.ha done

-- A complete check that ends with a result, whatever the API server, the servers and the network
-- answer: the replication counts as healthy if and only if the secondary is healthy and its lag is
-- known. Each fail count is an int of 64 bits, and 0 for a healthy instance. The annotations that the
-- check leaves in memory hold the counts: read back, each is what the result says, or 0 for a
-- negative one.
pub perform_complete_health_check-Counts :
    (env : Env) (s : State) (r : HealthCheckResult)
    → (perform_complete_health_check env s).0 ≡ ok r
    → Counts r (perform_complete_health_check env s).1.ha
perform_complete_health_check-Counts env s r e =
    of_result _ r (perform_complete_health_check env s).1 e ((complete env).at s tt)
