-- ===== src/Reconciler/CheckHealth.antt =====
-- The results of `checkHealth`, for each result of its complete check.
use mariadb_ha_operator.Base.{◌≡◌, refl, sym, subst, ◌⊎◌, inl, inr, true, false, Bool-cases}
use mariadb_ha_operator.World.{Error, Result, ok, err, Env, State, Go}
use mariadb_ha_operator.World.Outcome.{Outcome, failed, flow}
use mariadb_ha_operator.World.Laws.{StoresStatus}
use mariadb_ha_operator.Health.Checks.{HealthCheckResult, perform_complete_health_check}
use mariadb_ha_operator.Reconciler.{judge_health, check_health}
use mariadb_ha_operator.Reconciler.Judgement.{phase_for, Verdict}
use mariadb_ha_operator.Reconciler.Verdict.{check_health-Verdict}

-- What checkHealth makes of the complete check.
pub data CheckResult (env : Env) (f : HealthCheckResult → Go Outcome) (s : State)
    : Outcome × State → Type 0 where
  unanswered :
      (e : Error)
      → (perform_complete_health_check env s).0 ≡ err e
      → CheckResult env f s (failed e, (perform_complete_health_check env s).1)
  handed_over :
      (health : HealthCheckResult)
      → (perform_complete_health_check env s).0 ≡ ok health
      → health.primary_healthy ≡ false
      → CheckResult env f s (f health (perform_complete_health_check env s).1)
  verdict :
      (health : HealthCheckResult)
      → (perform_complete_health_check env s).0 ≡ ok health
      → health.primary_healthy ≡ true
      → (r : Outcome × State)
      → Verdict env
          (phase_for health)
          health.replication_lag
          (perform_complete_health_check env s).1
          r.0
          r.1
      → CheckResult env f s r

module _ (env : Env) (f : HealthCheckResult → Go Outcome) (s : State) where
  check_health-unanswered :
      (e : Error)
      → (perform_complete_health_check env s).0 ≡ err e
      → check_health env f s ≡ (failed e, (perform_complete_health_check env s).1)
  unfolding check_health flow
  check_health-unanswered e h = rw h refl

  check_health-handed_over :
      (health : HealthCheckResult)
      → (perform_complete_health_check env s).0 ≡ ok health
      → health.primary_healthy ≡ false
      → check_health env f s ≡ f health (perform_complete_health_check env s).1
  unfolding check_health judge_health flow
  check_health-handed_over health h unwell = rw (h, unwell) refl

Result-cases : {A : Type 0} (r : Result A) → ((e : Error) × (r ≡ err e)) ⊎ ((a : A) × (r ≡ ok a))
Result-cases (err e) = inl (e, refl)
Result-cases (ok a) = inr (a, refl)

-- The three results of checkHealth. Without an answer of the complete check, its error is returned.
-- A primary that is not healthy is handed over to the missing handlePrimaryFailure, with nothing
-- written. Otherwise the phase for the cluster is Running if the secondary and the replication are
-- healthy and Degraded if not. Unless the object has this phase, an event is emitted and the status
-- sent to the API server with it; then the status is sent with the lag, if one was measured; nothing
-- else is sent. If the API server accepts both, the phase is that of the object in memory, and the
-- next check is five seconds later. The first write that it refuses ends checkHealth with its error,
-- and the object in memory is the one that was sent. It is assumed that the API server stores the
-- status that it is sent.
pub check_health-CheckResult :
    (env : Env) (handle_primary_failure : HealthCheckResult → Go Outcome)
    → StoresStatus env
    → (s : State)
    → CheckResult env handle_primary_failure s (check_health env handle_primary_failure s)
check_health-CheckResult env f law s = elim (Result-cases (perform_complete_health_check env s).0) [
  | inl (e, h) ↦
      subst (CheckResult env f s) (sym (check_health-unanswered env f s e h)) (unanswered e h)
  | inr (health, h) ↦ elim (Bool-cases health.primary_healthy) [
    | inl well ↦ verdict health h well _ (check_health-Verdict env law health f s well h)
    | inr unwell ↦
        subst (CheckResult env f s) (sym (check_health-handed_over env f s health h unwell))
          (handed_over health h unwell)
  ]
]
