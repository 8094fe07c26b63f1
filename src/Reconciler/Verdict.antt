-- ===== src/Reconciler/Verdict.antt =====
-- What `checkHealth` writes for the result of its complete check.
use mariadb_ha_operator.Base.{
  ◌≡◌, arith, refl, sym, ◌∙◌, subst, ℤ, Bool, true, false, String, Option, none, some, ◌∷◌,
  if◌then◌else◌,
}
use mariadb_ha_operator.Api.{
  MariaDbHa, Phase, unset, initializing, running, failing, failover, recovering, degraded,
  maintenance_mode, ◌is◌,
}
use mariadb_ha_operator.World.{
  Result, ok, err, Env, State, EventType, normal, warning, Call, Go, Flow, next, exit, continue,
  merge, function, ◌>>=◌, ◌>>◌, return, pass, call, modify,
}
use mariadb_ha_operator.World.Outcome.{Outcome, requeue_in, unwrap, check, flow}
use mariadb_ha_operator.World.Calls.{calls, emit, stored, update_status}
use mariadb_ha_operator.World.Laws.{StoresStatus}
use mariadb_ha_operator.World.Ensures.{After, Ensures, Ensures-bind, Ensures-if}
use mariadb_ha_operator.Health.Checks.{HealthCheckResult, perform_complete_health_check}
use mariadb_ha_operator.Reconciler.{enter_phase, record_lag, judge_health, check_health}
use mariadb_ha_operator.Reconciler.Judgement.{
  phase_for, with_phase, with_lag, written, Entered, was_in, wrote, Recorded, unmeasured, recorded,
  Verdict, judged, unwritten, unrecorded,
}

-- `a == b` on phases.
is-same : (a b : Phase) → (a is b) ≡ true → a ≡ b
is-same unset b e = ground arith
is-same initializing b e = ground arith
is-same running b e = ground arith
is-same failing b e = ground arith
is-same failover b e = ground arith
is-same recovering b e = ground arith
is-same degraded b e = ground arith
is-same maintenance_mode b e = ground arith

module _ (env : Env) (law : StoresStatus env) (measured : Option ℤ) (s : State) where
  abbrev Q : Phase → Outcome → State → Type 0
  Q p o u = Verdict env p measured s o u

  -- The phase was entered.
  abbrev In : Phase → State → Type 0
  In p t = Entered env p s t × (t.ha.status.phase ≡ p)

  module _ (p : Phase) where
    -- The answer to the write of the phase.
    phase_written :
        (kind : EventType) (reason : String) (r : Result MariaDbHa)
        → (s.ha.status.phase is p) ≡ false
        → env.update_status (Call.event kind reason ∷ s.history) (with_phase p s.ha) ≡ r
        → let sent =
            written (with_phase p s.ha) (with_phase p s.ha) (Call.event kind reason ∷ s.history) in
          After (Q p) (λ _. In p) (check (stored r sent).0 (stored r sent).1)
    unfolding check pass return
    phase_written kind reason (ok ha) n e = (wrote n kind reason ha e, law.phase _ _ ha e)
    phase_written kind reason (err x) n e = unwritten x n kind reason e

    enter_phase-In :
        (warns : Bool) (reason : String)
        → After (Q p) (λ _. In p) (enter_phase env p warns reason s)
    unfolding enter_phase flow calls
    enter_phase-In warns reason = choose (s.ha.status.phase is p) refl
      where
        choose :
            (b : Bool)
            → (s.ha.status.phase is p) ≡ b
            → After
                (Q p)
                (λ _. In p)
                ((if b then pass else (do
                  modify (λ ha. record ha { status = record ha.status { phase = p } })
                  _ ← call (emit (if warns then warning else normal) reason)
                  refused ← call (update_status env)
                  check refused))
                  s)
        choose true e = (was_in (is-same _ p e), is-same _ p e)
        choose false e = phase_written (if warns then warning else normal) reason _ e refl

    -- The answer to the write of the lag.
    lag_written :
        (t : State)
        → In p t
        → (lag : ℤ) → measured ≡ some lag
        → (r : Result MariaDbHa) → env.update_status t.history (with_lag lag t.ha) ≡ r
        → let sent = written (with_lag lag t.ha) (with_lag lag t.ha) t.history in
          After
            (Q p)
            (λ _ u. Recorded env measured t u × (u.ha.status.phase ≡ p))
            (check (stored r sent).0 (stored r sent).1)
    unfolding check pass return
    lag_written t (entered, phase) lag m (ok ha) e =
        (recorded lag m ha e, law.phase _ _ ha e ∙ phase)
    lag_written t (entered, phase) lag m (err x) e = unrecorded x t entered phase lag m e

    record_lag-Recorded :
        (t : State)
        → In p t
        → (l : Option ℤ) → measured ≡ l
        → After
            (Q p)
            (λ _ u. Recorded env measured t u × (u.ha.status.phase ≡ p))
            (record_lag env l t)
    unfolding record_lag flow calls
    record_lag-Recorded t w none m = (unmeasured m, w.1)
    record_lag-Recorded t w (some lag) m = lag_written t w lag m _ refl

    -- What checkHealth does once the phase is entered.
    waits-Q :
        (t : State)
        → In p t
        → After (Q p) (Q p) ((record_lag env measured >> return {A = Outcome} (requeue_in 5)) t)
    unfolding ◌>>=◌ return
    waits-Q t w = ends (record_lag env measured t) (record_lag-Recorded t w measured refl)
      where
        ends :
            (r : Flow Outcome (Unit {0}) × State)
            → After (Q p) (λ _ u. Recorded env measured t u × (u.ha.status.phase ≡ p)) r
            → After (Q p) (Q p) (continue r.0 (λ _. return {A = Outcome} (requeue_in 5)) r.1)
        ends (next u, v) k = judged t v w.0 k.0 k.1
        ends (exit o, v) k = k

module _ (env : Env) (law : StoresStatus env) (health : HealthCheckResult) (s : State) where
  abbrev R : Outcome → State → Type 0
  R o u = Verdict env (phase_for health) health.replication_lag s o u

  abbrev Reaches : State → Type 0
  Reaches t = Entered env (phase_for health) s t × (t.ha.status.phase ≡ phase_for health)

  entered :
      (p : Phase)
      → p ≡ phase_for health
      → (warns : Bool) (reason : String)
      → Ensures (λ t. t ≡ s) R (λ _. Reaches) (enter_phase env p warns reason)
  entered p right warns reason = record {
    at = λ t e.
        subst (λ v. After R (λ _. Reaches) (enter_phase env p warns reason v)) (sym e)
          (subst
            (λ v.
              After (λ o u. Verdict env v health.replication_lag s o u)
                (λ _ t. Entered env v s t × (t.ha.status.phase ≡ v))
                (enter_phase env p warns reason s))
            right (enter_phase-In env law health.replication_lag s p warns reason));
  }

  enters :
      Ensures
        (λ t. t ≡ s)
        R
        (λ _. Reaches)
        (if health.secondary_healthy
          then (if health.replication_healthy
              then enter_phase env running false "ClusterHealthy"
              else enter_phase env degraded true "ReplicationFailure")
          else enter_phase env degraded true "SecondaryFailure")
  enters =
      Ensures-if health.secondary_healthy _ _
        (λ a.
          Ensures-if health.replication_healthy _ _ (λ b. entered running (rw (a, b) refl) false _)
            (λ b. entered degraded (rw (a, b) refl) true _))
        (λ a. entered degraded (rw a refl) true _)

  waits :
      Ensures Reaches R R
        (record_lag env health.replication_lag >> return {A = Outcome} (requeue_in 5))
  waits = record { at = waits-Q env law health.replication_lag s (phase_for health) }

  module _ (f : HealthCheckResult → Go Outcome) (healthy : health.primary_healthy ≡ true) where
    judge_health-R : Ensures (λ t. t ≡ s) R R (judge_health env f health)
    unfolding judge_health
    judge_health-R =
        Ensures-if health.primary_healthy _ _ (λ _. Ensures-bind _ _ enters (λ _. waits))
          (λ unwell. absurd cc)

-- For an answer that is known, checkHealth goes on with it.
pub check_health-Verdict :
    (env : Env) (law : StoresStatus env) (health : HealthCheckResult)
    (f : HealthCheckResult → Go Outcome) (s : State)
    → health.primary_healthy ≡ true
    → (perform_complete_health_check env s).0 ≡ ok health
    → let r = check_health env f s in
      Verdict env
        (phase_for health)
        health.replication_lag
        (perform_complete_health_check env s).1
        r.0
        r.1
unfolding check_health function ◌>>=◌ call unwrap
check_health-Verdict env law health f s well h = goes_on (perform_complete_health_check env s) h
  where
    judged_by :
        (t : State) (r : Flow Outcome Outcome × State)
        → After (R env law health t) (R env law health t) r
        → R env law health t (merge r.0) r.1
    judged_by t (next o, u) q = q
    judged_by t (exit o, u) q = q

    goes_on :
        (r : Result HealthCheckResult × State)
        → r.0 ≡ ok health
        → let x = continue (unwrap r.0 r.1).0 (λ h. judge_health env f h) (unwrap r.0 r.1).1 in
          R env law health r.1 (merge x.0) x.1
    goes_on (ok h, t) e =
        let same : health ≡ h = cc in
        subst
          (λ v. R env law health t (merge (judge_health env f v t).0) (judge_health env f v t).1)
          same
          (judged_by t (judge_health env f health t)
            ((judge_health-R env law health t f well).at t refl))
    goes_on (err x, t) e = absurd cc
