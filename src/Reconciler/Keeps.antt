-- ===== src/Reconciler/Keeps.antt =====
-- A predicate that does not mind the phase, the conditions, the lag and the annotations is kept by a
-- reconciliation of the cluster, if the failover and the recovery keep it.
use mariadb_ha_operator.Base.{Bool, true, false, String, ℤ, Option, some}
use mariadb_ha_operator.Api.{
  Phase, unset, initializing, running, failing, failover, recovering, degraded, maintenance_mode,
  ◌is◌,
}
use mariadb_ha_operator.Base.{◌&&◌}
use mariadb_ha_operator.World.{Env, State, Go}
use mariadb_ha_operator.World.Frame.{Frame}
use mariadb_ha_operator.World.Outcome.{Outcome, requeue_in}
use mariadb_ha_operator.World.Keeps.{
  Keeps, Keeps-bind, Keeps-call, Keeps-if, Keeps-function, Keeps-unwrap, Keeps-proceed, Keeps-gets,
  Keeps-modify, Keeps-pass, Keeps-check, Keeps-on_some,
}
use mariadb_ha_operator.World.Keeps.Calls.{call_rules, Keeps-emit}
use mariadb_ha_operator.StatefulSets.{start_running}
use mariadb_ha_operator.StatefulSets.Keeps.{reconcile_stateful_sets-Keeps}
use mariadb_ha_operator.Services.Keeps.{reconcile_services-Keeps}
use mariadb_ha_operator.Replication.Keeps.{reconcile_replication-Keeps}
use mariadb_ha_operator.Health.Keeps.{perform_complete_health_check-Keeps}
use mariadb_ha_operator.Health.Checks.{HealthCheckResult}
use mariadb_ha_operator.Failover.{handle_failover}
use mariadb_ha_operator.Failover.Recovery.{handle_recovery}
use mariadb_ha_operator.Reconciler.{
  enter_phase, record_lag, check_health, by_phase, reconcile_cluster,
}

module _ {P : State → Type 0} (env : Env) (frame : Frame env P)
    (move : (p : Phase) (s : State)
      → P s
      → P (record s { ha = record s.ha { status = record s.ha.status { phase = p } } }))
    (handle_primary_failure : HealthCheckResult → Go Outcome)
    (detects : (h : HealthCheckResult) → Keeps P (handle_primary_failure h))
    (fails_over : Keeps P (handle_failover env)) (recovers : Keeps P (handle_recovery env)) where
  enter_phase-Keeps :
      (p : Phase) (warns : Bool) (reason : String) → Keeps P (enter_phase env p warns reason)
  unfolding enter_phase
  enter_phase-Keeps p warns reason = Keeps-bind _ _ (Keeps-gets _) (λ now.
      Keeps-if (now is p) _ _ (λ _. Keeps-pass)
        (λ _. Keeps-bind _ _ (Keeps-modify _ (move p)) (λ _.
          Keeps-bind _ _ (Keeps-call _ (Keeps-emit _ _ frame.stable))
            (λ _. Keeps-bind _ _ (Keeps-call _ frame.status) (λ refused. Keeps-check _)))))

  record_lag-Keeps : (l : Option ℤ) → Keeps P (record_lag env l)
  unfolding record_lag
  record_lag-Keeps measured =
      Keeps-on_some _ _ _
        (λ l.
          Keeps-bind _ _ (Keeps-modify _ (frame.lag (some l)))
            (λ _. Keeps-bind _ _ (Keeps-call _ frame.status) (λ refused. Keeps-check _)))
        Keeps-pass

  start_running-Keeps : (a b : Bool) → Keeps P (start_running env a b)
  unfolding start_running
  start_running-Keeps a b = Keeps-bind _ _ (Keeps-gets _) (λ now.
      Keeps-if (a && b && now is initializing) _ _
        (λ _.
          Keeps-bind _ _ (Keeps-modify _ (move running))
            (λ _. Keeps-bind _ _ (Keeps-call _ frame.status) (λ e. search call_rules)))
        (λ _. search call_rules))

  check_health-Keeps : Keeps P (check_health env handle_primary_failure)
  unfolding check_health
  check_health-Keeps = Keeps-function _ (
      Keeps-bind _ _ (Keeps-call _ (perform_complete_health_check-Keeps env frame)) (λ answer.
        Keeps-bind _ _ (Keeps-unwrap answer) (λ health.
          Keeps-if health.primary_healthy _ _
            (λ _.
              Keeps-bind _ _
                (Keeps-if health.secondary_healthy _ _
                  (λ _.
                    Keeps-if health.replication_healthy _ _ (λ _. enter_phase-Keeps running false _)
                      (λ _. enter_phase-Keeps degraded true _))
                  (λ _. enter_phase-Keeps degraded true _))
                (λ _.
                  Keeps-bind _ _ (record_lag-Keeps health.replication_lag)
                    (λ _. search call_rules)))
            (λ _. Keeps-call _ (detects health)))))

  idle-Keeps : Keeps P (λ s. (requeue_in 10, s))
  idle-Keeps = record { at = λ s w. w }

  by_phase-Keeps : (p : Phase) → Keeps P (by_phase env handle_primary_failure p)
  unfolding by_phase
  by_phase-Keeps running = check_health-Keeps
  by_phase-Keeps degraded = check_health-Keeps
  by_phase-Keeps failover = fails_over
  by_phase-Keeps recovering = recovers
  by_phase-Keeps unset = idle-Keeps
  by_phase-Keeps initializing = idle-Keeps
  by_phase-Keeps failing = idle-Keeps
  by_phase-Keeps maintenance_mode = idle-Keeps

  pub reconcile_cluster-Keeps : Keeps P (reconcile_cluster env handle_primary_failure)
  unfolding reconcile_cluster
  reconcile_cluster-Keeps = Keeps-function _ (
      Keeps-bind _ _
        (Keeps-call _ (reconcile_stateful_sets-Keeps env frame.stable start_running-Keeps))
        (λ sets. Keeps-bind _ _ (Keeps-proceed sets) (λ _.
          Keeps-bind _ _ (Keeps-call _ (reconcile_services-Keeps env frame.stable)) (λ services.
            Keeps-bind _ _ (Keeps-proceed services) (λ _.
              Keeps-bind _ _ (Keeps-call _ (reconcile_replication-Keeps env frame)) (λ replication.
                Keeps-bind _ _ (Keeps-proceed replication) (λ _.
                  Keeps-bind _ _ (Keeps-gets _)
                    (λ phase. Keeps-call _ (by_phase-Keeps phase)))))))))
