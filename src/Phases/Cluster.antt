-- ===== src/Phases/Cluster.antt =====
-- The phases that a reconciliation writes: each is reachable, by the steps of Phases/Steps, from the
-- phase that it found.
use mariadb_ha_operator.Base.{true, false}
use mariadb_ha_operator.Api.{
  Phase, unset, initializing, running, failing, failover, recovering, degraded, maintenance_mode,
}
use mariadb_ha_operator.World.{Env, Go}
use mariadb_ha_operator.World.Outcome.{Outcome, requeue_in}
use mariadb_ha_operator.World.Laws.{StoresStatus}
use mariadb_ha_operator.World.Keeps.{
  Keeps, Keeps-bind, Keeps-bind-gets, Keeps-call, Keeps-if, Keeps-function, Keeps-unwrap,
  Keeps-proceed,
}
use mariadb_ha_operator.World.Keeps.Calls.{call_rules}
use mariadb_ha_operator.StatefulSets.Keeps.{reconcile_stateful_sets-Keeps}
use mariadb_ha_operator.Services.Keeps.{reconcile_services-Keeps}
use mariadb_ha_operator.Replication.Keeps.{reconcile_replication-Keeps}
use mariadb_ha_operator.Health.Keeps.{perform_complete_health_check-Keeps}
use mariadb_ha_operator.Health.Checks.{HealthCheckResult}
use mariadb_ha_operator.Failover.{after_failover, handle_failover}
use mariadb_ha_operator.Failover.Recovery.{handle_recovery}
use mariadb_ha_operator.Failover.Keeps.{handle_failover-Keeps, handle_recovery-Keeps}
use mariadb_ha_operator.Reconciler.{check_health, by_phase, reconcile_cluster}
use mariadb_ha_operator.Phases.{Within, Within-stable, update_status-Within}
use mariadb_ha_operator.Phases.Steps.{
  degrade, repair, abandon, promote, recover, IsClosed, moved, Within-Frame, enter_phase-Within,
  record_lag-Within, start_running-Within,
}

module _ (Q : Phase → Type 0) (closed : IsClosed Q) (env : Env) (law : StoresStatus env)
    (handle_primary_failure : HealthCheckResult → Go Outcome)
    (detects : Q running
      → (h : HealthCheckResult) → Keeps (Within Q) (handle_primary_failure h)) where
  check_health-Within : Q running → Keeps (Within Q) (check_health env handle_primary_failure)
  unfolding check_health
  check_health-Within q =
      let enter = enter_phase-Within Q env law in
      let bad = closed.step degrade q in
      Keeps-function _ (
        Keeps-bind _ _
          (Keeps-call _ (perform_complete_health_check-Keeps env (Within-Frame Q env law)))
          (λ answer. Keeps-bind _ _ (Keeps-unwrap answer) (λ health.
            Keeps-if health.primary_healthy _ _
              (λ _.
                Keeps-bind _ _
                  (Keeps-if health.secondary_healthy _ _
                    (λ _.
                      Keeps-if health.replication_healthy _ _ (λ _. enter running q false _)
                        (λ _. enter degraded bad true _))
                    (λ _. enter degraded bad true _))
                  (λ _.
                    Keeps-bind _ _ (record_lag-Within Q env law health.replication_lag)
                      (λ _. search call_rules)))
              (λ _. Keeps-call _ (detects q health)))))

  idle-Within : Keeps (Within Q) (λ s. (requeue_in 10, s))
  idle-Within = record { at = λ s w. w }

  handle_failover-Within : Q failover → Keeps (Within Q) (handle_failover env)
  unfolding after_failover
  handle_failover-Within q =
      handle_failover-Keeps env (Within-Frame Q env law)
        (moved Q env law failing (closed.step abandon q))
        (λ now d s w. record { now = closed.step promote q; sent = w.sent })

  handle_recovery-Within : Q recovering → Keeps (Within Q) (handle_recovery env)
  handle_recovery-Within q =
      handle_recovery-Keeps env (Within-stable Q) (update_status-Within Q env law)
        (λ name s w. record { now = closed.step recover q; sent = w.sent })

  by_phase-Within : (p : Phase) → Q p → Keeps (Within Q) (by_phase env handle_primary_failure p)
  unfolding by_phase
  by_phase-Within running q = check_health-Within q
  by_phase-Within degraded q = check_health-Within (closed.step repair q)
  by_phase-Within failover q = handle_failover-Within q
  by_phase-Within recovering q = handle_recovery-Within q
  by_phase-Within unset q = idle-Within
  by_phase-Within initializing q = idle-Within
  by_phase-Within failing q = idle-Within
  by_phase-Within maintenance_mode q = idle-Within

  pub reconcile_cluster-Within : Keeps (Within Q) (reconcile_cluster env handle_primary_failure)
  unfolding reconcile_cluster
  reconcile_cluster-Within =
      let stable = Within-stable Q in
      let start = start_running-Within Q env law closed in
      Keeps-function _ (
        Keeps-bind _ _ (Keeps-call _ (reconcile_stateful_sets-Keeps env stable start)) (λ sets.
          Keeps-bind _ _ (Keeps-proceed sets) (λ _.
            Keeps-bind _ _ (Keeps-call _ (reconcile_services-Keeps env stable)) (λ services.
              Keeps-bind _ _ (Keeps-proceed services) (λ _.
                Keeps-bind _ _
                  (Keeps-call _ (reconcile_replication-Keeps env (Within-Frame Q env law)))
                  (λ replication. Keeps-bind _ _ (Keeps-proceed replication) (λ _.
                    Keeps-bind-gets _ _
                      (λ s w. Keeps-call _ (by_phase-Within s.ha.status.phase w.now)))))))))
