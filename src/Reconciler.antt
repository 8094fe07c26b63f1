-- ===== src/Reconciler.antt =====
-- `Reconcile` and `checkHealth` of internal/controller/mariadbha_controller.go.
pub mod Stuck
pub mod Keeps
pub mod Nameless
pub mod Handles
pub mod Judgement
pub mod Verdict
pub mod CheckHealth
pub mod Course
use mariadb_ha_operator.Base.{
  String, ℤ, Bool, true, false, Option, none, some, List, [], ◌∷◌, ◌++◌, ◌&&◌, ◌||◌, not,
  if◌then◌else◌,
}
use mariadb_ha_operator.Api.{
  MariaDbHa, Phase, unset, initializing, running, failover, recovering, degraded, ◌is◌,
}
use mariadb_ha_operator.World.{
  Error, not_found, Result, ok, err, ObjectKey, normal, warning, Call, mariadb_ha, Env, State,
  History, Go, Body, ◌>>=◌, ◌>>◌, return, pass, call, function, gets, modify, on_some,
}
use mariadb_ha_operator.World.Calls.{emit, update_status, update_mariadb_ha}
use mariadb_ha_operator.World.Outcome.{
  Outcome, no_requeue, requeue_now, requeue_in, failed, check, unwrap, proceed,
}
use mariadb_ha_operator.StatefulSets.{reconcile_stateful_sets}
use mariadb_ha_operator.Services.{reconcile_services}
use mariadb_ha_operator.Replication.Reconcile.{reconcile_replication}
use mariadb_ha_operator.Deletion.{handle_deletion, finalizer, contains_finalizer}
use mariadb_ha_operator.Failover.{handle_failover}
use mariadb_ha_operator.Failover.Recovery.{handle_recovery}
use mariadb_ha_operator.Health.Checks.{HealthCheckResult, perform_complete_health_check}

module _ (env : Env) where
  -- `if Phase != phase { Phase = phase; event; Status().Update }`
  unfoldable pub enter_phase : Phase → (warns : Bool) → String → Body Outcome (Unit {0})
  enter_phase phase warns reason = do
    now ← gets (λ ha. ha.status.phase)
    if now is phase then pass else (do
      modify (λ ha. record ha { status = record ha.status { phase = phase } })
      _ ← call (emit (if warns then warning else normal) reason)
      refused ← call (update_status env)
      check refused)

  unfoldable pub record_lag : Option ℤ → Body Outcome (Unit {0})
  record_lag measured =
      on_some measured
        (λ lag. do
          modify (λ ha. record ha { status = record ha.status { replication_lag = some lag } })
          refused ← call (update_status env)
          check refused)
        pass

  module _ (handle_primary_failure : HealthCheckResult → Go Outcome) where
    -- checkHealth behind its complete check. handlePrimaryFailure, which no file declares, is the
    -- section's parameter.
    unfoldable pub judge_health : HealthCheckResult → Body Outcome Outcome
    unfolding enter_phase record_lag
    judge_health health =
        if health.primary_healthy
        then (do
          if health.secondary_healthy
              then (if health.replication_healthy
                  then enter_phase running false "ClusterHealthy"
                  else enter_phase degraded true "ReplicationFailure")
              else enter_phase degraded true "SecondaryFailure"
          record_lag health.replication_lag
          return (requeue_in 5))
        else call (handle_primary_failure health)

    -- checkHealth
    unfoldable pub check_health : Go Outcome
    unfolding judge_health
    check_health = function (do
      answer ← call (perform_complete_health_check env)
      health ← unwrap answer
      judge_health health)

    -- The last part of Reconcile, by the phase that the steps before it left.
    unfoldable pub by_phase : Phase → Go Outcome
    by_phase phase =
        if phase is running || phase is degraded
        then check_health
        else if phase is failover
        then handle_failover env
        else if phase is recovering
        then handle_recovery env
        else λ s. (requeue_in 10, s)

    -- The main logic of Reconcile.
    unfoldable pub reconcile_cluster : Go Outcome
    unfolding by_phase
    reconcile_cluster = function (do
      sets ← call (reconcile_stateful_sets env)
      proceed sets
      services ← call (reconcile_services env)
      proceed services
      replication ← call (reconcile_replication env)
      proceed replication
      phase ← gets (λ ha. ha.status.phase)
      call (by_phase phase))

    unfoldable pub initialize : Body Outcome Outcome
    initialize = do
      modify (λ ha. record ha { status = record ha.status { phase = initializing } })
      refused ← call (update_status env)
      check refused
      return requeue_now

    unfoldable pub add_finalizer : Body Outcome Outcome
    add_finalizer = do
      modify (λ ha. record ha { finalizers = ha.finalizers ++ (finalizer ∷ []) })
      refused ← call (update_mariadb_ha env)
      check refused
      return no_requeue

    -- Reconcile, from the object that its first Get has read.
    unfoldable pub reconcile_object : Go Outcome
    unfolding initialize add_finalizer
    reconcile_object = function (do
      ha ← gets (λ ha. ha)
      if contains_finalizer ha.finalizers
          then on_some ha.deletion_timestamp (λ t. call (handle_deletion env))
              (if ha.status.phase is unset then initialize else call reconcile_cluster)
          else add_finalizer)

    -- What the first Get makes of the request.
    unfoldable pub begin : Result MariaDbHa → History → Outcome × History
    begin (err not_found) h = (no_requeue, h)
    begin (err e) h = (failed e, h)
    begin (ok ha) h =
        let (r, s) = reconcile_object (record { ha = ha; history = h }) in (r, s.history)

    -- Reconcile
    unfoldable pub reconcile : ObjectKey → History → Outcome × History
    unfolding begin
    reconcile key h = begin (env.get_mariadb_ha h key) (Call.get mariadb_ha key ∷ h)
