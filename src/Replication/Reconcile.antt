-- ===== src/Replication/Reconcile.antt =====
-- `reconcileReplication`
use mariadb_ha_operator.Base.{true, false, ◌&&◌, if◌then◌else◌}
use mariadb_ha_operator.Api.{condition_true}
use mariadb_ha_operator.World.{
  Result, normal, warning, Env, Go, Body, ◌>>=◌, ◌>>◌, return, call, function, gets, modify,
  on_some, on_result,
}
use mariadb_ha_operator.World.Calls.{emit, update_status, read_clock}
use mariadb_ha_operator.World.Outcome.{Outcome, no_requeue, requeue_in, check, unwrap}
use mariadb_ha_operator.StatefulSets.{is_stateful_set_ready}
use mariadb_ha_operator.Health.Connection.{get_connection_info}
use mariadb_ha_operator.Health.Conditions.{replication_active, is_configured, set_condition}
use mariadb_ha_operator.Replication.{setup_replication}

-- `v, err := …; if err != nil { return ctrl.Result{RequeueAfter: 30 * time.Second}, nil }`
abbrev pub or_later : {A B : Type 0} → Result B → (B → Body Outcome A) → Body Outcome A
or_later answer k = on_result answer (λ e. return (requeue_in 30)) k

module _ (env : Env) where
  -- The condition and its write, after the set-up.
  unfoldable pub record_replication : Body Outcome Outcome
  record_replication = do
    now ← call (read_clock env)
    modify (
        set_condition (record {
          kind = replication_active;
          status = condition_true;
          reason = "ReplicationConfigured";
          message = "La réplication a été configurée avec succès";
          last_transition_time = now;
        }))
    refused ← call (update_status env)
    check refused
    _ ← call (emit normal "ReplicationConfigured")
    return no_requeue

  unfoldable pub configure_replication : Body Outcome Outcome
  unfolding record_replication
  configure_replication = do
    p ← call (get_connection_info env true)
    or_later p (λ primary. do
      q ← call (get_connection_info env false)
      or_later q (λ secondary. do
        refused ← call (setup_replication env primary secondary)
        on_some refused
            (λ e. do _ ← call (emit warning "ReplicationSetupFailed"); return (requeue_in 30))
            record_replication))

  -- reconcileReplication
  unfoldable pub reconcile_replication : Go Outcome
  unfolding configure_replication
  reconcile_replication = function (do
    p ← call (is_stateful_set_ready env true)
    primary_ready ← unwrap p
    q ← call (is_stateful_set_ready env false)
    secondary_ready ← unwrap q
    if primary_ready && secondary_ready
        then (do
          configured ← gets (λ ha. is_configured ha.status.conditions)
          if configured then return no_requeue else configure_replication)
        else return (requeue_in 10))
