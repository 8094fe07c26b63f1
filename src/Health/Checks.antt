-- ===== src/Health/Checks.antt =====
-- The health checks of one instance and of the cluster.
use mariadb_ha_operator.Base.{
  String, ◌<>◌, ℤ, pos, ◌*ℤ◌, ltb_ℤ, Bool, true, false, Option, none, some, ◌&&◌, not,
  if◌then◌else◌,
}
use mariadb_ha_operator.Api.{MariaDbHa}
use mariadb_ha_operator.World.Sql.{MariaDbConnectionInfo}
use mariadb_ha_operator.World.{
  Error, Result, ok, err, Env, Go, Body, ◌>>=◌, ◌>>◌, return, pass, call, function, gets, modify,
  on_some, on_result,
}
use mariadb_ha_operator.World.Calls.{update_status, read_clock}
use mariadb_ha_operator.World.Outcome.{try_error}
use mariadb_ha_operator.Health.Connection.{
  get_connection_info, check_tcp_connection, check_sql_connection,
}
use mariadb_ha_operator.Health.Replication.{ReplicationStatus, check_replication_status}
use mariadb_ha_operator.Health.Conditions.{
  primary_ready, secondary_ready, replication_active, status_of_bool, is_current, set_condition,
}
use mariadb_ha_operator.Health.Counters.{get_failure_count, save_failure_count, increment}

-- `(bool, *int32, error)`
pub record Checked : Type 0 where
  pub healthy : Bool
  pub lag : Option ℤ
  pub error : Option Error

abbrev pub checked : Bool → Option ℤ → Option Error → Checked
checked healthy lag error = record { healthy = healthy; lag = lag; error = error }

abbrev pub or_default : Option ℤ → ℤ → ℤ
or_default none d = d
or_default (some v) d = v

-- `if !ok { return false, nil, nil }`
abbrev pub require : Bool → Body Checked (Unit {0})
require b = if b then pass else return (checked false none none)

-- `status.SecondsBehindMaster != nil && *status.SecondsBehindMaster > maxLagSeconds`
abbrev pub exceeds : Option ℤ → ℤ → Bool
exceeds none max = false
exceeds (some lag) max = ltb_ℤ max lag

-- The end of executeHealthChecks for the secondary.
unfoldable pub replication_checked : ℤ → Result ReplicationStatus → Checked
replication_checked max_lag (err e) = checked true none (some e)
replication_checked max_lag (ok status) =
    if not status.slave_running
    then checked true status.seconds_behind_master none
    else if exceeds status.seconds_behind_master max_lag
    then checked true status.seconds_behind_master none
    else checked true status.seconds_behind_master none

abbrev pub connected :
    Result MariaDbConnectionInfo
    → (MariaDbConnectionInfo → Body Checked Checked)
    → Body Checked Checked
connected found k = on_result found (λ e. return (checked false none (some e))) k

module _ (env : Env) where
  -- executeHealthChecks
  unfoldable pub execute_health_checks : Bool → Go Checked
  unfolding replication_checked
  execute_health_checks is_primary = function (do
    ha ← gets (λ ha. ha)
    let timeout =
        or_default ha.spec.failover.failure_detection.timeout_seconds (pos 2) *ℤ pos 1000000000
    found ← call (get_connection_info env is_primary)
    connected found (λ info. do
      reachable ← call (check_tcp_connection env info timeout)
      require reachable
      answering ← call (check_sql_connection env info)
      require answering
      if is_primary then return (checked true none none) else (do
        status ← call (check_replication_status env info)
        return (
            replication_checked (or_default ha.spec.replication.max_lag_seconds (pos 30)) status))))

  -- The closures that bring a condition up to date. The error of the write is logged only.
  unfoldable pub update_condition : String → Bool → String → String → Go (Unit {0})
  update_condition kind holds reason message = function (do
    conditions ← gets (λ ha. ha.status.conditions)
    if is_current kind (status_of_bool holds) conditions then return tt else (do
      now ← call (read_clock env)
      modify (
          set_condition (record {
            kind = kind;
            status = status_of_bool holds;
            reason = reason;
            message = message;
            last_transition_time = now;
          }))
      _ ← call (update_status env)
      return tt))

  unfoldable pub instance_condition : Bool → Bool → Go (Unit {0})
  instance_condition is_primary healthy =
      let who = if is_primary then "L'instance primaire" else "L'instance secondaire" in
      update_condition (if is_primary then primary_ready else secondary_ready) healthy
        (if healthy then "InstanceHealthy" else "InstanceUnhealthy")
        (if healthy then who <> " est en bon état" else who <> " n'est pas en bon état")

  -- checkInstanceHealth
  unfoldable pub check_instance_health : Bool → Go Checked
  unfolding instance_condition
  check_instance_health is_primary = function (do
    c ← call (execute_health_checks is_primary)
    on_some c.error (λ e. return (checked false c.lag none))
        (do
          _ ← call (instance_condition is_primary c.healthy)
          return (checked c.healthy c.lag none)))

  unfoldable pub replication_condition : Bool → Go (Unit {0})
  replication_condition active =
      update_condition replication_active active
        (if active then "ReplicationActive" else "ReplicationInactive")
        (if active then "La réplication est active" else "La réplication n'est pas active")

-- `HealthCheckResult`, which no file declares: the fields that the program uses.
pub record HealthCheckResult : Type 0 where
  pub primary_healthy : Bool
  pub secondary_healthy : Bool
  pub replication_healthy : Bool
  pub replication_lag : Option ℤ
  pub primary_fail_count : ℤ
  pub secondary_fail_count : ℤ

-- The count of an instance after this check; a healthy one starts again.
unfoldable pub fail_count : MariaDbHa → Bool → Bool → ℤ
fail_count ha is_primary healthy =
    if healthy then pos 0 else increment (get_failure_count ha is_primary)

abbrev pub is_some : Option ℤ → Bool
is_some none = false
is_some (some _) = true

module _ (env : Env) where
  -- performCompleteHealthCheck
  unfoldable pub perform_complete_health_check : Go (Result HealthCheckResult)
  unfolding replication_condition
  perform_complete_health_check = function (do
    p ← call (check_instance_health env true)
    try_error p.error
    q ← call (check_instance_health env false)
    try_error q.error
    let active = q.healthy && is_some q.lag
    _ ← call (replication_condition env active)
    ha ← gets (λ ha. ha)
    let primary_fail_count = fail_count ha true p.healthy
    let secondary_fail_count = fail_count ha false q.healthy
    modify (save_failure_count true primary_fail_count)
    modify (save_failure_count false secondary_fail_count)
    return (
        ok (record {
          primary_healthy = p.healthy;
          secondary_healthy = q.healthy;
          replication_healthy = active;
          replication_lag = q.lag;
          primary_fail_count = primary_fail_count;
          secondary_fail_count = secondary_fail_count;
        })))
