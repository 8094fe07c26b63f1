-- ===== src/Tests/Checks.antt =====
-- The health checks on working servers.
use mariadb_ha_operator.Base.{
  ◌≡◌, ◌≢◌, refl, ap, Bool, to_int32, pos, true, false, some, List, [], ◌∷◌, arith,
}
use mariadb_ha_operator.Decimal.RoundTrip.{IsInt}
use mariadb_ha_operator.StringMap.{get, lookup, insert, insert_all}
use mariadb_ha_operator.Decimal.{atoi}
use mariadb_ha_operator.Health.Connection.{
  get_connection_info, credentials, check_tcp_connection, check_sql_connection, scan_int,
  connect_to_database,
}
use mariadb_ha_operator.Health.Replication.{check_replication_status, read_status}
use mariadb_ha_operator.Health.Conditions.{is_current, set_condition}
use mariadb_ha_operator.Api.{running, failover}
use mariadb_ha_operator.World.Sql.{Query, select_one, Rows, row}
use mariadb_ha_operator.World.{ok, ObjectKey, Env}
use mariadb_ha_operator.World.Calls.{calls}
use mariadb_ha_operator.World.Outcome.{flow, Outcome, done, failed, requeue_now, requeue_in}
use mariadb_ha_operator.Health.Counters.{get_failure_count, increment}
use mariadb_ha_operator.Health.Counters.Tally.{
  Event, checked, reset, Represents, count_events, tally_events, count_events-Represents,
  fail_count-bounds,
}
use mariadb_ha_operator.Health.Checks.{
  HealthCheckResult, fail_count, check_instance_health, execute_health_checks, update_condition,
  perform_complete_health_check,
}
use mariadb_ha_operator.Health.Evidence.{IsAlive, check_instance_health-IsAlive}
use mariadb_ha_operator.World.Alike.{with_limit}
use mariadb_ha_operator.Health.LagLimit.{execute_health_checks-limited}
use mariadb_ha_operator.Health.Complete.{Counts, perform_complete_health_check-Counts}
use mariadb_ha_operator.Failover.{
  handle_failover, record_failover, after_failover, check_lag, update_services_after_failover,
}
use mariadb_ha_operator.Failover.Promotion.{stop_replication, promote_secondary_to_primary}
use mariadb_ha_operator.Failover.Justified.{IsFit, handle_failover-IsFit}
use mariadb_ha_operator.Reconciler.{check_health}
use mariadb_ha_operator.Reconciler.CheckHealth.{CheckResult, check_health-CheckResult}
use mariadb_ha_operator.Tests.Data.{env, env_in, env_in-StoresStatus, in_phase, start, wait}

abbrev answer : Query → Rows
answer select_one = row (("1", some "1") ∷ [])
answer _ = row (
    ("Slave_IO_Running", some "Yes")
    ∷ ("Slave_SQL_Running", some "Yes")
    ∷ ("Seconds_Behind_Master", some "3")
    ∷ [])

abbrev healthy_env : Env
healthy_env = record env { sql_query = λ h i q. ok (answer q) }

abbrev key : ObjectKey
key = record { namespace = "databases"; name = "demo" }

abbrev healthy : HealthCheckResult
healthy = record {
  primary_healthy = true;
  secondary_healthy = true;
  replication_healthy = true;
  replication_lag = some (pos 3);
  primary_fail_count = pos 0;
  secondary_fail_count = pos 0;
}

is_healthy : (perform_complete_health_check healthy_env (start running)).0 ≡ ok healthy
unfolding calls flow perform_complete_health_check check_instance_health execute_health_checks
    get_connection_info credentials check_tcp_connection check_sql_connection scan_int atoi
    update_condition is_current set_condition check_replication_status read_status get lookup
    insert_all insert to_int32 get_failure_count increment fail_count
is_healthy = refl

perform_complete_health_check-Counts_example :
    Counts healthy (perform_complete_health_check healthy_env (start running)).1.ha
perform_complete_health_check-Counts_example =
    perform_complete_health_check-Counts healthy_env (start running) healthy is_healthy

check_health-CheckResult_example :
    CheckResult
      (env_in running)
      wait
      (start running)
      (check_health (env_in running) wait (start running))
check_health-CheckResult_example =
    check_health-CheckResult (env_in running) wait (env_in-StoresStatus running) (start running)

fail_count-bounds_example : IsInt (fail_count (in_phase running) true false)
fail_count-bounds_example = (fail_count-bounds (in_phase running) true false).0

two_failures : Represents (in_phase running) (record { primary = 2; secondary = 0 })
unfolding get_failure_count lookup atoi
two_failures = record { primary = refl; secondary = refl }

abbrev events : List Event
events = checked true false ∷ checked false false ∷ checked true true ∷ reset false ∷ []

count_events-Represents_example :
    Represents
      (count_events events (in_phase running))
      (tally_events events (record { primary = 2; secondary = 0 }))
count_events-Represents_example =
    count_events-Represents events (in_phase running) (record { primary = 2; secondary = 0 })
      two_failures (omega arith) (omega arith)

primary_is_healthy : (check_instance_health healthy_env true (start running)).0.healthy ≡ true
unfolding calls flow check_instance_health execute_health_checks get_connection_info credentials
    check_tcp_connection check_sql_connection scan_int atoi update_condition is_current
    set_condition get lookup
primary_is_healthy = refl

check_instance_health-IsAlive_example : IsAlive healthy_env true
check_instance_health-IsAlive_example =
    check_instance_health-IsAlive healthy_env true (start running) primary_is_healthy

abbrev asks_now : Outcome → Bool
asks_now (done r) = r.requeue
asks_now (failed e) = false

takes_over : (handle_failover healthy_env (start failover)).0 ≡ requeue_now
unfolding calls flow handle_failover record_failover after_failover check_lag
    update_services_after_failover stop_replication promote_secondary_to_primary
    check_instance_health execute_health_checks get_connection_info credentials check_tcp_connection
    check_sql_connection scan_int atoi update_condition is_current set_condition
    check_replication_status read_status get lookup insert_all insert to_int32 connect_to_database
takes_over = refl

takes_over_at_once : (handle_failover healthy_env (start failover)).0 ≢ requeue_in 30
takes_over_at_once = λ e. let same = ap asks_now takes_over in let wrong = ap asks_now e in cc

handle_failover-IsFit_example : IsFit healthy_env
handle_failover-IsFit_example =
    handle_failover-IsFit healthy_env (start failover) takes_over_at_once

-- The lag is three seconds, the limit one.
execute_health_checks-limited_example :
    execute_health_checks healthy_env false (with_limit (some (pos 1)) (start running)) ≡ (
      (execute_health_checks healthy_env false (start running)).0,
      with_limit (some (pos 1)) (execute_health_checks healthy_env false (start running)).1,
    )
execute_health_checks-limited_example =
    execute_health_checks-limited healthy_env (some (pos 1)) false (start running)
