-- ===== src/Health/LagLimit.antt =====
-- What spec.replication.maxLagSeconds changes of the health checks.
use mariadb_ha_operator.Base.{◌≡◌, refl, ap, ℤ, Bool, true, false, not, Option, none, if◌then◌else◌}
use mariadb_ha_operator.World.Sql.{MariaDbConnectionInfo}
use mariadb_ha_operator.World.{Result, ok, err, Env, State, Flow, exit, return}
use mariadb_ha_operator.World.Alike.{with_limit, Alike, alike_rules}
use mariadb_ha_operator.Health.Connection.{
  get_connection_info, check_tcp_connection, check_sql_connection,
}
use mariadb_ha_operator.Health.Replication.{ReplicationStatus, check_replication_status}
use mariadb_ha_operator.Health.Checks.{
  Checked, checked, replication_checked, exceeds, execute_health_checks,
}

alike :
    {A : Type 0} (x : A) (b c d : Bool)
    → (if not b then x else if c then x else x) ≡ (if not b then x else if d then x else x)
alike x true true true = refl
alike x true true false = refl
alike x true false true = refl
alike x true false false = refl
alike x false c d = refl

-- Whatever the limit, the three ends of executeHealthChecks for a secondary are the same.
replication_checked_any :
    (max max' : ℤ) (r : Result ReplicationStatus)
    → replication_checked max r ≡ replication_checked max' r
unfolding replication_checked
replication_checked_any max max' (err e) = refl
replication_checked_any max max' (ok status) =
    alike (checked true status.seconds_behind_master none) status.slave_running
      (exceeds status.seconds_behind_master max) (exceeds status.seconds_behind_master max')

ends-Alike :
    {max : Option ℤ} (a b : ℤ) (r : Result ReplicationStatus)
    → Alike max {A = Flow Checked Checked}
        (return (replication_checked a r))
        (return (replication_checked b r))
unfolding return
ends-Alike {max = max} a b r = record {
  at = λ s. ap (λ (c : Checked). (exit c, with_limit max s)) (replication_checked_any a b r);
}

module _ {max : Option ℤ} (env : Env) where
  get_connection_info-Alike :
      (p : Bool) → Alike max (get_connection_info env p) (get_connection_info env p)
  unfolding get_connection_info
  get_connection_info-Alike p = search alike_rules depth 40

  check_tcp_connection-Alike :
      (i : MariaDbConnectionInfo) (t : ℤ)
      → Alike max (check_tcp_connection env i t) (check_tcp_connection env i t)
  unfolding check_tcp_connection
  check_tcp_connection-Alike i t = search alike_rules depth 40

  check_sql_connection-Alike :
      (i : MariaDbConnectionInfo)
      → Alike max (check_sql_connection env i) (check_sql_connection env i)
  unfolding check_sql_connection
  check_sql_connection-Alike i = search alike_rules depth 40

  check_replication_status-Alike :
      (i : MariaDbConnectionInfo)
      → Alike max (check_replication_status env i) (check_replication_status env i)
  unfolding check_replication_status
  check_replication_status-Alike i = search alike_rules depth 40

  execute_health_checks-Alike :
      (p : Bool) → Alike max (execute_health_checks env p) (execute_health_checks env p)
  unfolding execute_health_checks
  execute_health_checks-Alike p =
      search
        (
          ends-Alike, alike_rules, get_connection_info-Alike, check_tcp_connection-Alike,
          check_sql_connection-Alike, check_replication_status-Alike,
        )
        depth 60

-- executeHealthChecks makes the same calls and returns the same verdict, lag and error whatever
-- spec.replication.maxLagSeconds is, or without it: a lag above the limit does not make a secondary
-- or its replication unhealthy. This is so for both instances, whatever is answered.
pub execute_health_checks-limited :
    (env : Env) (max : Option ℤ) (is_primary : Bool) (s : State)
    → execute_health_checks env is_primary (with_limit max s) ≡ (
      (execute_health_checks env is_primary s).0,
      with_limit max (execute_health_checks env is_primary s).1,
    )
execute_health_checks-limited env max is_primary s =
    (execute_health_checks-Alike env is_primary).at s
