-- ===== src/Sessions/Tolerant.antt =====
-- A predicate that does not mind the handles is kept by the functions that open and close them.
use mariadb_ha_operator.Base.{String}
use mariadb_ha_operator.World.Sql.{MariaDbConnectionInfo}
use mariadb_ha_operator.World.{Env, State}
use mariadb_ha_operator.World.Keeps.{Keeps}
use mariadb_ha_operator.World.Keeps.Calls.{IsStable, IsTolerant, call_rules}
use mariadb_ha_operator.Health.Connection.{check_sql_connection, connect_to_database}
use mariadb_ha_operator.Health.Replication.{check_replication_status}
use mariadb_ha_operator.Failover.Promotion.{stop_replication, promote_secondary_to_primary}
use mariadb_ha_operator.Replication.{replicate_from, setup_replication}
use mariadb_ha_operator.Replication.Keeps.{configure_secondary-Keeps}
use mariadb_ha_operator.Sessions.{Sessions}

module _ {P : State → Type 0} (env : Env) (tolerant : IsTolerant P) where
  quiet : IsStable P
  quiet = tolerant.stable

  check_sql_connection-Keeps : (i : MariaDbConnectionInfo) → Keeps P (check_sql_connection env i)
  unfolding check_sql_connection
  check_sql_connection-Keeps i = search (call_rules, quiet) depth 30

  connect_to_database-Keeps : (i : MariaDbConnectionInfo) → Keeps P (connect_to_database env i)
  unfolding connect_to_database
  connect_to_database-Keeps i = search (call_rules, quiet) depth 30

  check_replication_status-Keeps :
      (i : MariaDbConnectionInfo) → Keeps P (check_replication_status env i)
  unfolding check_replication_status
  check_replication_status-Keeps i = search (call_rules, quiet) depth 30

  stop_replication-Keeps : (i : MariaDbConnectionInfo) → Keeps P (stop_replication env i)
  unfolding stop_replication
  stop_replication-Keeps i = search (call_rules, quiet, connect_to_database-Keeps) depth 30

  promote_secondary_to_primary-Keeps :
      (i : MariaDbConnectionInfo) → Keeps P (promote_secondary_to_primary env i)
  unfolding promote_secondary_to_primary
  promote_secondary_to_primary-Keeps i =
      search (call_rules, quiet, connect_to_database-Keeps) depth 30

  module _ (primary secondary : MariaDbConnectionInfo) where
    replicate_from-Keeps :
        (user password : String) → Keeps P (replicate_from env primary secondary user password)
    unfolding replicate_from
    replicate_from-Keeps user password =
        let configure = configure_secondary-Keeps env quiet primary secondary in
        search (call_rules, quiet, connect_to_database-Keeps, configure) depth 30

    setup_replication-Keeps : Keeps P (setup_replication env primary secondary)
    unfolding setup_replication
    setup_replication-Keeps =
        search (call_rules, quiet, connect_to_database-Keeps, replicate_from-Keeps) depth 30

  pub tolerant-Sessions : Sessions env P
  tolerant-Sessions = record {
    check_sql_connection = check_sql_connection-Keeps;
    check_replication_status = check_replication_status-Keeps;
    stop_replication = stop_replication-Keeps;
    promote_secondary_to_primary = promote_secondary_to_primary-Keeps;
    setup_replication = setup_replication-Keeps;
  }
