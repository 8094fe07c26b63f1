-- ===== src/Sessions.antt =====
-- The five functions of internal/controller that open a database handle and close it again, as one
-- interface: what the invariants need of them.
pub mod Tolerant
pub mod Handles
pub mod Balance
use mariadb_ha_operator.World.Sql.{MariaDbConnectionInfo}
use mariadb_ha_operator.World.{Env, State}
use mariadb_ha_operator.World.Keeps.{Keeps}
use mariadb_ha_operator.Health.Connection.{check_sql_connection}
use mariadb_ha_operator.Health.Replication.{check_replication_status}
use mariadb_ha_operator.Failover.Promotion.{stop_replication, promote_secondary_to_primary}
use mariadb_ha_operator.Replication.{setup_replication}

pub record Sessions (env : Env) (P : State → Type 0) : Type 0 where
  pub check_sql_connection :
      (info : MariaDbConnectionInfo) → Keeps P (check_sql_connection env info)
  pub check_replication_status :
      (info : MariaDbConnectionInfo) → Keeps P (check_replication_status env info)
  pub stop_replication : (info : MariaDbConnectionInfo) → Keeps P (stop_replication env info)
  pub promote_secondary_to_primary :
      (info : MariaDbConnectionInfo) → Keeps P (promote_secondary_to_primary env info)
  pub setup_replication :
      (primary secondary : MariaDbConnectionInfo)
      → Keeps P (setup_replication env primary secondary)
