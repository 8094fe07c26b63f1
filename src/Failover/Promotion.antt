-- ===== src/Failover/Promotion.antt =====
-- The SQL side of a failover: `stopReplication` and `promoteSecondaryToPrimary`.
use mariadb_ha_operator.Base.{String, Bool, false, Option, none, some, if◌then◌else◌}
use mariadb_ha_operator.World.Sql.{
  MariaDbConnectionInfo, Statement, stop_replica, stop_slave, reset_slave_all, reset_replica_all,
  read_only_on, read_only_off,
}
use mariadb_ha_operator.World.{
  Error, wrapped, Env, Go, ◌>>=◌, ◌>>◌, return, call, function, deferring, gets, on_some,
}
use mariadb_ha_operator.World.Calls.{sql_exec, sql_close}
use mariadb_ha_operator.World.Outcome.{check_error}
use mariadb_ha_operator.Health.Connection.{connect_to_database}

-- `p != nil && *p`
abbrev pub is_true : Option Bool → Bool
is_true none = false
is_true (some b) = b

abbrev pub wrap : String → Option Error → Option Error
wrap message none = none
wrap message (some e) = some (wrapped message e)

module _ (env : Env) (info : MariaDbConnectionInfo) where
  -- Executes one statement and, if it fails, the other.
  either_syntax : Statement → Statement → Go (Option Error)
  either_syntax a b = function (do
    refused ← call (sql_exec env info a)
    on_some refused (λ e. call (sql_exec env info b)) (return none))

  stop_and_reset : Go (Option Error)
  unfolding either_syntax
  stop_and_reset = function (do
    stopped ← call (either_syntax stop_replica stop_slave)
    check_error (wrap "impossible d'arrêter la réplication" stopped)
    reset ← call (either_syntax reset_slave_all reset_replica_all)
    return (wrap "impossible de réinitialiser la réplication" reset))

  -- stopReplication
  unfoldable pub stop_replication : Go (Option Error)
  unfolding stop_and_reset
  stop_replication = function (do
    refused ← call (connect_to_database env info)
    check_error refused
    call (deferring (sql_close info) stop_and_reset))

  unfoldable pub set_read_only : Go (Option Error)
  set_read_only = function (do
    mode ← gets (λ ha. is_true ha.spec.failover.read_only_mode)
    if mode
        then (do
          refused ← call (sql_exec env info read_only_on)
          return (wrap "impossible de configurer le mode read-only" refused))
        else (do
          refused ← call (sql_exec env info read_only_off)
          return (wrap "impossible de désactiver le mode read-only" refused)))

  -- promoteSecondaryToPrimary
  unfoldable pub promote_secondary_to_primary : Go (Option Error)
  unfolding set_read_only
  promote_secondary_to_primary = function (do
    refused ← call (connect_to_database env info)
    check_error refused
    call (deferring (sql_close info) set_read_only))
