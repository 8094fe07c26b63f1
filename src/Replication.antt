-- ===== src/Replication.antt =====
-- The set-up of the replication: `reconcileReplication` and `setupReplication` of
-- internal/controller/mariadbha_controller.go.
pub mod Reconcile
pub mod Keeps
pub mod Position
pub mod Started
pub mod SetUp
pub mod Configured
use mariadb_ha_operator.Base.{
  String, ℤ, Bool, true, false, Option, none, some, List, [], ◌∷◌, ◌&&◌, not, ◌==◌, string_eq,
  if◌then◌else◌,
}
use mariadb_ha_operator.Decimal.{atoi}
use mariadb_ha_operator.StringMap.{get}
use mariadb_ha_operator.Api.{MariaDbHa, SecretReference, Condition, condition_true}
use mariadb_ha_operator.World.Sql.{
  MariaDbConnectionInfo, ChangeMaster, Statement, Rows, no_rows, unreadable, row,
  show_master_status, stop_slave, stop_replica, install_semi_sync_master, enable_semi_sync_master,
  install_semi_sync_slave, enable_semi_sync_slave, change_master_to, start_slave, start_replica,
}
use mariadb_ha_operator.World.{
  Error, other, wrapped, Result, ok, err, normal, warning, Env, Go, Body, Flow, next, exit, ◌>>=◌,
  ◌>>◌, return, pass, call, function, deferring, gets, modify, on_some, on_result,
}
use mariadb_ha_operator.World.Calls.{
  emit, fetch_secret, sql_exec, sql_query, sql_close, update_status, read_clock,
}
use mariadb_ha_operator.World.Outcome.{Outcome, no_requeue, requeue_in, check, unwrap, check_error}
use mariadb_ha_operator.Config.{replication_user}
use mariadb_ha_operator.StatefulSets.{is_stateful_set_ready}
use mariadb_ha_operator.Health.Connection.{get_connection_info, connect_to_database}
use mariadb_ha_operator.Health.Conditions.{replication_active, is_configured, put_condition}

pub record BinlogPosition : Type 0 where
  pub file : String
  pub position : ℤ

-- The two columns, a string and an int, none of which a NULL is converted to.
abbrev position_of : Option String → Option String → Result BinlogPosition
position_of (some file) (some position) =
    let (n, fine) = atoi position in
    if fine
    then ok (record { file = file; position = n })
    else err (other "converting driver.Value to int")
position_of _ _ = err (other "converting NULL is unsupported")

-- `Scan(&binlogFile, &binlogPos)`: database/sql wants as many columns as destinations.
unfoldable pub scan_position : Result Rows → Result BinlogPosition
scan_position (err e) = err e
scan_position (ok no_rows) = err (other "sql: no rows in result set")
scan_position (ok (unreadable e)) = err (other e)
scan_position (ok (row ((_, file) ∷ (_, position) ∷ []))) = position_of file position
scan_position (ok (row _)) = err (other "expected destination arguments in Scan")

-- `v, err := …; if err != nil { return fmt.Errorf(message, err) }`
abbrev pub or_wrapped :
    {A B : Type 0} → Result B → String → (B → Body (Option Error) A) → Body (Option Error) A
or_wrapped answer message k = on_result answer (λ e. return (some (wrapped message e))) k

abbrev pub check_wrapped : Option Error → String → Body (Option Error) (Unit {0})
check_wrapped refused message = on_some refused (λ e. return (some (wrapped message e))) pass

-- The name of the secret of the common configuration, "" without one.
abbrev pub common_secret_name : MariaDbHa → String
common_secret_name ha = elim ha.spec.instances.common_config.user_credentials_secret [
  | none ↦ ""
  | some s ↦ s.name
]

module _ (env : Env) (primary secondary : MariaDbConnectionInfo) where
  -- Semi-synchronous replication on both servers, if it is asked for.
  unfoldable enable_semi_sync : Body (Option Error) (Unit {0})
  enable_semi_sync = do
    mode ← gets (λ ha. ha.spec.replication.mode)
    if mode == "semisync"
        then (do
          _ ← call (sql_exec env primary install_semi_sync_master)
          e ← call (sql_exec env primary enable_semi_sync_master)
          check_wrapped e "impossible d'activer la réplication semi-synchrone sur le primaire"
          _ ← call (sql_exec env secondary install_semi_sync_slave)
          e' ← call (sql_exec env secondary enable_semi_sync_slave)
          check_wrapped e' "impossible d'activer la réplication semi-synchrone sur le secondaire")
        else pass

  unfoldable start_replication : Body (Option Error) (Option Error)
  start_replication = do
    refused ← call (sql_exec env secondary start_slave)
    on_some refused
        (λ e. do
          e' ← call (sql_exec env secondary start_replica)
          check_wrapped e' "impossible de démarrer la réplication"
          return none)
        (return none)

  -- The statements behind the secondary's `defer`.
  unfoldable pub configure_secondary : ChangeMaster → Go (Option Error)
  unfolding enable_semi_sync start_replication
  configure_secondary target = function (do
    refused ← call (sql_exec env secondary stop_slave)
    on_some refused (λ e. do _ ← call (sql_exec env secondary stop_replica); pass) pass
    enable_semi_sync
    e ← call (sql_exec env secondary (change_master_to target))
    check_wrapped e "impossible de configurer la réplication"
    start_replication)

  -- The statements behind the primary's `defer`.
  unfoldable pub replicate_from : String → String → Go (Option Error)
  unfolding configure_secondary
  replicate_from user password = function (do
    rows ← call (sql_query env primary show_master_status)
    or_wrapped (scan_position rows) "impossible d'obtenir la position du binlog" (λ binlog. do
      e ← call (connect_to_database env secondary)
      check_wrapped e "impossible de se connecter au secondaire"
      call (
          deferring (sql_close secondary) (
            configure_secondary (record {
              host = primary.host;
              port = primary.port;
              user = user;
              password = password;
              log_file = binlog.file;
              log_pos = binlog.position;
            })))))

  -- The statements of setupReplication, for the object that it is called with.
  unfoldable pub setup_for : MariaDbHa → Body (Option Error) (Option Error)
  unfolding replicate_from scan_position
  setup_for ha =
      let secret_name = common_secret_name ha in
      if secret_name == ""
      then return (some (other "aucun secret spécifié pour les credentials de réplication"))
      else (do
        fetched ← call (fetch_secret env secret_name)
        or_wrapped fetched "impossible de récupérer le secret" (λ secret. do
          let password = get secret.contents "MARIADB_REPLICATION_PASSWORD"
          if password == ""
              then return (some (other "mot de passe de réplication non trouvé dans le secret"))
              else (do
                e ← call (connect_to_database env primary)
                check_wrapped e "impossible de se connecter au primaire"
                call (
                    deferring (sql_close primary)
                      (replicate_from (replication_user ha) password)))))

  -- setupReplication
  unfoldable pub setup_replication : Go (Option Error)
  unfolding setup_for
  setup_replication = function (do ha ← gets (λ ha. ha); setup_for ha)
