-- ===== src/Replication/Keeps.antt =====
-- The set-up of the replication writes one condition of the MariaDBHA, and no more.
use mariadb_ha_operator.World.Sql.{MariaDbConnectionInfo, ChangeMaster}
use mariadb_ha_operator.World.{Env, State}
use mariadb_ha_operator.World.Frame.{Frame}
use mariadb_ha_operator.World.Keeps.{Keeps, Keeps-bind, Keeps-call, Keeps-modify}
use mariadb_ha_operator.World.Keeps.Calls.{IsStable, call_rules, Keeps-read_clock}
use mariadb_ha_operator.StatefulSets.Keeps.{is_stateful_set_ready-Keeps}
use mariadb_ha_operator.Health.Keeps.{get_connection_info-Keeps, set_condition-Keeps}
use mariadb_ha_operator.Replication.{enable_semi_sync, start_replication, configure_secondary}
use mariadb_ha_operator.Replication.Reconcile.{
  record_replication, configure_replication, reconcile_replication,
}

module _ {P : State → Type 0} (env : Env) (stable : IsStable P)
    (primary secondary : MariaDbConnectionInfo) where
  enable_semi_sync-Keeps : Keeps P (enable_semi_sync env primary secondary)
  unfolding enable_semi_sync
  enable_semi_sync-Keeps = search call_rules depth 30

  start_replication-Keeps : Keeps P (start_replication env primary secondary)
  unfolding start_replication
  start_replication-Keeps = search call_rules depth 30

  pub configure_secondary-Keeps :
      (c : ChangeMaster) → Keeps P (configure_secondary env primary secondary c)
  unfolding configure_secondary
  configure_secondary-Keeps c =
      search (call_rules, enable_semi_sync-Keeps, start_replication-Keeps) depth 30

module _ {P : State → Type 0} (env : Env) (frame : Frame env P) where
  record_replication-Keeps : Keeps P (record_replication env)
  unfolding record_replication
  record_replication-Keeps =
      let stable = frame.stable in
      Keeps-bind _ _ (Keeps-call _ (Keeps-read_clock env stable)) (λ now.
        Keeps-bind _ _ (Keeps-modify _ (set_condition-Keeps env frame _))
          (λ _. Keeps-bind _ _ (Keeps-call _ frame.status) (λ refused. search call_rules)))

  configure_replication-Keeps : Keeps P (configure_replication env)
  unfolding configure_replication
  configure_replication-Keeps =
      let stable = frame.stable in
      let info = get_connection_info-Keeps env stable in
      let setup = frame.sessions.setup_replication in
      search (call_rules, info, setup, record_replication-Keeps) depth 30

  pub reconcile_replication-Keeps : Keeps P (reconcile_replication env)
  unfolding reconcile_replication
  reconcile_replication-Keeps =
      let ready = is_stateful_set_ready-Keeps env frame.stable in
      search (call_rules, ready, configure_replication-Keeps) depth 30
