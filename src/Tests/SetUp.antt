-- ===== src/Tests/SetUp.antt =====
-- The steps that set a cluster up, on an API server and on servers that take everything.
use mariadb_ha_operator.Base.{
  ◌≡◌, refl, pos, true, none, some, [], ◌∷◌, String, ◌==◌, string_eq, if◌then◌else◌,
}
use mariadb_ha_operator.StringMap.{get, lookup}
use mariadb_ha_operator.Decimal.{atoi}
use mariadb_ha_operator.Api.{running, initializing}
use mariadb_ha_operator.Kube.{StatefulSet, Service, ConfigMap}
use mariadb_ha_operator.World.Sql.{
  MariaDbConnectionInfo, Query, select_one, show_master_status, Rows, row,
}
use mariadb_ha_operator.Services.{cluster_service, read_only_service, headless_service}
use mariadb_ha_operator.Sessions.Handles.{open_handles}
use mariadb_ha_operator.Reconciler.{reconcile}
use mariadb_ha_operator.Reconciler.Handles.{reconcile-closes-handles}
use mariadb_ha_operator.World.{ok, ObjectKey, Env}
use mariadb_ha_operator.World.Calls.{calls}
use mariadb_ha_operator.World.Laws.{StoresStatus}
use mariadb_ha_operator.World.Outcome.{flow, no_requeue}
use mariadb_ha_operator.Health.Connection.{get_connection_info, credentials, connect_to_database}
use mariadb_ha_operator.Health.Conditions.{is_configured, set_condition}
use mariadb_ha_operator.Names.{config_name}
use mariadb_ha_operator.StatefulSets.Build.{stateful_set_of, build_stateful_set, needs_update}
use mariadb_ha_operator.StatefulSets.{
  config_map_for, create_or_update_config_map, write_config_map, reconcile_stateful_sets,
  reconcile_instance_stateful_set, instance_stateful_set, is_stateful_set_ready, start_running,
}
use mariadb_ha_operator.StatefulSets.ConfigMaps.{
  IsStored, IsGenerated, create_or_update_config_map-IsGenerated,
}
use mariadb_ha_operator.StatefulSets.Running.{AreInOrder, reconcile_stateful_sets-AreInOrder}
use mariadb_ha_operator.Replication.{setup_replication, scan_position}
use mariadb_ha_operator.Replication.SetUp.{IsSetUp, setup_replication-IsSetUp}
use mariadb_ha_operator.Replication.Reconcile.{reconcile_replication}
use mariadb_ha_operator.Replication.Configured.{IsReplicated, reconcile_replication-IsReplicated}
use mariadb_ha_operator.Tests.Data.{
  env, env_in, env_in-StoresStatus, in_phase, start, config, instance, wait,
}

-- A server whose `SHOW MASTER STATUS` has two columns.
abbrev two_columns : Query → Rows
two_columns _ = row (("File", some "mysql-bin.000001") ∷ ("Position", some "154") ∷ [])

abbrev position_env : Env
position_env = record env { sql_query = λ h i q. ok (two_columns q) }

abbrev server : String → MariaDbConnectionInfo
server host = record {
  host = host;
  port = 3306;
  username = "root";
  password = "secret";
  database = "mysql";
}

set_up :
    (setup_replication position_env (server "10.0.0.1") (server "10.0.0.2") (start running)).0
    ≡ none
unfolding setup_replication calls flow scan_position atoi get lookup connect_to_database
set_up = refl

setup_replication-IsSetUp_example :
    IsSetUp position_env (server "10.0.0.1") (server "10.0.0.2") (in_phase running)
setup_replication-IsSetUp_example =
    setup_replication-IsSetUp position_env (server "10.0.0.1") (server "10.0.0.2") (start running)
      set_up

replicated : (reconcile_replication position_env (start running)).0 ≡ no_requeue
unfolding reconcile_replication setup_replication calls flow scan_position atoi get lookup
    connect_to_database is_stateful_set_ready is_configured get_connection_info credentials
    set_condition
replicated = refl

reconcile_replication-IsReplicated_example : IsReplicated position_env (in_phase running)
reconcile_replication-IsReplicated_example =
    reconcile_replication-IsReplicated position_env (start running) replicated

abbrev generated : ConfigMap
generated =
    let params = (config "").configuration_parameters in
    record (config_map_for (in_phase running) true params params) { owner = some "demo" }

created : (create_or_update_config_map env true (config "") (start running)).0 ≡ ok generated
unfolding create_or_update_config_map write_config_map calls flow
created = refl

create_or_update_config_map-IsGenerated_example :
    IsStored env (config_name "demo" true) generated
    × IsGenerated env true (in_phase running) (config "").configuration_parameters generated
create_or_update_config_map-IsGenerated_example =
    create_or_update_config_map-IsGenerated env true (config "") (start running) generated created

-- The API server returns the StatefulSets as they were built, with their replica ready.
abbrev built_set : String → StatefulSet
built_set name =
    let is_primary = name == "demo-primary" in
    record (stateful_set_of (in_phase initializing) is_primary instance
      (config_name "demo" is_primary) "10Gi") { ready_replicas = pos 1 }

abbrev built_env : Env
built_env = record (env_in initializing) { get_stateful_set = λ h k. ok (built_set k.name) }

built_env-StoresStatus : StoresStatus built_env
built_env-StoresStatus =
    let law = env_in-StoresStatus initializing in
    record {
      phase = law.phase;
      current_primary = law.current_primary;
      current_secondary = law.current_secondary;
      old_primaries = law.old_primaries;
    }

in_order : (reconcile_stateful_sets built_env (start initializing)).0 ≡ no_requeue
unfolding reconcile_stateful_sets reconcile_instance_stateful_set instance_stateful_set
    is_stateful_set_ready start_running create_or_update_config_map write_config_map
    build_stateful_set stateful_set_of needs_update calls flow
in_order = refl

reconcile_stateful_sets-AreInOrder_example :
    AreInOrder built_env
      (in_phase initializing)
      (reconcile_stateful_sets built_env (start initializing)).1
reconcile_stateful_sets-AreInOrder_example =
    reconcile_stateful_sets-AreInOrder built_env built_env-StoresStatus (start initializing)
      in_order

-- The same with a cluster that runs, its Services in place and servers that answer every query.
abbrev running_service : String → Service
running_service name =
    if name == "demo-mariadb"
    then cluster_service (in_phase running)
    else if name == "demo-mariadb-ro"
    then read_only_service (in_phase running)
    else headless_service (in_phase running) (name == "demo-primary")

abbrev answers : Query → Rows
answers select_one = row (("1", some "1") ∷ [])
answers show_master_status = two_columns show_master_status
answers _ = row (
    ("Slave_IO_Running", some "Yes")
    ∷ ("Slave_SQL_Running", some "Yes")
    ∷ ("Seconds_Behind_Master", some "3")
    ∷ [])

abbrev running_env : Env
running_env = record built_env {
  get_mariadb_ha = λ h k. ok (in_phase running);
  get_service = λ h k. ok (running_service k.name);
  sql_query = λ h i q. ok (answers q);
}

abbrev key : ObjectKey
key = record { namespace = "databases"; name = "demo" }

-- The login with which the health checks and the replication come to the secondary.
abbrev login : MariaDbConnectionInfo
login = record { host = "10.0.0.2"; port = 3306; username = ""; password = ""; database = "mysql" }

reconcile-closes-handles_example :
    open_handles running_env login (reconcile running_env wait key []).1
    ≡ open_handles running_env login []
reconcile-closes-handles_example =
    reconcile-closes-handles running_env wait (λ i n health. record { at = λ s w. w }) login key []
