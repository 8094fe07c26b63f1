-- ===== src/Tests/Data.antt =====
-- A cluster, and the answers of a working API server and of working database servers.
use mariadb_ha_operator.Base.{◌≡◌, sym, ap, String, pos, true, false, none, some, [], ◌∷◌}
use mariadb_ha_operator.Api.{
  MariaDbConfig, InstanceConfig, MariaDbHaSpec, Phase, running, MariaDbHa,
}
use mariadb_ha_operator.Kube.{StatefulSet, Service, Pod, pod_running}
use mariadb_ha_operator.World.Sql.{row}
use mariadb_ha_operator.World.{
  not_found, Result, ok, err, service_object, Call, History, Env, State, Go,
}
use mariadb_ha_operator.World.Outcome.{Outcome, requeue_in}
use mariadb_ha_operator.World.Laws.{StoresStatus}
use mariadb_ha_operator.Names.{instance_labels}
use mariadb_ha_operator.Services.{cluster_service}
use mariadb_ha_operator.Health.Checks.{HealthCheckResult}
use mariadb_ha_operator.Failover.TakeOver.{old_primaries}

abbrev pub config : String → MariaDbConfig
config image = record {
  version = "10.5";
  image = image;
  configuration_parameters = ("max_connections", "100") ∷ ("sync_binlog", "1") ∷ [];
  user_credentials_secret = some (record { name = "credentials"; keys = [] });
}

abbrev pub instance : InstanceConfig
instance = record {
  resources = "cpu: 1";
  storage = record { storage_class_name = none; size = "10Gi"; access_modes = [] };
  node_selector = [];
  tolerations = [];
  config = config "";
  pod_annotations = [];
}

abbrev pub spec : MariaDbHaSpec
spec = record {
  instances = record {
    primary = instance;
    secondary = instance;
    common_config = config "mariadb:10.6";
  };
  replication = record {
    mode = "async";
    user = "";
    automatic_failover = some true;
    max_lag_seconds = some (pos 30);
    reconnect_retries = none;
  };
  failover = record {
    failure_detection = record {
      health_check_interval_seconds = none;
      failure_threshold_count = none;
      timeout_seconds = some (pos 2);
      health_checks = [];
    };
    promotion_strategy = "safe";
    minimum_interval_seconds = some (pos 60);
    automatic_failback = some true;
    read_only_mode = none;
  };
  monitoring = record {
    enabled = none;
    prometheus_exporter = none;
    service_monitor = none;
    exporter_image = "";
  };
  backup = record { enabled = none; schedule = ""; retention_policy = ""; storage_location = "" };
}

abbrev pub in_phase : Phase → MariaDbHa
in_phase phase = record {
  name = "demo";
  namespace = "databases";
  annotations = ("database.cpf-it.fr/primary-fail-count", "2") ∷ [];
  finalizers = "database.cpf-it.fr/finalizer" ∷ [];
  deletion_timestamp = none;
  spec = spec;
  status = record {
    phase = phase;
    current_primary = "demo-primary-0";
    current_secondary = "demo-secondary-0";
    last_failover_time = some 1000000000;
    replication_lag = none;
    conditions = [];
    failover_history = [];
  };
}

abbrev pub start : Phase → State
start phase = record { ha = in_phase phase; history = [] }

-- A StatefulSet as the API server returns it, with the file modes filled in.
abbrev pub stored_set : StatefulSet
stored_set = record {
  name = "demo-primary";
  namespace = "databases";
  labels = instance_labels "demo" true;
  owner = some "demo";
  resource_version = "7";
  replicas = pos 1;
  selector = instance_labels "demo" true;
  service_name = "demo-primary";
  template = record {
    labels = instance_labels "demo" true;
    annotations = [];
    containers = [];
    volumes =
        record { name = "config"; config_map = "demo-primary-config"; default_mode = some 420 }
        ∷ record {
          name = "init-scripts";
          config_map = "demo-primary-config";
          default_mode = some 420;
        }
        ∷ [];
    node_selector = [];
    tolerations = [];
  };
  volume_claim_templates = [];
  ready_replicas = pos 1;
}

abbrev pub pod : Pod
pod = record { labels = instance_labels "demo" false; phase = pod_running; pod_ip = "10.0.0.2" }

-- The Service that was written last.
abbrev pub last_service : History → Service
last_service [] = cluster_service (in_phase running)
last_service (Call.update (service_object svc) ∷ h) = svc
last_service (_ ∷ h) = last_service h

abbrev pub env : Env
env = record {
  get_mariadb_ha = λ h k. ok (in_phase running);
  get_stateful_set = λ h k. ok stored_set;
  get_service = λ h k. ok (last_service h);
  get_config_map = λ h k. err not_found;
  get_secret = λ h k. ok (record { contents = ("MARIADB_REPLICATION_PASSWORD", "secret") ∷ [] });
  get_pod = λ h k. ok pod;
  create = λ h o. none;
  update = λ h o. none;
  delete = λ h kind k. none;
  set_controller_reference = λ h o. none;
  update_mariadb_ha = λ h ha. ok ha;
  update_status = λ h ha. ok ha;
  dial = λ h host port timeout. true;
  sql_open = λ h i. none;
  sql_ping = λ h i. none;
  sql_exec = λ h i q. none;
  sql_query = λ h i q. ok (
      row (
        ("File", some "mysql-bin.000001")
        ∷ ("Position", some "154")
        ∷ ("Binlog_Do_DB", some "")
        ∷ ("Binlog_Ignore_DB", some "")
        ∷ []));
  now = λ h. 400000000000;
  range = λ h m. m;
  parse_quantity = λ text. some text;
}

-- The same, with the object in another phase.
abbrev pub env_in : Phase → Env
env_in phase = record env { get_mariadb_ha = λ h k. ok (in_phase phase) }

abbrev pub answer_of : MariaDbHa → Result MariaDbHa → MariaDbHa
answer_of d (ok ha) = ha
answer_of d (err e) = d

pub same_answer : (sent answer : MariaDbHa) → ok sent ≡ ok answer → answer ≡ sent
same_answer sent answer e = sym (ap (answer_of sent) e)

pub env_in-StoresStatus : (phase : Phase) → StoresStatus (env_in phase)
env_in-StoresStatus phase = record {
  phase = λ h sent answer e. ap (λ (x : MariaDbHa). x.status.phase) (same_answer sent answer e);
  current_primary = λ h sent answer e.
      ap (λ (x : MariaDbHa). x.status.current_primary) (same_answer sent answer e);
  current_secondary = λ h sent answer e.
      ap (λ (x : MariaDbHa). x.status.current_secondary) (same_answer sent answer e);
  old_primaries =
      λ h sent answer e. ap (λ (x : MariaDbHa). old_primaries x) (same_answer sent answer e);
}

-- What stands in for handlePrimaryFailure: it waits.
abbrev pub wait : HealthCheckResult → Go Outcome
wait health s = (requeue_in 5, s)
