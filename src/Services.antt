-- ===== src/Services.antt =====
-- The Services of the cluster: internal/controller/service.go.
pub mod Selectors
pub mod Cluster
pub mod Keeps
pub mod Store
pub mod Rounds
pub mod Settle
pub mod Passes
pub mod Convergence
use mariadb_ha_operator.Base.{
  String, ◌<>◌, Bool, true, false, Option, none, some, List, [], ◌∷◌, ◌&&◌, not, ◌==◌, nat_eq,
  string_eq, length, if◌then◌else◌,
}
use mariadb_ha_operator.StringMap.{StringMap, lookup}
use mariadb_ha_operator.Api.{MariaDbHa}
use mariadb_ha_operator.Kube.{Service, ServicePort}
use mariadb_ha_operator.World.{
  not_found, Result, ok, err, service_object, Env, Go, Body, ◌>>=◌, ◌>>◌, return, pass, call,
  function, gets,
}
use mariadb_ha_operator.World.Calls.{fetch_service, create, update, set_controller_reference}
use mariadb_ha_operator.World.Outcome.{Outcome, no_requeue, requeue_now, failed, check, proceed}
use mariadb_ha_operator.Names.{
  instance_name, instance_labels, cluster_service_name, read_only_service_name,
}

-- `v2, ok := map2[k]; ok && v1 == v2`
has_value : Option String → String → Bool
has_value none v = false
has_value (some w) v = v == w

-- The `range` loop of mapsEqual: no entry of the first map is missing or other in the second.
entries_match : StringMap → StringMap → Bool
entries_match [] n = true
entries_match ((k, v) ∷ m) n = has_value (lookup k n) v && entries_match m n

-- mapsEqual
unfoldable pub maps_equal : StringMap → StringMap → Bool
unfolding entries_match has_value
maps_equal m n = length m == length n && entries_match m n

abbrev mysql_ports : List ServicePort
mysql_ports = record { name = "mysql"; port = 3306; target_port = 3306; protocol = "TCP" } ∷ []

abbrev pub headless_service : MariaDbHa → Bool → Service
headless_service ha is_primary = record {
  name = instance_name ha.name is_primary;
  namespace = ha.namespace;
  labels = instance_labels ha.name is_primary;
  annotations = [];
  owner = none;
  selector = instance_labels ha.name is_primary;
  cluster_ip = "None";
  kind = "";
  ports = mysql_ports;
}

-- A service for clients, with its `service` label and `service-type` annotation.
abbrev client_service : MariaDbHa → String → Bool → String → String → Service
client_service ha name to_primary service_label service_type = record {
  name = name;
  namespace = ha.namespace;
  labels =
      ("app", "mariadb")
      ∷ ("mariadb.cpf-it.fr/cluster", ha.name)
      ∷ ("mariadb.cpf-it.fr/service", service_label)
      ∷ [];
  annotations = ("mariadb.cpf-it.fr/service-type", service_type) ∷ [];
  owner = none;
  selector = instance_labels ha.name to_primary;
  cluster_ip = "";
  kind = "ClusterIP";
  ports = mysql_ports;
}

abbrev pub cluster_service : MariaDbHa → Service
cluster_service ha = client_service ha (cluster_service_name ha.name) true "read-write" "cluster"

abbrev pub read_only_service : MariaDbHa → Service
read_only_service ha =
    client_service ha (read_only_service_name ha.name) false "read-only" "read-only"

module _ (env : Env) where
  create_service : Service → Body Outcome Outcome
  create_service svc = do e ← call (create env (service_object svc)); check e; return requeue_now

  -- A headless service that exists is left alone.
  unfoldable pub keep_headless : Service → Result Service → Body Outcome Outcome
  unfolding create_service
  keep_headless svc (err not_found) = create_service svc
  keep_headless svc (err e) = return (failed e)
  keep_headless svc (ok found) = return no_requeue

  -- reconcileHeadlessService
  unfoldable pub reconcile_headless_service : Bool → Go Outcome
  reconcile_headless_service is_primary = function (do
    ha ← gets (λ ha. ha)
    let svc = headless_service ha is_primary
    e ← call (set_controller_reference env (service_object svc))
    check e
    found ← call (fetch_service env svc.name)
    keep_headless (record svc { owner = some ha.name }) found)

  -- A client service that exists gets its selector back.
  unfoldable pub keep_selector : Service → Result Service → Body Outcome Outcome
  unfolding create_service
  keep_selector svc (err not_found) = create_service svc
  keep_selector svc (err e) = return (failed e)
  keep_selector svc (ok found) =
      if not (maps_equal found.selector svc.selector)
      then (do
        e ← call (update env (service_object (record found { selector = svc.selector })))
        check e
        return requeue_now)
      else return no_requeue

  unfoldable pub reconcile_client_service : (MariaDbHa → Service) → Go Outcome
  reconcile_client_service build = function (do
    ha ← gets (λ ha. ha)
    let svc = build ha
    e ← call (set_controller_reference env (service_object svc))
    check e
    found ← call (fetch_service env svc.name)
    keep_selector (record svc { owner = some ha.name }) found)

  -- reconcileClusterService
  unfoldable pub reconcile_cluster_service : Go Outcome
  reconcile_cluster_service = reconcile_client_service cluster_service

  -- reconcileReadOnlyService
  unfoldable pub reconcile_read_only_service : Go Outcome
  reconcile_read_only_service = reconcile_client_service read_only_service

  -- shouldCreateReadOnlyService
  unfoldable pub should_create_read_only_service : MariaDbHa → Bool
  should_create_read_only_service ha = true

  -- reconcileServices
  unfoldable pub reconcile_services : Go Outcome
  reconcile_services = function (do
    primary ← call (reconcile_headless_service true)
    proceed primary
    secondary ← call (reconcile_headless_service false)
    proceed secondary
    cluster ← call reconcile_cluster_service
    proceed cluster
    wanted ← gets should_create_read_only_service
    if wanted
        then (do read_only ← call reconcile_read_only_service; proceed read_only; return no_requeue)
        else return no_requeue)
