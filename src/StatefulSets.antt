-- ===== src/StatefulSets.antt =====
-- The StatefulSets and ConfigMaps of the two instances: internal/controller/statefulset.go.
pub mod Build
pub mod Keeps
pub mod Updates
pub mod Stuck
pub mod InOrder
pub mod Running
pub mod ConfigMaps
use mariadb_ha_operator.Base.{
  String, ◌<>◌, Bool, true, false, Option, none, some, List, [], ◌∷◌, ◌&&◌, ◌||◌, not, ℤ, ◌==◌,
  string_eq, int_eq, if◌then◌else◌,
}
use mariadb_ha_operator.StringMap.{StringMap, get}
use mariadb_ha_operator.Api.{MariaDbHa, MariaDbConfig, InstanceConfig, initializing, running, ◌is◌}
use mariadb_ha_operator.Kube.{StatefulSet, ConfigMap}
use mariadb_ha_operator.World.{
  Error, not_found, Result, ok, err, is_not_found, Object, stateful_set_object, config_map_object,
  Env, Go, Body, ◌>>=◌, ◌>>◌, return, pass, call, function, gets, modify,
}
use mariadb_ha_operator.World.Calls.{
  fetch_stateful_set, fetch_config_map, create, update, set_controller_reference, update_status,
}
use mariadb_ha_operator.World.Outcome.{
  Outcome, no_requeue, requeue_now, failed, check, unwrap, proceed, try, try_error, ranged,
}
use mariadb_ha_operator.Names.{instance_type, instance_name, config_name, instance_labels}
use mariadb_ha_operator.Config.{merge_mysql_configs, generate_mariadb_config, generate_init_script}
use Build.{instance_config, build_stateful_set, needs_update}

-- The `cm` of createOrUpdateConfigMap; `order` is `params` in the order of one `range` loop.
abbrev pub config_map_for : MariaDbHa → Bool → (params order : StringMap) → ConfigMap
config_map_for ha is_primary params order = record {
  name = config_name ha.name is_primary;
  namespace = ha.namespace;
  labels = instance_labels ha.name is_primary;
  owner = none;
  contents =
      ("mariadb.cnf", generate_mariadb_config is_primary params order)
      ∷ ("init.sql", generate_init_script is_primary ha)
      ∷ [];
}

module _ (env : Env) where
  unfoldable pub write_config_map :
      ConfigMap → Result ConfigMap → Body (Result ConfigMap) (Result ConfigMap)
  write_config_map cm (err not_found) = do
    e ← call (create env (config_map_object cm))
    try_error e
    return (ok cm)
  write_config_map cm (err e) = return (err e)
  write_config_map cm (ok found) =
      let updated = record found { contents = cm.contents } in
      if not (get found.contents "mariadb.cnf" == get cm.contents "mariadb.cnf")
        || not (get found.contents "init.sql" == get cm.contents "init.sql")
      then (do e ← call (update env (config_map_object updated)); try_error e; return (ok updated))
      else return (ok found)

  -- createOrUpdateConfigMap
  unfoldable pub create_or_update_config_map : Bool → MariaDbConfig → Go (Result ConfigMap)
  create_or_update_config_map is_primary config = function (do
    ha ← gets (λ ha. ha)
    let params = config.configuration_parameters
    order ← ranged env params
    let cm = config_map_for ha is_primary params order
    e ← call (set_controller_reference env (config_map_object cm))
    try_error e
    found ← call (fetch_config_map env (config_name ha.name is_primary))
    write_config_map (record cm { owner = some ha.name }) found)

  -- The branch of a StatefulSet that does not exist.
  unfoldable create_stateful_set : Bool → InstanceConfig → MariaDbConfig → Body Outcome Outcome
  create_stateful_set is_primary ic merged = do
    made ← call (create_or_update_config_map is_primary merged)
    cm ← unwrap made
    ha ← gets (λ ha. ha)
    sts ← unwrap (build_stateful_set env.parse_quantity ha is_primary ic cm.name)
    e ← call (set_controller_reference env (stateful_set_object sts))
    check e
    e' ← call (create env (stateful_set_object (record sts { owner = some ha.name })))
    check e'
    return requeue_now

  -- The branch of one that exists.
  unfoldable update_stateful_set :
      Bool → InstanceConfig → MariaDbConfig → StatefulSet → Body Outcome Outcome
  update_stateful_set is_primary ic merged found = do
    made ← call (create_or_update_config_map is_primary merged)
    cm ← unwrap made
    ha ← gets (λ ha. ha)
    desired ← unwrap (build_stateful_set env.parse_quantity ha is_primary ic cm.name)
    if needs_update found desired
        then (do
          e ← call (
              update env (
                stateful_set_object (record desired {
                  volume_claim_templates = found.volume_claim_templates;
                  resource_version = found.resource_version;
                })))
          check e
          return requeue_now)
        else return no_requeue

  unfoldable pub instance_stateful_set :
      Bool → InstanceConfig → MariaDbConfig → Result StatefulSet → Body Outcome Outcome
  unfolding create_stateful_set update_stateful_set
  instance_stateful_set is_primary ic merged (err not_found) =
      create_stateful_set is_primary ic merged
  instance_stateful_set is_primary ic merged (err e) = return (failed e)
  instance_stateful_set is_primary ic merged (ok found) =
      update_stateful_set is_primary ic merged found

  -- reconcileInstanceStatefulSet
  unfoldable pub reconcile_instance_stateful_set : Bool → Go Outcome
  reconcile_instance_stateful_set is_primary = function (do
    ha ← gets (λ ha. ha)
    let ic = instance_config ha.spec.instances is_primary
    let merged = merge_mysql_configs ha.spec.instances.common_config ic.config
    found ← call (fetch_stateful_set env (instance_name ha.name is_primary))
    instance_stateful_set is_primary ic merged found)

  ready : Result StatefulSet → Result Bool
  ready (ok sts) = ok (sts.ready_replicas == sts.replicas)
  ready (err not_found) = ok false
  ready (err e) = err e

  -- isStatefulSetReady
  unfoldable pub is_stateful_set_ready : Bool → Go (Result Bool)
  unfolding ready
  is_stateful_set_ready is_primary = function (do
    ha ← gets (λ ha. ha)
    found ← call (fetch_stateful_set env (instance_name ha.name is_primary))
    return (ready found))

  -- The end of reconcileStatefulSets: the step from Initializing to Running.
  unfoldable pub start_running : Bool → Bool → Body Outcome Outcome
  start_running primary_ready secondary_ready = do
    phase ← gets (λ ha. ha.status.phase)
    if primary_ready && secondary_ready && phase is initializing
        then (do
          modify (λ ha. record ha { status = record ha.status { phase = running } })
          e ← call (update_status env)
          check e
          return no_requeue)
        else return no_requeue

  -- reconcileStatefulSets, with reconcilePrimaryStatefulSet and reconcileSecondaryStatefulSet
  unfoldable pub reconcile_stateful_sets : Go Outcome
  reconcile_stateful_sets = function (do
    primary ← call (reconcile_instance_stateful_set true)
    proceed primary
    secondary ← call (reconcile_instance_stateful_set false)
    proceed secondary
    p ← call (is_stateful_set_ready true)
    primary_ready ← unwrap p
    q ← call (is_stateful_set_ready false)
    secondary_ready ← unwrap q
    start_running primary_ready secondary_ready)
