-- ===== src/Tests/Objects.antt =====
-- The objects, counters and conditions of the cluster of Tests/Data.
use mariadb_ha_operator.Base.{
  ◌≡◌, refl, ◌∷◌, [], String, ℕ, pos, some, none, ◌≢◌, All, true, false, ◌↔◌, ◌⊎◌, Option, arith,
}
use mathlib.Core.Option.{or_else}
use mariadb_ha_operator.StringMap.{StringMap, lookup, NodupKeys}
use mariadb_ha_operator.Api.{running, Condition, condition_true, condition_false}
use mariadb_ha_operator.Kube.{StatefulSet}
use mariadb_ha_operator.World.{ok, Kind, Error, Call, made, service_object}
use mariadb_ha_operator.World.Outcome.{failed, no_requeue}
use mariadb_ha_operator.World.Sql.{MariaDbConnectionInfo}
use mariadb_ha_operator.Config.{merge_mysql_configs}
use mariadb_ha_operator.Config.Merge.{lookup-merge_mysql_configs}
use mariadb_ha_operator.Names.{instance_labels}
use mariadb_ha_operator.StatefulSets.Build.{build_stateful_set, stateful_set_of, needs_update}
use mariadb_ha_operator.StatefulSets.Updates.{SameFirst, needs_update_iff, needs_update-filled}
use mariadb_ha_operator.Services.{maps_equal, cluster_service, reconcile_cluster_service}
use mariadb_ha_operator.Services.Selectors.{SameEntries, maps_equal_iff}
use mariadb_ha_operator.Services.Cluster.{fetched, written, reconcile_cluster_service-found}
use mariadb_ha_operator.Health.Counters.{get_failure_count, save_failure_count}
use mariadb_ha_operator.Health.Counters.Laws.{get-save_failure_count}
use mariadb_ha_operator.Health.Conditions.{is_current, put_condition, is_configured}
use mariadb_ha_operator.Health.Conditions.Laws.{
  UniqueKinds, is_current-put_condition, put_condition-UniqueKinds, is_configured-put_condition,
}
use mariadb_ha_operator.Replication.{setup_replication}
use mariadb_ha_operator.Replication.Position.{setup_replication-fails}
use mariadb_ha_operator.Deletion.{owned_objects, handle_deletion}
use mariadb_ha_operator.Deletion.Settled.{IsSettled, handle_deletion-cases}
use mariadb_ha_operator.Tests.Data.{env, in_phase, start, config, instance, stored_set}

handle_deletion-cases_example :
    All (λ (o : Kind × String). IsSettled env (in_phase running) o.0 o.1) (owned_objects "demo")
    ⊎ (((e : Error) × ((handle_deletion env (start running)).0 ≡ failed e))
        × ((handle_deletion env (start running)).1.ha ≡ in_phase running))
handle_deletion-cases_example = handle_deletion-cases env (start running)

abbrev labels : StringMap
labels = instance_labels "demo" true

labels_nodup : NodupKeys labels
unfolding lookup
labels_nodup = (refl, (refl, (refl, tt)))

maps_equal_iff_example : (maps_equal labels labels ≡ true) ↔ SameEntries labels labels
maps_equal_iff_example = maps_equal_iff labels labels labels_nodup labels_nodup

reconcile_cluster_service-found_example :
    SameEntries (cluster_service (in_phase running)).selector labels
      × (reconcile_cluster_service env (start running) ≡ (no_requeue, fetched (start running)))
    ⊎ (¬ SameEntries (cluster_service (in_phase running)).selector labels)
      × (reconcile_cluster_service env (start running) ≡ (
        written none,
        made
            (Call.update
              (service_object (record (cluster_service (in_phase running)) { selector = labels })))
            (fetched (start running)),
      ))
reconcile_cluster_service-found_example =
    reconcile_cluster_service-found env (start running) (cluster_service (in_phase running)) refl
      refl labels_nodup

needs_update_iff_example : (needs_update stored_set stored_set ≡ false) ↔ (
    (stored_set.replicas ≡ stored_set.replicas)
    × SameFirst stored_set.template.containers stored_set.template.containers
    × (stored_set.template.volumes ≡ stored_set.template.volumes))
needs_update_iff_example = needs_update_iff stored_set stored_set

abbrev desired : StatefulSet
desired = stateful_set_of (in_phase running) true instance "demo-primary-config" "10Gi"

desired_built :
    build_stateful_set (λ text. some text) (in_phase running) true instance "demo-primary-config"
    ≡ ok desired
unfolding build_stateful_set
desired_built = refl

has_mode : ◌≢◌ {A = Option ℕ} (some 420) none
has_mode = λ e. cc

needs_update-filled_example : needs_update stored_set desired ≡ true
needs_update-filled_example =
    needs_update-filled (λ text. some text) (in_phase running) true instance "demo-primary-config"
      stored_set desired desired_built (has_mode, (has_mode, tt))

get-save_failure_count_example :
    get_failure_count (save_failure_count true (pos 3) (in_phase running)) true ≡ pos 3
get-save_failure_count_example =
    get-save_failure_count (in_phase running) true true (pos 3) (omega arith)

abbrev active : Condition
active = record {
  kind = "ReplicationActive";
  status = condition_true;
  reason = "ReplicationActive";
  message = "";
  last_transition_time = 5;
}

abbrev broken : Condition
broken = record active { status = condition_false }

is_current-put_condition_example :
    is_current "ReplicationActive" condition_true (put_condition active (broken ∷ [])) ≡ true
is_current-put_condition_example =
    is_current-put_condition active "ReplicationActive" condition_true (broken ∷ [])

put_condition-UniqueKinds_example : UniqueKinds (put_condition active (broken ∷ []))
put_condition-UniqueKinds_example = put_condition-UniqueKinds active (broken ∷ []) (tt, tt)

is_configured-put_condition_example : is_configured (put_condition active (broken ∷ [])) ≡ true
is_configured-put_condition_example = is_configured-put_condition active (broken ∷ []) (tt, tt)

params_nodup : NodupKeys (config "").configuration_parameters
unfolding lookup
params_nodup = (refl, (refl, tt))

lookup-merge_mysql_configs_example :
    lookup "max_connections" (merge_mysql_configs (config "") (config "")).configuration_parameters
    ≡ or_else
        (lookup "max_connections" (config "").configuration_parameters)
        (lookup "max_connections" (config "").configuration_parameters)
lookup-merge_mysql_configs_example =
    lookup-merge_mysql_configs (config "") (config "") "max_connections" params_nodup params_nodup

abbrev server : MariaDbConnectionInfo
server = record {
  host = "10.0.0.2";
  port = 3306;
  username = "root";
  password = "secret";
  database = "mysql";
}

setup_replication-fails_example : (setup_replication env server server (start running)).0 ≢ none
setup_replication-fails_example =
    setup_replication-fails env server server (λ h. omega arith) (start running)

abbrev swapped : StringMap
swapped = ("sync_binlog", "1") ∷ ("max_connections", "100") ∷ []
