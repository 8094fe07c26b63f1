-- ===== src/StatefulSets/Keeps.antt =====
-- Whatever an invariant says of the MariaDBHA, the steps on the StatefulSets keep it: of the
-- MariaDBHA they write the phase alone, and that at the very end.
use mariadb_ha_operator.Base.{Bool}
use mariadb_ha_operator.Api.{MariaDbConfig, InstanceConfig}
use mariadb_ha_operator.Kube.{StatefulSet, ConfigMap}
use mariadb_ha_operator.World.{not_found, Result, ok, err, Env, State}
use mariadb_ha_operator.World.Keeps.{Keeps}
use mariadb_ha_operator.World.Keeps.Calls.{IsStable, call_rules}
use mariadb_ha_operator.StatefulSets.{
  write_config_map, create_or_update_config_map, instance_stateful_set,
  reconcile_instance_stateful_set, is_stateful_set_ready, start_running, reconcile_stateful_sets,
}

module _ {P : State → Type 0} (env : Env) (stable : IsStable P) where
  write_config_map-Keeps :
      (cm : ConfigMap) (r : Result ConfigMap) → Keeps P (write_config_map env cm r)
  unfolding write_config_map
  write_config_map-Keeps cm (err not_found) = search call_rules depth 20
  write_config_map-Keeps cm (err e) = search call_rules depth 20
  write_config_map-Keeps cm (ok found) = search call_rules depth 20

  pub create_or_update_config_map-Keeps :
      (p : Bool) (c : MariaDbConfig) → Keeps P (create_or_update_config_map env p c)
  unfolding create_or_update_config_map
  create_or_update_config_map-Keeps p c = search (call_rules, write_config_map-Keeps) depth 20

  instance_stateful_set-Keeps :
      (p : Bool) (ic : InstanceConfig) (c : MariaDbConfig) (r : Result StatefulSet)
      → Keeps P (instance_stateful_set env p ic c r)
  unfolding instance_stateful_set
  instance_stateful_set-Keeps p ic c (err not_found) =
      search (call_rules, create_or_update_config_map-Keeps) depth 30
  instance_stateful_set-Keeps p ic c (err e) = search call_rules depth 20
  instance_stateful_set-Keeps p ic c (ok found) =
      search (call_rules, create_or_update_config_map-Keeps) depth 30

  pub reconcile_instance_stateful_set-Keeps :
      (p : Bool) → Keeps P (reconcile_instance_stateful_set env p)
  unfolding reconcile_instance_stateful_set
  reconcile_instance_stateful_set-Keeps p =
      search (call_rules, instance_stateful_set-Keeps) depth 20

  pub is_stateful_set_ready-Keeps : (p : Bool) → Keeps P (is_stateful_set_ready env p)
  unfolding is_stateful_set_ready
  is_stateful_set_ready-Keeps p = search call_rules depth 20

  module _ (tail : (p q : Bool) → Keeps P (start_running env p q)) where
    pub reconcile_stateful_sets-Keeps : Keeps P (reconcile_stateful_sets env)
    unfolding reconcile_stateful_sets
    reconcile_stateful_sets-Keeps =
        search
          (call_rules, tail, reconcile_instance_stateful_set-Keeps, is_stateful_set_ready-Keeps)
          depth 30
