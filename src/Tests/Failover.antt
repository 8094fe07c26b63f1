-- ===== src/Tests/Failover.antt =====
-- Failovers of the cluster of Tests/Data.
use mariadb_ha_operator.Base.{◌≡◌, refl, some, none, true, false, ◌↔◌, ◌⊎◌, Bool, Option}
use mariadb_ha_operator.StringMap.{lookup, NodupKeys}
use mariadb_ha_operator.Api.{running, failover}
use mariadb_ha_operator.Kube.{Service}
use mariadb_ha_operator.World.{Call, made, service_object}
use mariadb_ha_operator.Names.{instance_labels}
use mariadb_ha_operator.Services.{cluster_service, reconcile_cluster_service}
use mariadb_ha_operator.Services.Cluster.{fetched}
use mariadb_ha_operator.Failover.{handle_failover, update_services_after_failover, is_fit}
use mariadb_ha_operator.Failover.Ends.{FailoverResult}
use mariadb_ha_operator.Failover.Outcomes.{handle_failover_result}
use mariadb_ha_operator.Failover.Allowed.{is_failover_allowed}
use mariadb_ha_operator.Failover.Allowed.Guards.{IsIdle, IntervalElapsed, is_failover_allowed_iff}
use mariadb_ha_operator.Failover.Allowed.Manual.{
  manual_failover_guarded, secondary_check, IsStarted, IsRejected,
}
use mariadb_ha_operator.Failover.Rerouting.{reconcile-undoes-rerouting, after}
use mariadb_ha_operator.Tests.Data.{env, env_in, env_in-StoresStatus, in_phase, start, pod}

handle_failover_result_example :
    FailoverResult
      (env_in failover)
      "demo-primary-0"
      "demo-secondary-0"
      (handle_failover (env_in failover) (start failover)).1
      (handle_failover (env_in failover) (start failover)).0
handle_failover_result_example =
    handle_failover_result (env_in failover) (env_in-StoresStatus failover) (start failover)

is_failover_allowed_iff_example : ((is_failover_allowed env (start running)).0 ≡ true) ↔ (
    (◌≡◌ {A = Option Bool} (some true) (some true))
    × IsIdle (in_phase running)
    × IntervalElapsed (in_phase running) 400000000000)
is_failover_allowed_iff_example = is_failover_allowed_iff env (start running)

manual_failover_guarded_example :
    IsIdle (in_phase running)
      × IntervalElapsed (in_phase running) 400000000000
      × (is_fit (secondary_check env (start running)).0 ≡ true)
      × IsStarted env (start running)
    ⊎ IsRejected env (start running)
      × (¬ (
          IsIdle (in_phase running)
          × IntervalElapsed (in_phase running) 400000000000
          × (is_fit (secondary_check env (start running)).0 ≡ true)))
manual_failover_guarded_example = manual_failover_guarded env (start running)

abbrev found : Service
found = cluster_service (in_phase running)

labels_nodup : NodupKeys (instance_labels "demo" false)
unfolding lookup
labels_nodup = (refl, (refl, (refl, tt)))

pod_is_secondary : lookup "mariadb.cpf-it.fr/role" pod.labels ≡ some "secondary"
unfolding lookup
pod_is_secondary = refl

reconcile-undoes-rerouting_example :
    (update_services_after_failover env (start running)
      ≡ (none, after env (start running) found pod))
    × ((reconcile_cluster_service env (update_services_after_failover env (start running)).1).1
        ≡ made
            (Call.update (service_object (record found { selector = instance_labels "demo" true })))
            (fetched (after env (start running) found pod)))
reconcile-undoes-rerouting_example =
    reconcile-undoes-rerouting env (start running) found pod refl refl refl labels_nodup
      pod_is_secondary refl refl
