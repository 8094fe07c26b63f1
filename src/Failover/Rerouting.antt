-- ===== src/Failover/Rerouting.antt =====
-- The cluster service after a failover, and what the next reconcile does to it.
use mariadb_ha_operator.Base.{
  String, ◌≡◌, ◌≢◌, ◌∙◌, sym, true, false, Option, none, some, arith, ap, inl, inr, string_eq,
  eq_iff,
}
use mariadb_ha_operator.StringMap.{lookup, NodupKeys}
use mariadb_ha_operator.Kube.{Service, Pod}
use mariadb_ha_operator.World.{ok, service, pod, service_object, Call, Env, State, made}
use mariadb_ha_operator.World.Calls.{key_of, calls}
use mariadb_ha_operator.World.Outcome.{flow}
use mariadb_ha_operator.Names.{instance_labels, cluster_service_name, pod_name}
use mariadb_ha_operator.Services.{cluster_service, reconcile_cluster_service}
use mariadb_ha_operator.Services.Cluster.{
  owned, fetched, role, lookup-role, reconcile_cluster_service-found,
}
use mariadb_ha_operator.Failover.{update_services_after_failover}

-- The calls that updateServicesAfterFailover has made when it succeeds.
abbrev pub asked : State → State
asked s =
    made (Call.get pod (key_of s.ha (pod_name s.ha.name false)))
      (made (Call.get service (key_of s.ha (cluster_service_name s.ha.name))) s)

primary-ne-secondary : ◌≢◌ {A = Option String} (some "primary") (some "secondary")
primary-ne-secondary e = ground (arith, eq_iff "primary" "secondary")

module _ (env : Env) (s : State) (svc : Service) (p : Pod) where
  abbrev pub rerouted : Service
  rerouted = record svc { selector = p.labels }

  abbrev pub after : State
  after = made (Call.update (service_object rerouted)) (asked s)

  reroutes :
      env.get_service s.history (key_of s.ha (cluster_service_name s.ha.name)) ≡ ok svc
      → env.get_pod
          (made (Call.get service (key_of s.ha (cluster_service_name s.ha.name))) s).history
          (key_of s.ha (pod_name s.ha.name false))
        ≡ ok p
      → env.update (asked s).history (service_object rerouted) ≡ none
      → update_services_after_failover env s ≡ (none, after)
  unfolding update_services_after_failover calls flow
  reroutes g q u = ground arith

  -- If updateServicesAfterFailover succeeds, and the pod that it chose carries the role "secondary"
  -- and no label twice, then reconcileClusterService, run next and reading the service back as it
  -- was written, points the service at the pods with the role "primary" again.
  pub reconcile-undoes-rerouting :
      env.get_service s.history (key_of s.ha (cluster_service_name s.ha.name)) ≡ ok svc
      → env.get_pod
          (made (Call.get service (key_of s.ha (cluster_service_name s.ha.name))) s).history
          (key_of s.ha (pod_name s.ha.name false))
        ≡ ok p
      → env.update (asked s).history (service_object rerouted) ≡ none
      → NodupKeys p.labels
      → lookup role p.labels ≡ some "secondary"
      → env.set_controller_reference after.history (service_object (cluster_service s.ha)) ≡ none
      → env.get_service (owned after).history (key_of s.ha (cluster_service_name s.ha.name))
        ≡ ok rerouted
      → let o = service_object (record svc { selector = instance_labels s.ha.name true }) in
        (update_services_after_failover env s ≡ (none, after))
        × ((reconcile_cluster_service env (update_services_after_failover env s).1).1
            ≡ made (Call.update o) (fetched after))
  reconcile-undoes-rerouting g q u nodup old_role h r =
      let e = reroutes g q u in
      elim (reconcile_cluster_service-found env after rerouted h r nodup) [
        | inl (same, kept) ↦
            absurd (primary-ne-secondary (sym (lookup-role s.ha.name) ∙ sym (same role) ∙ old_role))
        | inr (differ, reset) ↦ (e, rw e (ap (λ t. t.1) reset))
      ]
