-- ===== src/Services/Cluster.antt =====
-- What `reconcileClusterService` does with a cluster service that exists, and to one that
-- `updateServicesAfterFailover` has pointed at the new primary.
use mariadb_ha_operator.Base.{
  String, ◌≡◌, refl, ◌∙◌, sym, ◌⊎◌, Bool, true, false, Option, none, some, arith, string_eq,
  Bool-cases, inl, inr,
}
use mariadb_ha_operator.StringMap.{lookup, NodupKeys}
use mariadb_ha_operator.Kube.{Service}
use mariadb_ha_operator.World.{Error, ok, service, service_object, Call, Env, State, made}
use mariadb_ha_operator.World.Calls.{key_of, calls}
use mariadb_ha_operator.World.Outcome.{Outcome, no_requeue, requeue_now, failed, flow}
use mariadb_ha_operator.Names.{instance_labels, cluster_service_name}
use mariadb_ha_operator.Services.{
  maps_equal, cluster_service, keep_selector, reconcile_client_service, reconcile_cluster_service,
}
use mariadb_ha_operator.Services.Selectors.{SameEntries, maps_equal_iff}

-- The state in which reconcileClusterService asks for the service, and the one after the answer.
abbrev pub owned : State → State
owned s = made (Call.set_controller_reference (service_object (cluster_service s.ha))) s

abbrev pub fetched : State → State
fetched s = made (Call.get service (key_of s.ha (cluster_service_name s.ha.name))) (owned s)

-- `err` of the update, as reconcileClusterService returns it
abbrev pub written : Option Error → Outcome
written none = requeue_now
written (some e) = failed e

module _ (env : Env) (s : State) (found : Service) where
  selector_kept :
      env.set_controller_reference s.history (service_object (cluster_service s.ha)) ≡ none
      → env.get_service (owned s).history (key_of s.ha (cluster_service_name s.ha.name)) ≡ ok found
      → maps_equal found.selector (instance_labels s.ha.name true) ≡ true
      → reconcile_cluster_service env s ≡ (no_requeue, fetched s)
  unfolding reconcile_cluster_service reconcile_client_service keep_selector calls flow
  selector_kept h g e = ground arith

  selector_reset :
      env.set_controller_reference s.history (service_object (cluster_service s.ha)) ≡ none
      → env.get_service (owned s).history (key_of s.ha (cluster_service_name s.ha.name)) ≡ ok found
      → maps_equal found.selector (instance_labels s.ha.name true) ≡ false
      → let o = service_object (record found { selector = instance_labels s.ha.name true }) in
        reconcile_cluster_service env s
        ≡ (written (env.update (fetched s).history o), made (Call.update o) (fetched s))
  unfolding reconcile_cluster_service reconcile_client_service keep_selector calls flow
  selector_reset h g e = ground arith

true_not_false : ◌≡◌ {A = Bool} true false → ⊥
true_not_false e = cc

abbrev pub role : String
role = "mariadb.cpf-it.fr/role"

pub instance_labels-NodupKeys :
    (name : String) (is_primary : Bool) → NodupKeys (instance_labels name is_primary)
unfolding lookup
instance_labels-NodupKeys name is_primary = (refl, (refl, (refl, tt)))

pub lookup-role : (name : String) → lookup role (instance_labels name true) ≡ some "primary"
unfolding lookup
lookup-role name = refl

module _ (env : Env) (s : State) (found : Service) where
  -- Where the controller reference can be set and the cluster service is found, with no selector key
  -- twice, one of two things happens. Either its selector has exactly the entries of the primary's
  -- labels, and nothing is written and no requeue is asked for; or it has not, and the only further
  -- call is the update of that service with the primary's labels for a selector, behind which the
  -- function requeues at once or returns the update's error.
  pub reconcile_cluster_service-found :
      env.set_controller_reference s.history (service_object (cluster_service s.ha)) ≡ none
      → env.get_service (owned s).history (key_of s.ha (cluster_service_name s.ha.name)) ≡ ok found
      → NodupKeys found.selector
      → let labels = instance_labels s.ha.name true in
        let o = service_object (record found { selector = labels }) in
        SameEntries found.selector labels
          × (reconcile_cluster_service env s ≡ (no_requeue, fetched s))
        ⊎ (¬ SameEntries found.selector labels)
          × (reconcile_cluster_service env s
              ≡ (written (env.update (fetched s).history o), made (Call.update o) (fetched s)))
  reconcile_cluster_service-found h g u =
      let labels = instance_labels s.ha.name true in
      let iff = maps_equal_iff found.selector labels u (instance_labels-NodupKeys s.ha.name true) in
      elim (Bool-cases (maps_equal found.selector labels)) [
        | inl e ↦ inl (iff.0 e, selector_kept env s found h g e)
        | inr e ↦
            inr ((λ same. true_not_false (sym (iff.1 same) ∙ e)), selector_reset env s found h g e)
      ]
