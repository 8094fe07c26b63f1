-- ===== src/Reconciler/Stuck.antt =====
-- A reconciliation of a MariaDBHA whose StatefulSets have been filled in by the API server.
use mariadb_ha_operator.Base.{◌≡◌, sym, subst, ap, ◌∙◌, true}
use mariadb_ha_operator.World.{
  Env, State, Go, Body, Flow, function, ◌>>=◌, ◌>>◌, call, continue, merge,
}
use mariadb_ha_operator.World.Outcome.{Outcome, proceed}
use mariadb_ha_operator.Health.Checks.{HealthCheckResult}
use mariadb_ha_operator.StatefulSets.{reconcile_stateful_sets, reconcile_instance_stateful_set}
use mariadb_ha_operator.StatefulSets.Stuck.{
  Stops, FillsModes, reconcile_instance_stateful_set-Stops, proceed-Stops,
}
use mariadb_ha_operator.Reconciler.{reconcile_cluster}

-- A function whose first call stops does nothing else.
call-Stops :
    (m : Go Outcome) (k : Body Outcome Outcome) (s : State)
    → Stops (m s).0
    → function (call m >>= λ o. (proceed o >> k)) s ≡ m s
unfolding function ◌>>=◌ call
call-Stops m k s h =
    let (o, s') = m s in
    ap
      (λ (r : Flow Outcome (Unit {0}) × State).
        let (a, t) = r in let (b, t') = continue a (λ _. k) t in (merge b, t'))
      (proceed-Stops o h s')

module _ (env : Env) (fills : FillsModes env) where
  sets-Stops :
      (s : State) → reconcile_stateful_sets env s ≡ reconcile_instance_stateful_set env true s
  unfolding reconcile_stateful_sets
  sets-Stops s = call-Stops _ _ s ((reconcile_instance_stateful_set-Stops env fills true).at s)

-- Every StatefulSet that the API server returns has a file mode for its volumes, its documented
-- default. Then a reconciliation of the cluster is the step on the primary's StatefulSet and nothing
-- else: no secondary, no Service, no replication, no health check and no failover follows it.
pub reconcile_cluster_stuck :
    (env : Env) (handle_primary_failure : HealthCheckResult → Go Outcome)
    → FillsModes env
    → (s : State)
    → reconcile_cluster env handle_primary_failure s ≡ reconcile_instance_stateful_set env true s
unfolding reconcile_cluster
reconcile_cluster_stuck env f fills s =
    let primary_only = sets-Stops env fills s in
    let stops = (reconcile_instance_stateful_set-Stops env fills true).at s in
    call-Stops _ _ s (subst (λ r. Stops r.0) (sym primary_only) stops) ∙ primary_only
