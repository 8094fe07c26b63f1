-- ===== src/Services/Keeps.antt =====
-- The steps on the Services write nothing of the MariaDBHA.
use mariadb_ha_operator.Base.{Bool}
use mariadb_ha_operator.Api.{MariaDbHa}
use mariadb_ha_operator.Kube.{Service}
use mariadb_ha_operator.World.{not_found, Result, ok, err, Env, State}
use mariadb_ha_operator.World.Keeps.{Keeps}
use mariadb_ha_operator.World.Keeps.Calls.{IsStable, call_rules}
use mariadb_ha_operator.Services.{
  keep_headless, reconcile_headless_service, keep_selector, reconcile_client_service,
  reconcile_cluster_service, reconcile_read_only_service, reconcile_services,
}

module _ {P : State → Type 0} (env : Env) (stable : IsStable P) where
  keep_headless-Keeps : (svc : Service) (r : Result Service) → Keeps P (keep_headless env svc r)
  unfolding keep_headless
  keep_headless-Keeps svc (err not_found) = search call_rules depth 20
  keep_headless-Keeps svc (err e) = search call_rules depth 20
  keep_headless-Keeps svc (ok found) = search call_rules depth 20

  keep_selector-Keeps : (svc : Service) (r : Result Service) → Keeps P (keep_selector env svc r)
  unfolding keep_selector
  keep_selector-Keeps svc (err not_found) = search call_rules depth 20
  keep_selector-Keeps svc (err e) = search call_rules depth 20
  keep_selector-Keeps svc (ok found) = search call_rules depth 20

  reconcile_headless_service-Keeps : (p : Bool) → Keeps P (reconcile_headless_service env p)
  unfolding reconcile_headless_service
  reconcile_headless_service-Keeps p = search (call_rules, keep_headless-Keeps) depth 20

  reconcile_client_service-Keeps :
      (build : MariaDbHa → Service) → Keeps P (reconcile_client_service env build)
  unfolding reconcile_client_service
  reconcile_client_service-Keeps build = search (call_rules, keep_selector-Keeps) depth 20

  reconcile_cluster_service-Keeps : Keeps P (reconcile_cluster_service env)
  unfolding reconcile_cluster_service
  reconcile_cluster_service-Keeps = reconcile_client_service-Keeps _

  reconcile_read_only_service-Keeps : Keeps P (reconcile_read_only_service env)
  unfolding reconcile_read_only_service
  reconcile_read_only_service-Keeps = reconcile_client_service-Keeps _

  pub reconcile_services-Keeps : Keeps P (reconcile_services env)
  unfolding reconcile_services
  reconcile_services-Keeps =
      search
        (
          call_rules, reconcile_headless_service-Keeps, reconcile_cluster_service-Keeps,
          reconcile_read_only_service-Keeps,
        )
        depth 30
