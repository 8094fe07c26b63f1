-- ===== src/Tests/Phases.antt =====
-- Reconcile calls on the cluster of Tests/Data.
use mariadb_ha_operator.Base.{◌≡◌, refl, ap, subst, ℕ, true, [], Option, some, none, ◌≢◌, All}
use mariadb_ha_operator.Api.{recovering, running, failing}
use mariadb_ha_operator.Kube.{StatefulSet}
use mariadb_ha_operator.World.{State, ObjectKey, Result, ok, err}
use mariadb_ha_operator.Phases.{AllWrites}
use mariadb_ha_operator.Phases.Steps.{Reachable}
use mariadb_ha_operator.Phases.Reconcile.{reconcile-Reachable, reconcile-failing}
use mariadb_ha_operator.Reconciler.{reconcile, reconcile_cluster}
use mariadb_ha_operator.Reconciler.Course.{Course, reconcile_cluster-Course}
use mariadb_ha_operator.Reconciler.Nameless.{IsNameless, reconcile_cluster-IsNameless}
use mariadb_ha_operator.Reconciler.Stuck.{reconcile_cluster_stuck}
use mariadb_ha_operator.StatefulSets.{reconcile_instance_stateful_set}
use mariadb_ha_operator.StatefulSets.Stuck.{FillsModes}
use mariadb_ha_operator.Tests.Data.{
  env, env_in, env_in-StoresStatus, in_phase, start, wait, stored_set,
}

abbrev key : ObjectKey
key = record { namespace = "databases"; name = "demo" }

reconcile-Reachable_example :
    AllWrites (Reachable running) (reconcile (env_in running) wait key []).1
reconcile-Reachable_example =
    reconcile-Reachable (env_in running) wait (env_in-StoresStatus running) key []
      (in_phase running) refl tt (λ r health. record { at = λ s w. w })

reconcile-failing_example : AllWrites (λ q. q ≡ failing) (reconcile (env_in failing) wait key []).1
reconcile-failing_example =
    reconcile-failing (env_in failing) wait (env_in-StoresStatus failing) key [] (in_phase failing)
      refl refl tt

abbrev set_of : Result StatefulSet → StatefulSet
set_of (ok found) = found
set_of (err e) = stored_set

has_mode : ◌≢◌ {A = Option ℕ} (some 420) none
has_mode = λ e. cc

env-FillsModes : FillsModes env
env-FillsModes = record {
  modes = λ h k found e.
      subst (λ (x : StatefulSet). All (λ v. v.default_mode ≢ none) x.template.volumes) (ap set_of e)
        (has_mode, (has_mode, tt));
}

reconcile_cluster_stuck_example :
    reconcile_cluster env wait (start running)
    ≡ reconcile_instance_stateful_set env true (start running)
reconcile_cluster_stuck_example = reconcile_cluster_stuck env wait env-FillsModes (start running)

-- A cluster that is recovering, as the program leaves the names of its status.
abbrev nameless : State
nameless = record (start recovering) {
  ha = record (in_phase recovering) {
    status = record (in_phase recovering).status { current_primary = ""; current_secondary = "" };
  };
}

reconcile_cluster-IsNameless_example :
    IsNameless (reconcile_cluster (env_in recovering) wait nameless).1
reconcile_cluster-IsNameless_example =
    reconcile_cluster-IsNameless (env_in recovering) wait (env_in-StoresStatus recovering)
      (λ health. record {
        at = λ s w. record {
          current_primary = w.current_primary;
          current_secondary = w.current_secondary;
          old_primaries = w.old_primaries;
        };
      })
      nameless (record { current_primary = refl; current_secondary = refl; old_primaries = tt })

reconcile_cluster-Course_example :
    Course
      (env_in running)
      wait
      (start running)
      (reconcile_cluster (env_in running) wait (start running))
reconcile_cluster-Course_example =
    reconcile_cluster-Course (env_in running) wait (env_in-StoresStatus running) (start running)
