-- ===== src/Reconciler/Nameless.antt =====
-- The names of the primary and of the secondary in the status, as long as no step has set them.
use mariadb_ha_operator.Base.{◌≡◌, refl, sym, subst, ◌∙◌, String, List, [], ◌∷◌, ◌++◌, map, All}
use mariadb_ha_operator.Api.{FailoverEvent}
use mariadb_ha_operator.World.{Env, State, Go}
use mariadb_ha_operator.World.Outcome.{Outcome}
use mariadb_ha_operator.World.Laws.{StoresStatus}
use mariadb_ha_operator.World.Frame.{Frame}
use mariadb_ha_operator.World.Keeps.{Keeps}
use mariadb_ha_operator.World.Keeps.Calls.{IsTolerant, Keeps-update_status}
use mariadb_ha_operator.Sessions.Tolerant.{tolerant-Sessions}
use mariadb_ha_operator.Health.Checks.{HealthCheckResult}
use mariadb_ha_operator.Failover.{after_failover, handle_failover}
use mariadb_ha_operator.Failover.Keeps.{handle_failover-Keeps}
use mariadb_ha_operator.Failover.TakeOver.{old_primaries as olds}
use mariadb_ha_operator.Failover.Recovery.{old_primary_name, handle_recovery}
use mariadb_ha_operator.Failover.Recovery.Waiting.{handle_recovery-waits}
use mariadb_ha_operator.Reconciler.{reconcile_cluster}
use mariadb_ha_operator.Reconciler.Keeps.{reconcile_cluster-Keeps}

-- The status names no primary and no secondary, and no failover of its history an old primary.
pub record IsNameless (s : State) : Type 0 where
  pub current_primary : s.ha.status.current_primary ≡ ""
  pub current_secondary : s.ha.status.current_secondary ≡ ""
  pub old_primaries : All (λ (n : String). n ≡ "") (olds s.ha)

old_primary_name-nameless :
    (es : List FailoverEvent)
    → All (λ (n : String). n ≡ "") (map (λ (e : FailoverEvent). e.old_primary) es)
    → old_primary_name es ≡ ""
unfolding old_primary_name
old_primary_name-nameless [] h = refl
old_primary_name-nameless (e ∷ []) h = h.0
old_primary_name-nameless (e ∷ d ∷ es) h = old_primary_name-nameless (d ∷ es) h.1

append-nameless :
    (es : List FailoverEvent) (e : FailoverEvent)
    → All (λ (n : String). n ≡ "") (map (λ (x : FailoverEvent). x.old_primary) es)
    → e.old_primary ≡ ""
    → All (λ (n : String). n ≡ "") (map (λ (x : FailoverEvent). x.old_primary) (es ++ (e ∷ [])))
append-nameless [] e h p = (p, tt)
append-nameless (d ∷ es) e h p = (h.0, append-nameless es e h.1 p)

module _ (env : Env) (law : StoresStatus env) where
  same :
      {s t : State}
      → t.ha.status.current_primary ≡ s.ha.status.current_primary
      → t.ha.status.current_secondary ≡ s.ha.status.current_secondary
      → olds t.ha ≡ olds s.ha
      → IsNameless s
      → IsNameless t
  same p q o w = record {
    current_primary = p ∙ w.current_primary;
    current_secondary = q ∙ w.current_secondary;
    old_primaries = subst (All (λ (n : String). n ≡ "")) (sym o) w.old_primaries;
  }

  IsNameless-tolerant : IsTolerant IsNameless
  IsNameless-tolerant = record {
    stable = record { after = λ c quiet s w. same refl refl refl w };
    opened = λ i s w. same refl refl refl w;
    closed = λ i s w. same refl refl refl w;
  }

  IsNameless-Frame : Frame env IsNameless
  IsNameless-Frame = record {
    stable = IsNameless-tolerant.stable;
    sessions = tolerant-Sessions env IsNameless-tolerant;
    status =
        Keeps-update_status env (λ s w. same refl refl refl w)
          (λ s ha w e.
            same (law.current_primary s.history s.ha ha e)
              (law.current_secondary s.history s.ha ha e) (law.old_primaries s.history s.ha ha e)
              w);
    conditions = λ cs s w. same refl refl refl w;
    lag = λ l s w. same refl refl refl w;
    annotations = λ m s w. same refl refl refl w;
  }

  handle_recovery-IsNameless : Keeps IsNameless (handle_recovery env)
  handle_recovery-IsNameless = record {
    at = λ s w.
        let waits = handle_recovery-waits env s (old_primary_name-nameless _ w.old_primaries) in
        subst (λ r. IsNameless r.1) (sym waits) (same refl refl refl w);
  }

  handle_failover-IsNameless : Keeps IsNameless (handle_failover env)
  unfolding after_failover
  handle_failover-IsNameless =
      handle_failover-Keeps env IsNameless-Frame (λ s w. same refl refl refl w)
        (λ now d s w. record {
          current_primary = w.current_secondary;
          current_secondary = refl;
          old_primaries = append-nameless _ _ w.old_primaries w.current_primary;
        })

-- A status that names no primary, no secondary and no old primary keeps to that through a
-- reconciliation of the cluster, a failover and a recovery included: no step ever sets the names.
-- It is assumed that the API server stores the status that it is sent, and that the missing
-- handlePrimaryFailure does not set the names either.
pub reconcile_cluster-IsNameless :
    (env : Env) (handle_primary_failure : HealthCheckResult → Go Outcome)
    → StoresStatus env
    → ((health : HealthCheckResult) → Keeps IsNameless (handle_primary_failure health))
    → (s : State) → IsNameless s
    → IsNameless (reconcile_cluster env handle_primary_failure s).1
reconcile_cluster-IsNameless env f law detects s w =
    (reconcile_cluster-Keeps env (IsNameless-Frame env law) (λ p s w. same env law refl refl refl w)
        f detects (handle_failover-IsNameless env law) (handle_recovery-IsNameless env law)).at
      s w
