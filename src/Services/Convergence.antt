-- ===== src/Services/Convergence.antt =====
-- `reconcileServices`, called again as long as it asks for it, comes to rest.
use mariadb_ha_operator.Base.{
  ◌≡◌, ◌≢◌, refl, sym, ◌∙◌, ap, subst, ℕ, zero, suc, ◌+◌, ◌<◌, ◌≤◌, List, [], ◌∷◌, All, length,
  arith, Bool, true, false, some, none,
}
use mariadb_ha_operator.Api.{MariaDbHa}
use mariadb_ha_operator.World.{ObjectKey, Env, State, Go, function}
use mariadb_ha_operator.World.Outcome.{Outcome, done, failed, no_requeue, requeue_now, flow}
use mariadb_ha_operator.Names.Distinct.{
  primary-secondary, primary-cluster, primary-read_only, secondary-cluster, secondary-read_only,
  cluster-read_only,
}
use mariadb_ha_operator.Services.{
  headless_service, cluster_service, read_only_service, reconcile_headless_service,
  reconcile_cluster_service, reconcile_read_only_service, should_create_read_only_service,
  reconcile_services,
}
use mariadb_ha_operator.Services.Cluster.{instance_labels-NodupKeys}
use mariadb_ha_operator.Services.Store.{key_of_service, StoresServices}
use mariadb_ha_operator.Services.Rounds.{Wanted, Round}
use mariadb_ha_operator.Services.Settle.{
  reconcile_headless_service-Round, reconcile_client_service-Round,
}
use mariadb_ha_operator.Services.Passes.{
  Task, in_turn, AreApart, AllSettled, FirstSettled, DoesRound, Pass, settled, onward, in_turn-Pass,
}

abbrev asks_again : Outcome → Bool
asks_again (done r) = r.requeue
asks_again (failed e) = false

-- The controller's work queue, for one function: it is called again as long as it asks for it at
-- once, at most as often as the number says.
abbrev pub again : ℕ → Go Outcome → Go Outcome
again zero m s = (requeue_now, s)
again (suc n) m s = let (o, u) = m s in elim (asks_again o) [ true ↦ again n m u | false ↦ (o, u) ]

pub record Rest (env : Env) (ts : List Task) (ha : MariaDbHa) (r : Outcome × State) : Type 0 where
  pub outcome : r.0 ≡ no_requeue
  pub in_order : AllSettled env ts r.1.history
  pub same_ha : r.1.ha ≡ ha

module _ (env : Env) (ha : MariaDbHa) (ts : List Task) (m : Go Outcome)
    (passes : (n : ℕ) (s : State)
      → s.ha ≡ ha
      → FirstSettled env n ts s.history
      → Pass env n ts s (m s)) where
  again-Rest :
      (k n : ℕ) (s : State)
      → s.ha ≡ ha
      → FirstSettled env n ts s.history
      → n ≤ length ts
      → length ts < n + k
      → Rest env ts ha (again k m s)
  again-Rest zero n s e first le lt = absurd (omega arith)
  again-Rest (suc k) n s e first le lt =
      go (λ l u e' f le' lt'. again-Rest k l u e' f le' lt') (m s) (passes n s e first)
    where
      go :
          ((l : ℕ) (u : State)
            → u.ha ≡ ha
            → FirstSettled env l ts u.history
            → l ≤ length ts
            → length ts < l + k
            → Rest env ts ha (again k m u))
          → (r : Outcome × State) → Pass env n ts s r
          → Rest env ts ha (elim (asks_again r.0) [ true ↦ again k m r.1 | false ↦ (r.0, r.1) ])
      go rest r (settled u all same_ha unwritten) = record {
        outcome = refl;
        in_order = all;
        same_ha = same_ha ∙ e;
      }
      go rest r (onward u less next same_ha unwritten) =
          rest (suc n) u (same_ha ∙ e) next (omega arith) (omega arith)

-- The functions of reconcileServices, each with the Service that it cares for.
abbrev pub tasks : Env → MariaDbHa → List Task
tasks env ha =
    record {
      wanted = record { key = key_of_service (headless_service ha true); selector = none };
      run = reconcile_headless_service env true;
    }
    ∷ record {
      wanted = record { key = key_of_service (headless_service ha false); selector = none };
      run = reconcile_headless_service env false;
    }
    ∷ record {
      wanted = record {
        key = key_of_service (cluster_service ha);
        selector = some (cluster_service ha).selector;
      };
      run = reconcile_cluster_service env;
    }
    ∷ record {
      wanted = record {
        key = key_of_service (read_only_service ha);
        selector = some (read_only_service ha).selector;
      };
      run = reconcile_read_only_service env;
    }
    ∷ []

module _ (env : Env) (law : StoresServices env) (ha : MariaDbHa) where
  -- A round for the object of the state is one for the object that it equals.
  with_object :
      (wanted : MariaDbHa → Wanted) (m : Go Outcome)
      → ((s : State) → Round env (wanted s.ha) s (m s))
      → (s : State) → s.ha ≡ ha
      → Round env (wanted ha) s (m s)
  with_object wanted m round s e = subst (λ a. Round env (wanted a) s (m s)) e (round s)

  each_DoesRound : All (DoesRound env ha) (tasks env ha)
  unfolding reconcile_cluster_service reconcile_read_only_service
  each_DoesRound =
      let primary =
        with_object
          (λ a. record { key = key_of_service (headless_service a true); selector = none }) _
          (λ s. reconcile_headless_service-Round env law s true) in
      let secondary =
        with_object
          (λ a. record { key = key_of_service (headless_service a false); selector = none }) _
          (λ s. reconcile_headless_service-Round env law s false) in
      let cluster =
        with_object
          (λ a. record {
            key = key_of_service (cluster_service a);
            selector = some (cluster_service a).selector;
          })
          _
          (λ s.
            reconcile_client_service-Round env law s cluster_service refl
              (instance_labels-NodupKeys s.ha.name true)) in
      let read_only =
        with_object
          (λ a. record {
            key = key_of_service (read_only_service a);
            selector = some (read_only_service a).selector;
          })
          _
          (λ s.
            reconcile_client_service-Round env law s read_only_service refl
              (instance_labels-NodupKeys s.ha.name false)) in
      (primary, (secondary, (cluster, (read_only, tt))))

  name_of : {j k : ObjectKey} → (k.name ≢ j.name) → j ≢ k
  name_of differ e = differ (ap (λ (k : ObjectKey). k.name) (sym e))

  each_apart : AreApart (tasks env ha)
  each_apart = (
    (
      name_of (primary-secondary ha.name),
      (name_of (primary-cluster ha.name), (name_of (primary-read_only ha.name), tt)),
    ),
    (
      (name_of (secondary-cluster ha.name), (name_of (secondary-read_only ha.name), tt)),
      ((name_of (cluster-read_only ha.name), tt), (tt, tt)),
    ),
  )

  reconcile_services-in_turn :
      (s : State) → reconcile_services env s ≡ function (in_turn (tasks env ha)) s
  unfolding reconcile_services in_turn should_create_read_only_service flow
  reconcile_services-in_turn s = refl

-- While the API server stores the Services and no other client writes them, reconcileServices comes
-- to rest: called again as long as it asks for it, it returns without a requeue and without an error
-- after at most five calls, whatever Services there were before. Then the two headless Services are
-- there, and the cluster service and the read-only service have selectors that mapsEqual accepts, of
-- the primary and of the secondary. The MariaDBHA in memory is as before.
pub reconcile_services-settles :
    (env : Env)
    → StoresServices env
    → (s : State) → Rest env (tasks env s.ha) s.ha (again 5 (reconcile_services env) s)
reconcile_services-settles env law s =
    again-Rest env s.ha (tasks env s.ha) (reconcile_services env)
      (λ n u e first. rw (reconcile_services-in_turn env law s.ha u) (
        in_turn-Pass env s.ha (tasks env s.ha) (each_DoesRound env law s.ha)
          (each_apart env law s.ha) n u e first))
      5 0 s refl tt (omega arith) (omega arith)
