-- ===== src/StatefulSets/InOrder.antt =====
-- What `reconcileStatefulSets` has found and written when it asks for nothing more.
use mariadb_ha_operator.Base.{◌≡◌, refl, Bool, true, false, String}
use mariadb_ha_operator.Api.{MariaDbHa, MariaDbConfig, InstanceConfig}
use mariadb_ha_operator.Kube.{StatefulSet}
use mariadb_ha_operator.World.{Error, not_found, Result, ok, err, Env, State}
use mariadb_ha_operator.World.Calls.{fetch_stateful_set}
use mariadb_ha_operator.World.Outcome.{Outcome, failed, requeue_now}
use mariadb_ha_operator.World.Keeps.Calls.{
  Keeps-set_controller_reference, Keeps-create, Keeps-update, Keeps-fetch_stateful_set,
}
use mariadb_ha_operator.World.Answers.{Answered}
use mariadb_ha_operator.World.Ensures.{
  Ensures, Leaves, Leaves-function, Ensures-bind, Ensures-return, Ensures-if, Ensures-check,
}
use mariadb_ha_operator.World.Ask.{
  Holds, Holds-stable, proceeds, Ensures-ask, Ensures-unwrap, Ensures-recall,
}
use mariadb_ha_operator.Names.{instance_name}
use mariadb_ha_operator.StatefulSets.{
  create_stateful_set, update_stateful_set, instance_stateful_set, reconcile_instance_stateful_set,
}
use mariadb_ha_operator.StatefulSets.Build.{instance_config, build_stateful_set, needs_update}
use mariadb_ha_operator.StatefulSets.Keeps.{create_or_update_config_map-Keeps}

-- The StatefulSet was found, and needsUpdate has nothing against it.
pub record IsUpToDate (env : Env) (is_primary : Bool) (ha : MariaDbHa) : Type 0 where
  pub found : StatefulSet
  pub desired : StatefulSet
  pub config_map : String
  pub read : Answered (fetch_stateful_set env (instance_name ha.name is_primary)) (ok found)
  pub built :
      build_stateful_set env.parse_quantity ha is_primary
        (instance_config ha.spec.instances is_primary)
        config_map
      ≡ ok desired
  pub same : needs_update found desired ≡ false

module _ (env : Env) (p : Bool) (ha : MariaDbHa) where
  abbrev pub Ready : Outcome → State → Type 0
  Ready o s = (proceeds o ≡ true → IsUpToDate env p ha) × Holds ha s

  stops : (o : Outcome) → proceeds o ≡ false → (s : State) → Holds ha s → Ready o s
  stops o e s w = ((λ y. cc), w)

  stops_check : (e : Error) (s : State) → Holds ha s → Ready (failed e) s
  stops_check e = stops (failed e) refl

  create_stateful_set-Ready :
      (ic : InstanceConfig) (merged : MariaDbConfig)
      → Ensures (Holds ha) Ready Ready (create_stateful_set env p ic merged)
  unfolding create_stateful_set
  create_stateful_set-Ready ic merged =
      let stable = Holds-stable ha in
      Ensures-ask _ _ (create_or_update_config_map-Keeps env stable p merged) (λ made here.
        Ensures-unwrap made _ stops_check (λ cm e. Ensures-recall _ _ (
          Ensures-unwrap _ _ stops_check (λ sts built.
            Ensures-ask _ _ (Keeps-set_controller_reference env _ stable) (λ o asked.
              Ensures-bind _ _ (Ensures-check o stops_check) (λ _.
                Ensures-ask _ _ (Keeps-create env _ stable) (λ o' asked'.
                  Ensures-bind _ _ (Ensures-check o' stops_check)
                    (λ _. Ensures-return _ (stops requeue_now refl)))))))))

  update_stateful_set-Ready :
      (merged : MariaDbConfig) (found : StatefulSet)
      → Answered (fetch_stateful_set env (instance_name ha.name p)) (ok found)
      → Ensures
          (Holds ha)
          Ready
          Ready
          (update_stateful_set env p (instance_config ha.spec.instances p) merged found)
  unfolding update_stateful_set
  update_stateful_set-Ready merged found read =
      let stable = Holds-stable ha in
      Ensures-ask _ _ (create_or_update_config_map-Keeps env stable p merged) (λ made here.
        Ensures-unwrap made _ stops_check (λ cm e. Ensures-recall _ _ (
          Ensures-unwrap _ _ stops_check (λ desired built.
            Ensures-if (needs_update found desired) _ _
              (λ differs. Ensures-ask _ _ (Keeps-update env _ stable) (λ o asked.
                Ensures-bind _ _ (Ensures-check o stops_check)
                  (λ _. Ensures-return _ (stops requeue_now refl))))
              (λ same. Ensures-return _ (λ s w. (
                (λ y. record {
                  found = found;
                  desired = desired;
                  config_map = cm.name;
                  read = read;
                  built = built;
                  same = same;
                }),
                w,
              )))))))

  instance_stateful_set-Ready :
      (merged : MariaDbConfig) (answer : Result StatefulSet)
      → Answered (fetch_stateful_set env (instance_name ha.name p)) answer
      → Ensures
          (Holds ha)
          Ready
          Ready
          (instance_stateful_set env p (instance_config ha.spec.instances p) merged answer)
  unfolding instance_stateful_set
  instance_stateful_set-Ready merged (err not_found) read = create_stateful_set-Ready _ merged
  instance_stateful_set-Ready merged (err e) read = Ensures-return _ (stops_check e)
  instance_stateful_set-Ready merged (ok found) read = update_stateful_set-Ready merged found read

  pub reconcile_instance_stateful_set-Ready :
      Leaves (Holds ha) Ready (reconcile_instance_stateful_set env p)
  unfolding reconcile_instance_stateful_set
  reconcile_instance_stateful_set-Ready = Leaves-function _ (
      Ensures-recall _ _ (
        Ensures-ask _ _ (Keeps-fetch_stateful_set env _ (Holds-stable ha))
          (λ answer read. instance_stateful_set-Ready _ answer read)))
