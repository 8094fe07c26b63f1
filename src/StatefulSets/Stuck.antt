-- ===== src/StatefulSets/Stuck.antt =====
-- What the update that never ends does to a reconciliation.
use mariadb_ha_operator.Base.{◌≡◌, refl, String, Bool, true, none, ◌≢◌, All}
use mariadb_ha_operator.Api.{MariaDbConfig, InstanceConfig}
use mariadb_ha_operator.Kube.{StatefulSet}
use mariadb_ha_operator.World.{
  not_found, Result, ok, err, Env, History, ObjectKey, State, exit, return,
}
use mariadb_ha_operator.World.Calls.{fetch_stateful_set}
use mariadb_ha_operator.World.Outcome.{Outcome, done, failed, requeue_now, proceed}
use mariadb_ha_operator.World.Answers.{
  Answers, Returns, Answers-return, Answers-if, Answers-bind, Returns-function, Answers-gets,
  Answers-any_call, Answers-call, Answers-check, Answers-unwrap,
}
use mariadb_ha_operator.StatefulSets.{
  instance_stateful_set, reconcile_instance_stateful_set, create_stateful_set, update_stateful_set,
}
use mariadb_ha_operator.StatefulSets.Build.{needs_update}
use mariadb_ha_operator.StatefulSets.Updates.{needs_update-filled}

-- Reconcile leaves the other steps out: the call has failed, or asks to be repeated at once.
abbrev pub Stops : Outcome → Type 0
Stops (failed e) = Unit
Stops (done r) = r.requeue ≡ true

-- Each StatefulSet that the API server returns has a file mode for its volumes, as the server's
-- defaulting of `defaultMode` has it.
pub record FillsModes (env : Env) : Type 0 where
  pub modes :
      (h : History) (k : ObjectKey) (found : StatefulSet)
      → env.get_stateful_set h k ≡ ok found
      → All (λ v. v.default_mode ≢ none) found.template.volumes

module _ (env : Env) where
  create_stateful_set-Stops :
      (p : Bool) (ic : InstanceConfig) (merged : MariaDbConfig)
      → Answers Stops Stops (create_stateful_set env p ic merged)
  unfolding create_stateful_set
  create_stateful_set-Stops p ic merged = Answers-bind _ _ (Answers-any_call _) (λ made _.
      Answers-bind _ _ (Answers-unwrap made (λ e. tt)) (λ cm _.
        Answers-bind _ _ (Answers-gets _) (λ ha _.
          Answers-bind _ _ (Answers-unwrap _ (λ e. tt)) (λ sts _.
            Answers-bind _ _ (Answers-any_call _) (λ e _.
              Answers-bind _ _ (Answers-check e (λ e. tt)) (λ _ _.
                Answers-bind _ _ (Answers-any_call _) (λ e' _.
                  Answers-bind _ _ (Answers-check e' (λ e. tt))
                    (λ _ _. Answers-return requeue_now refl))))))))

  update_stateful_set-Stops :
      (p : Bool) (ic : InstanceConfig) (merged : MariaDbConfig) (found : StatefulSet)
      → All (λ v. v.default_mode ≢ none) found.template.volumes
      → Answers Stops Stops (update_stateful_set env p ic merged found)
  unfolding update_stateful_set
  update_stateful_set-Stops p ic merged found filled =
      Answers-bind _ _ (Answers-any_call _) (λ made _.
        Answers-bind _ _ (Answers-unwrap made (λ e. tt)) (λ cm _.
          Answers-bind _ _ (Answers-gets _) (λ ha _.
            Answers-bind _ _ (Answers-unwrap _ (λ e. tt)) (λ desired built.
              Answers-if (needs_update found desired) _ _
                (λ _. Answers-bind _ _ (Answers-any_call _) (λ e _.
                  Answers-bind _ _ (Answers-check e (λ e. tt))
                    (λ _ _. Answers-return requeue_now refl)))
                (λ up_to_date.
                  let again : needs_update found desired ≡ true =
                    needs_update-filled env.parse_quantity ha p ic cm.name found desired built
                      filled in
                  absurd cc)))))

  module _ (fills : FillsModes env) where
    abbrev Filled : Result StatefulSet → Type 0
    Filled r =
        (found : StatefulSet)
        → r ≡ ok found
        → All (λ v. v.default_mode ≢ none) found.template.volumes

    instance_stateful_set-Stops :
        (p : Bool) (ic : InstanceConfig) (merged : MariaDbConfig) (r : Result StatefulSet)
        → Filled r
        → Answers Stops Stops (instance_stateful_set env p ic merged r)
    unfolding instance_stateful_set
    instance_stateful_set-Stops p ic merged (err not_found) filled =
        create_stateful_set-Stops p ic merged
    instance_stateful_set-Stops p ic merged (err e) filled = Answers-return (failed e) tt
    instance_stateful_set-Stops p ic merged (ok found) filled =
        update_stateful_set-Stops p ic merged found (filled found refl)

    fetch_stateful_set-Filled : (n : String) → Returns Filled (fetch_stateful_set env n)
    unfolding fetch_stateful_set
    fetch_stateful_set-Filled n = record { at = λ s found e. fills.modes s.history _ found e }

    pub reconcile_instance_stateful_set-Stops :
        (p : Bool) → Returns Stops (reconcile_instance_stateful_set env p)
    unfolding reconcile_instance_stateful_set
    reconcile_instance_stateful_set-Stops p = Returns-function _ (
        Answers-bind _ _ (Answers-gets _) (λ ha _.
          Answers-bind _ _ (Answers-call _ (fetch_stateful_set-Filled _))
            (λ r filled. instance_stateful_set-Stops p _ _ r filled)))

pub proceed-Stops : (o : Outcome) → Stops o → (s : State) → proceed o s ≡ (exit o, s)
unfolding proceed return
proceed-Stops (failed e) h s = refl
proceed-Stops (done r) h s = rw h refl
