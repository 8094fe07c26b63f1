-- ===== src/StatefulSets/Running.antt =====
-- `reconcileStatefulSets` as a whole: the two StatefulSets and the phase that it leaves.
use mariadb_ha_operator.Base.{◌≡◌, refl, ap, subst, ◌∙◌, Bool, true, false, ◌&&◌, if◌then◌else◌}
use mariadb_ha_operator.Api.{MariaDbHa, Phase, initializing, running, ◌is◌}
use mariadb_ha_operator.World.{Error, ok, Env, State}
use mariadb_ha_operator.World.Outcome.{Outcome, failed, no_requeue}
use mariadb_ha_operator.World.Laws.{StoresStatus}
use mariadb_ha_operator.World.InPhase.{IsIn, update_status-IsIn}
use mariadb_ha_operator.World.Answers.{Answered}
use mariadb_ha_operator.World.Ensures.{
  Ensures, Leaves, Leaves-function, Ensures-bind, Ensures-keep, Ensures-return, Ensures-if,
  Ensures-modify, Ensures-check,
}
use mariadb_ha_operator.World.Ask.{
  Holds, Holds-stable, proceeds, Ensures-ask, Ensures-told, Ensures-unwrap, Ensures-proceed,
  Ensures-recall,
}
use mariadb_ha_operator.StatefulSets.{is_stateful_set_ready, start_running, reconcile_stateful_sets}
use mariadb_ha_operator.StatefulSets.Keeps.{is_stateful_set_ready-Keeps}
use mariadb_ha_operator.StatefulSets.InOrder.{IsUpToDate, reconcile_instance_stateful_set-Ready}

-- The phase behind the two answers of isStatefulSetReady.
abbrev pub phase_behind : Bool → Bool → Phase → Phase
phase_behind primary_ready secondary_ready phase =
    if primary_ready && secondary_ready && phase is initializing then running else phase

pub record AreInOrder (env : Env) (ha : MariaDbHa) (s : State) : Type 0 where
  pub primary : IsUpToDate env true ha
  pub secondary : IsUpToDate env false ha
  pub primary_ready : Bool
  pub primary_asked : Answered (is_stateful_set_ready env true) (ok primary_ready)
  pub secondary_ready : Bool
  pub secondary_asked : Answered (is_stateful_set_ready env false) (ok secondary_ready)
  pub phase : s.ha.status.phase ≡ phase_behind primary_ready secondary_ready ha.status.phase

module _ (env : Env) (law : StoresStatus env) (ha : MariaDbHa) where
  abbrev pub Q : Outcome → State → Type 0
  Q o s = proceeds o ≡ true → AreInOrder env ha s

  fails : (P : State → Type 0) (e : Error) (s : State) → P s → Q (failed e) s
  fails P e s w y = cc

  start_running-Q :
      (a b : Bool)
      → ((s : State) → s.ha.status.phase ≡ phase_behind a b ha.status.phase → AreInOrder env ha s)
      → Ensures (Holds ha) Q Q (start_running env a b)
  unfolding start_running
  start_running-Q a b k = Ensures-recall _ _ (
      Ensures-if (a && b && ha.status.phase is initializing) _ _
        (λ e.
          Ensures-bind _ _ (Ensures-modify {P' = IsIn running} _ (λ s w. record { phase = refl }))
            (λ _. Ensures-bind _ _ (Ensures-keep _ (update_status-IsIn env law running)) (λ refused.
              Ensures-bind _ _ (Ensures-check refused (fails _))
                (λ _. Ensures-return _ (λ s w y. k s (w.phase ∙ rw e refl))))))
        (λ e. Ensures-return _ (λ s w y. k s (ap (λ h. h.status.phase) w.same ∙ rw e refl))))

  pub reconcile_stateful_sets-Q : Leaves (Holds ha) Q (reconcile_stateful_sets env)
  unfolding reconcile_stateful_sets
  reconcile_stateful_sets-Q =
      let ready = is_stateful_set_ready-Keeps env (Holds-stable ha) in
      Leaves-function _ (
        Ensures-told (λ o. proceeds o ≡ true → IsUpToDate env true ha) _ _
          (reconcile_instance_stateful_set-Ready env true ha)
          (λ o first.
            Ensures-proceed o _ (λ e s w y. cc)
              (λ e.
                Ensures-told (λ o. proceeds o ≡ true → IsUpToDate env false ha) _ _
                  (reconcile_instance_stateful_set-Ready env false ha)
                  (λ o' second.
                    Ensures-proceed o' _ (λ e' s w y. cc)
                      (λ e'. Ensures-ask _ _ (ready true) (λ p asked.
                        Ensures-unwrap p _ (fails _) (λ a h.
                          Ensures-ask _ _ (ready false) (λ q asked'.
                            Ensures-unwrap q _ (fails _) (λ b h'. start_running-Q a b (λ s phase.
                              record {
                                primary = first e;
                                secondary = second e';
                                primary_ready = a;
                                primary_asked =
                                    subst (Answered (is_stateful_set_ready env true)) h asked;
                                secondary_ready = b;
                                secondary_asked =
                                    subst (Answered (is_stateful_set_ready env false)) h' asked';
                                phase = phase;
                              }))))))))))

-- When reconcileStatefulSets returns with neither an error nor a requeue, both StatefulSets were found
-- and needsUpdate has nothing against them. Then the phase in memory is the one before, but for one
-- case: it is Running if it was Initializing and both StatefulSets were found ready. It is assumed that
-- the API server stores the status that it is sent.
pub reconcile_stateful_sets-AreInOrder :
    (env : Env)
    → StoresStatus env
    → (s : State) → (reconcile_stateful_sets env s).0 ≡ no_requeue
    → AreInOrder env s.ha (reconcile_stateful_sets env s).1
reconcile_stateful_sets-AreInOrder env law s e =
    (reconcile_stateful_sets-Q env law s.ha).at s (record { same = refl }) (ap proceeds e)
