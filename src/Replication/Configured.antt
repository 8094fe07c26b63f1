-- ===== src/Replication/Configured.antt =====
-- `reconcileReplication` as a whole: what holds when it asks for nothing more.
use mariadb_ha_operator.Base.{
  ◌≡◌, ◌<◌, ℕ, refl, ap, ◌∙◌, subst, ◌⊎◌, inl, inr, Bool, true, false, ◌&&◌, Option, none, arith,
}
use mariadb_ha_operator.Api.{MariaDbHa}
use mariadb_ha_operator.World.Sql.{MariaDbConnectionInfo}
use mariadb_ha_operator.World.{Error, ok, Env, State}
use mariadb_ha_operator.World.Outcome.{Outcome, done, failed, no_requeue, requeue_in}
use mariadb_ha_operator.World.Keeps.Calls.{Keeps-emit}
use mariadb_ha_operator.World.Answers.{Answered}
use mariadb_ha_operator.World.Ensures.{
  Ensures, Leaves, Leaves-function, Ensures-bind, Ensures-keep, Ensures-return, Ensures-if,
  Ensures-call, Ensures-known,
}
use mariadb_ha_operator.World.Ask.{
  Holds, Holds-stable, Ensures-ask, Ensures-unwrap, Ensures-recall, Ensures-on_ok, Ensures-on_error,
  Ensures-sure,
}
use mariadb_ha_operator.Health.Connection.{get_connection_info}
use mariadb_ha_operator.Health.Conditions.{is_configured}
use mariadb_ha_operator.Health.Keeps.{get_connection_info-Keeps}
use mariadb_ha_operator.StatefulSets.{is_stateful_set_ready}
use mariadb_ha_operator.StatefulSets.Keeps.{is_stateful_set_ready-Keeps}
use mariadb_ha_operator.Replication.{setup_replication}
use mariadb_ha_operator.Replication.SetUp.{IsSetUp, setup_replication-IsSetUp}
use mariadb_ha_operator.Replication.Reconcile.{configure_replication, reconcile_replication}

-- This call has set the replication up, between the servers of the two pods.
pub record SetUpNow (env : Env) (ha : MariaDbHa) : Type 0 where
  pub primary : MariaDbConnectionInfo
  pub primary_found : Answered (get_connection_info env true) (ok primary)
  pub secondary : MariaDbConnectionInfo
  pub secondary_found : Answered (get_connection_info env false) (ok secondary)
  pub set_up : IsSetUp env primary secondary ha

pub record IsReplicated (env : Env) (ha : MariaDbHa) : Type 0 where
  pub primary_ready : Answered (is_stateful_set_ready env true) (ok true)
  pub secondary_ready : Answered (is_stateful_set_ready env false) (ok true)
  pub configured : (is_configured ha.status.conditions ≡ true) ⊎ SetUpNow env ha

abbrev pub delay : Outcome → ℕ
delay (done r) = r.requeue_after
delay (failed e) = 0

left : (a b : Bool) → (a && b) ≡ true → a ≡ true
left true b e = refl
left false b e = cc

right : (a b : Bool) → (a && b) ≡ true → b ≡ true
right true b e = e
right false b e = cc

module _ (env : Env) (ha : MariaDbHa) where
  abbrev Q : Outcome → State → Type 0
  Q o s = o ≡ no_requeue → IsReplicated env ha

  fails : (P : State → Type 0) (e : Error) (s : State) → P s → Q (failed e) s
  fails P e s w y = cc

  waits : (P : State → Type 0) (n : ℕ) → 0 < n → (s : State) → P s → Q (requeue_in n) s
  waits P n some_time s w y = let same = ap delay y in absurd (omega arith)

  setup_replication-Leaves :
      (primary secondary : MariaDbConnectionInfo)
      → Leaves
          (Holds ha)
          (λ (o : Option Error) (s : State). (o ≡ none → IsSetUp env primary secondary ha))
          (setup_replication env primary secondary)
  setup_replication-Leaves primary secondary = record {
    at = λ s w h.
        subst (IsSetUp env primary secondary) w.same
          (setup_replication-IsSetUp env primary secondary s h);
  }

  configure_replication-Q :
      (SetUpNow env ha → IsReplicated env ha) → Ensures (Holds ha) Q Q (configure_replication env)
  unfolding configure_replication
  configure_replication-Q k =
      let info = get_connection_info-Keeps env (Holds-stable ha) in
      Ensures-ask _ _ (info true) (λ p found.
        Ensures-on_ok p _ _ (λ e h. Ensures-return _ (waits _ 30 (omega arith)))
          (λ primary h. Ensures-ask _ _ (info false) (λ q found'.
            Ensures-on_ok q _ _ (λ e h. Ensures-return _ (waits _ 30 (omega arith)))
              (λ secondary h'.
                Ensures-bind {W = λ o s. o ≡ none → IsSetUp env primary secondary ha} _ _
                  (Ensures-call _ (setup_replication-Leaves primary secondary))
                  (λ o.
                    Ensures-known (o ≡ none → IsSetUp env primary secondary ha) _ (λ s. Unit {0}) _
                      (λ s w. (w, tt))
                      (λ told.
                        Ensures-on_error o _ _
                          (λ e some_error.
                            Ensures-bind _ _
                              (Ensures-keep _ (Keeps-emit _ _ (record { after = λ c q s w. tt })))
                              (λ _. Ensures-return _ (waits _ 30 (omega arith))))
                          (λ accepted.
                            let now : SetUpNow env ha = record {
                              primary = primary;
                              primary_found =
                                  subst (Answered (get_connection_info env true)) h found;
                              secondary = secondary;
                              secondary_found =
                                  subst (Answered (get_connection_info env false)) h' found';
                              set_up = told accepted;
                            } in
                            Ensures-sure _ (λ r s y. k now) (λ r s y. k now))))))))

  reconcile_replication-Q : Leaves (Holds ha) Q (reconcile_replication env)
  unfolding reconcile_replication
  reconcile_replication-Q =
      let ready = is_stateful_set_ready-Keeps env (Holds-stable ha) in
      Leaves-function _ (
        Ensures-ask _ _ (ready true) (λ p asked. Ensures-unwrap p _ (fails _) (λ a h.
          Ensures-ask _ _ (ready false) (λ q asked'. Ensures-unwrap q _ (fails _) (λ b h'.
            Ensures-if (a && b) _ _
              (λ both.
                let found : (x : (is_configured ha.status.conditions ≡ true) ⊎ SetUpNow env ha)
                    → IsReplicated env ha =
                  λ x. record {
                    primary_ready =
                        subst (Answered (is_stateful_set_ready env true))
                          (h ∙ ap ok (left a b both)) asked;
                    secondary_ready =
                        subst (Answered (is_stateful_set_ready env false))
                          (h' ∙ ap ok (right a b both)) asked';
                    configured = x;
                  } in
                Ensures-recall _ _ (
                  Ensures-if (is_configured ha.status.conditions) _ _
                    (λ e. Ensures-return _ (λ s w y. found (inl e)))
                    (λ e. configure_replication-Q (λ now. found (inr now)))))
              (λ e. Ensures-return _ (waits _ 10 (omega arith))))))))

-- reconcileReplication returns with neither an error nor a requeue only if both StatefulSets were
-- found ready, and either the object already has the condition that the replication is active, or
-- this call has set the replication up between the servers of the two pods: the common secret holds a
-- replication password, and the secondary has taken the primary's address and binlog position and has
-- started. This is so whatever else the API server and the servers answer.
pub reconcile_replication-IsReplicated :
    (env : Env) (s : State) → (reconcile_replication env s).0 ≡ no_requeue → IsReplicated env s.ha
reconcile_replication-IsReplicated env s =
    (reconcile_replication-Q env s.ha).at s (record { same = refl })
