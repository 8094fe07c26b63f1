-- ===== src/Failover/Justified.antt =====
-- A failover takes over only for a secondary that has passed its health check.
use mariadb_ha_operator.Base.{none, ◌≡◌, ◌≢◌, refl, sym, subst, true, false, arith}
use mariadb_ha_operator.World.{Env, State}
use mariadb_ha_operator.World.Outcome.{Outcome, requeue_in}
use mariadb_ha_operator.World.Answers.{
  Returns, Answered, Returns-answered, Answers-return, Answers-if, Answers-bind, Answers-call,
  Answers-any_call, Answers-modify, Answers-sure, Returns-function,
}
use mariadb_ha_operator.Health.Checks.{Checked, check_instance_health}
use mariadb_ha_operator.Health.Evidence.{IsAlive, check_instance_health-IsAlive}
use mariadb_ha_operator.Failover.{handle_failover, is_fit}

is_fit-healthy : (c : Checked) → is_fit c ≡ true → c.healthy ≡ true
is_fit-healthy c e = ground arith

is_fit-unerring : (c : Checked) → is_fit c ≡ true → c.error ≡ none
is_fit-unerring c e = ground arith

-- The health check of the secondary was passed: it gave no error and a healthy instance, with all that
-- this takes.
pub record IsFit (env : Env) : Type 0 where
  pub verdict : Checked
  pub given : Answered (check_instance_health env false) verdict
  pub unerring : verdict.error ≡ none
  pub healthy : verdict.healthy ≡ true
  pub alive : IsAlive env false

module _ (env : Env) where
  abbrev Justified : Outcome → Type 0
  Justified o = o ≢ requeue_in 30 → IsFit env

  passed :
      (c : Checked) → Answered (check_instance_health env false) c → is_fit c ≡ true → IsFit env
  passed c (s, e) fit = record {
    verdict = c;
    given = (s, e);
    unerring = is_fit-unerring c fit;
    healthy = is_fit-healthy c fit;
    alive =
        check_instance_health-IsAlive env false s
          (subst (λ (x : Checked). x.healthy ≡ true) (sym e) (is_fit-healthy c fit));
  }

  handle_failover-Justified : Returns Justified (handle_failover env)
  unfolding handle_failover
  handle_failover-Justified = Returns-function _ (
      Answers-bind _ _ (Answers-any_call _) (λ start read.
        Answers-bind _ _ (Answers-call _ (Returns-answered (check_instance_health env false)))
          (λ c checked.
            Answers-if (is_fit c) _ _
              (λ fit.
                let proof = passed c checked fit in Answers-sure _ (λ o y. proof) (λ o y. proof))
              (λ unfit. Answers-bind _ _ (Answers-any_call _) (λ _ told.
                Answers-bind _ _ (Answers-modify _) (λ _ changed.
                  Answers-bind _ _ (Answers-any_call _)
                    (λ _ written. Answers-return _ (λ y. absurd (y refl)))))))))

-- If handleFailover returns anything but the wait of thirty seconds with which it gives up, the
-- secondary has passed its health check: checkInstanceHealth has reported it as healthy and without
-- an error, so that its pod and its credentials were found, its port took a connection, its server
-- answered and its replication status was read. This is so whatever else the API server, the servers
-- and the network answer.
pub handle_failover-IsFit :
    (env : Env) (s : State) → (handle_failover env s).0 ≢ requeue_in 30 → IsFit env
handle_failover-IsFit env s = (handle_failover-Justified env).at s
