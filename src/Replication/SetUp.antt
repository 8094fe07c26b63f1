-- ===== src/Replication/SetUp.antt =====
-- What has happened when the whole of `setupReplication` returns no error.
use mariadb_ha_operator.Base.{◌≡◌, ◌≢◌, subst, Option, none, ◌==◌, string_eq}
use mariadb_ha_operator.StringMap.{get}
use mariadb_ha_operator.Api.{MariaDbHa}
use mariadb_ha_operator.Kube.{Secret}
use mariadb_ha_operator.World.Sql.{MariaDbConnectionInfo}
use mariadb_ha_operator.World.{Error, ok, Env, State, function, ◌>>=◌, gets}
use mariadb_ha_operator.World.Calls.{fetch_secret}
use mariadb_ha_operator.World.Answers.{
  Returns, Answered, Returns-answered, Answers-return, Answers-if, Answers-bind, Answers-call,
  Answers-any_call, Answers-on_result, Returns-function, Returns-deferring, Returns-weaken,
}
use mariadb_ha_operator.Config.{replication_user}
use mariadb_ha_operator.Replication.{common_secret_name, setup_for, setup_replication}
use mariadb_ha_operator.Replication.Started.{
  Replicates, check_wrapped-any, replicate_from-Replicates,
}

-- The replication follows the primary, with a password that the common secret holds.
pub record IsSetUp (env : Env) (primary secondary : MariaDbConnectionInfo) (ha : MariaDbHa)
    : Type 0 where
  pub secret : Secret
  pub fetched : Answered (fetch_secret env (common_secret_name ha)) (ok secret)
  pub has_password : get secret.contents "MARIADB_REPLICATION_PASSWORD" ≢ ""
  pub replicates :
      Replicates env primary secondary
        (replication_user ha)
        (get secret.contents "MARIADB_REPLICATION_PASSWORD")

module _ (env : Env) (primary secondary : MariaDbConnectionInfo) (ha : MariaDbHa) where
  abbrev Done : Option Error → Type 0
  Done refused = refused ≡ none → IsSetUp env primary secondary ha

  setup_for-Done : Returns Done (function (setup_for env primary secondary ha))
  unfolding setup_for
  setup_for-Done = Returns-function _ (
      Answers-if (common_secret_name ha == "") _ _ (λ y. Answers-return _ (λ z. cc))
        (λ y.
          Answers-bind _ _
            (Answers-call _ (Returns-answered (fetch_secret env (common_secret_name ha))))
            (λ answer got.
              Answers-on_result answer _ _ (λ e h. Answers-return _ (λ z. cc))
                (λ secret h.
                  Answers-if (get secret.contents "MARIADB_REPLICATION_PASSWORD" == "") _ _
                    (λ z. Answers-return _ (λ z. cc))
                    (λ filled. Answers-bind _ _ (Answers-any_call _) (λ o joined.
                      Answers-bind _ _ (check_wrapped-any env primary secondary o _) (λ _ there.
                        Answers-call _ (
                          Returns-deferring _ _ (
                            Returns-weaken _
                              (λ e f z. record {
                                secret = secret;
                                fetched =
                                    subst (Answered (fetch_secret env (common_secret_name ha))) h
                                      got;
                                has_password = λ empty. cc;
                                replicates = f z;
                              })
                              (replicate_from-Replicates env primary secondary _ _))))))))))

-- setupReplication returns no error only if the common secret was read and holds a replication
-- password that is not empty, the primary has shown a binlog position, and the secondary has taken
-- CHANGE MASTER TO with the primary's address, the replication user, that password and that position,
-- and has started its replication, whatever else the API server and the servers answer.
pub setup_replication-IsSetUp :
    (env : Env) (primary secondary : MariaDbConnectionInfo) (s : State)
    → (setup_replication env primary secondary s).0 ≡ none
    → IsSetUp env primary secondary s.ha
unfolding setup_replication function ◌>>=◌ gets
setup_replication-IsSetUp env primary secondary s h =
    (setup_for-Done env primary secondary s.ha).at s h
