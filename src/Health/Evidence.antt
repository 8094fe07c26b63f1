-- ===== src/Health/Evidence.antt =====
-- What an instance in good health has answered.
use mariadb_ha_operator.Base.{
  ◌≡◌, refl, ap, subst, ℤ, pos, ◌*ℤ◌, Bool, true, false, none, if◌then◌else◌, int_eq, int_beq_iff,
}
use mariadb_ha_operator.Api.{MariaDbHa}
use mariadb_ha_operator.World.Sql.{MariaDbConnectionInfo, Rows, select_one}
use mariadb_ha_operator.World.{Result, ok, err, Env, State, ◌>>=◌, return, call}
use mariadb_ha_operator.World.Calls.{sql_open, sql_ping, sql_query}
use mariadb_ha_operator.World.Answers.{
  Answers, Returns, Answered, Returns-answered, Answers-return, Answers-if, Answers-bind,
  Answers-call, Answers-any_call, Answers-gets, Answers-on_some, Answers-on_result, Answers-pass,
  Returns-function, Returns-deferring,
}
use mariadb_ha_operator.Health.Connection.{
  get_connection_info, check_tcp_connection, check_sql_connection, scan_int, is_one,
}
use mariadb_ha_operator.Health.Replication.{ReplicationStatus, check_replication_status}
use mariadb_ha_operator.Health.Checks.{
  Checked, checked, require, replication_checked, or_default, execute_health_checks,
  check_instance_health,
}

-- The server has taken a handle, answered a ping and answered `SELECT 1` with 1.
pub record AnswersSql (env : Env) (info : MariaDbConnectionInfo) : Type 0 where
  pub opened : Answered (sql_open env info) none
  pub pinged : Answered (sql_ping env info) none
  pub selected :
      (rows : Result Rows) × Answered (sql_query env info select_one) rows
      × (scan_int rows ≡ ok (pos 1))

-- The instance's pod and credentials were found, its port took a connection, and its server answered.
-- The replication status of a secondary was read.
pub record IsAlive (env : Env) (is_primary : Bool) : Type 0 where
  pub info : MariaDbConnectionInfo
  pub found : Answered (get_connection_info env is_primary) (ok info)
  pub timeout : ℤ
  pub reached : Answered (check_tcp_connection env info timeout) true
  pub sql : AnswersSql env info
  pub replication :
      is_primary ≡ false
      → (status : ReplicationStatus) × Answered (check_replication_status env info) (ok status)

is_one_lem : (r : Result ℤ) → is_one r ≡ true → r ≡ ok (pos 1)
unfolding is_one
is_one_lem (ok n) e = ap ok ((int_beq_iff n (pos 1)).0 e)
is_one_lem (err x) e = cc

module _ (env : Env) where
  check_sql_connection-AnswersSql :
      (info : MariaDbConnectionInfo)
      → Returns (λ b. b ≡ true → AnswersSql env info) (check_sql_connection env info)
  unfolding check_sql_connection
  check_sql_connection-AnswersSql info = Returns-function _ (
      Answers-bind _ _ (Answers-call _ (Returns-answered (sql_open env info))) (λ o taken.
        Answers-on_some o _ _ (λ e h. Answers-return _ (λ y. cc))
          (λ opened. Answers-call _ (
            Returns-deferring _ _ (
              Returns-function _ (
                Answers-bind _ _ (Answers-call _ (Returns-answered (sql_ping env info))) (λ q heard.
                  Answers-on_some q _ _ (λ e h. Answers-return _ (λ y. cc))
                    (λ pinged.
                      Answers-bind _ _
                        (Answers-call _ (Returns-answered (sql_query env info select_one)))
                        (λ rows read. Answers-return _ (λ y. record {
                          opened = subst (Answered (sql_open env info)) opened taken;
                          pinged = subst (Answered (sql_ping env info)) pinged heard;
                          selected = (rows, read, is_one_lem _ y);
                        }))))))))))

abbrev timeout_of : MariaDbHa → ℤ
timeout_of ha =
    or_default ha.spec.failover.failure_detection.timeout_seconds (pos 2) *ℤ pos 1000000000

module _ (env : Env) (p : Bool) where
  -- If the check says so without an error, the instance is alive.
  abbrev Sound : Checked → Type 0
  Sound c = c.healthy ≡ true → c.error ≡ none → IsAlive env p

  require-Sound : (b : Bool) → Answers Sound (λ _. b ≡ true) (require b)
  require-Sound b = Answers-if b _ _ (λ e. Answers-pass e) (λ e. Answers-return _ (λ y _. cc))

  read-status :
      (max : ℤ) (r : Result ReplicationStatus)
      → (replication_checked max r).error ≡ none
      → (status : ReplicationStatus) × (r ≡ ok status)
  unfolding replication_checked
  read-status max (ok status) e = (status, refl)
  read-status max (err x) e = cc

  -- The end for a primary, and for a secondary.
  ended-Sound :
      (info : MariaDbConnectionInfo) (max : ℤ)
      → ((p ≡ false
            → (status : ReplicationStatus) × Answered
                (check_replication_status env info)
                (ok status))
          → IsAlive env p)
      → Answers Sound Sound (
          if p
          then return (checked true none none)
          else (call (check_replication_status env info) >>= λ status.
              return (replication_checked max status)))
  ended-Sound info max alive =
      Answers-if p _ _ (λ primary. Answers-return _ (λ y _. alive (λ secondary. absurd cc)))
        (λ _.
          Answers-bind _ _ (Answers-call _ (Returns-answered (check_replication_status env info)))
            (λ status asked. Answers-return _ (λ y unerring.
              let (read, e) = read-status max status unerring in
              alive (λ _. (read, subst (Answered (check_replication_status env info)) e asked)))))

  execute_health_checks-Sound : Returns Sound (execute_health_checks env p)
  unfolding execute_health_checks
  execute_health_checks-Sound = Returns-function _ (
      Answers-bind _ _ (Answers-gets _) (λ ha read.
        Answers-bind _ _ (Answers-call _ (Returns-answered (get_connection_info env p)))
          (λ found here.
            Answers-on_result found _ _ (λ e h. Answers-return _ (λ y _. cc))
              (λ info e.
                Answers-bind _ _
                  (Answers-call _
                    (Returns-answered (check_tcp_connection env info (timeout_of ha))))
                  (λ connects reached. Answers-bind _ _ (require-Sound connects) (λ _ up.
                    Answers-bind _ _ (Answers-call _ (check_sql_connection-AnswersSql env info))
                      (λ answering answers. Answers-bind _ _ (require-Sound answering) (λ _ well.
                        ended-Sound info _ (λ replicates. record {
                          info = info;
                          found = subst (Answered (get_connection_info env p)) e here;
                          timeout = timeout_of ha;
                          reached =
                              subst (Answered (check_tcp_connection env info (timeout_of ha))) up
                                reached;
                          sql = answers well;
                          replication = replicates;
                        })))))))))

  -- checkInstanceHealth gives no error, and an unhealthy instance for one of executeHealthChecks.
  check_instance_health-Sound :
      Returns (λ c. c.healthy ≡ true → IsAlive env p) (check_instance_health env p)
  unfolding check_instance_health
  check_instance_health-Sound = Returns-function _ (
      Answers-bind _ _ (Answers-call _ execute_health_checks-Sound) (λ c sound.
        Answers-on_some c.error _ _ (λ e h. Answers-return _ (λ y. cc))
          (λ h.
            Answers-bind _ _ (Answers-any_call _) (λ _ told. Answers-return _ (λ y. sound y h)))))

-- checkInstanceHealth reports an instance as healthy only if its pod and its credentials were found,
-- its port took a TCP connection, and its server took a handle, answered the ping and answered
-- `SELECT 1` with 1, and for the secondary only if its replication status was read, too. This is so
-- whatever else the API server, the servers and the network answer.
pub check_instance_health-IsAlive :
    (env : Env) (is_primary : Bool) (s : State)
    → (check_instance_health env is_primary s).0.healthy ≡ true
    → IsAlive env is_primary
check_instance_health-IsAlive env p s healthy = (check_instance_health-Sound env p).at s healthy
