-- ===== src/Health/Keeps.antt =====
-- The health checks write the conditions and the failure counters of the MariaDBHA, and no more.
use mariadb_ha_operator.Base.{String, ℤ, Bool}
use mariadb_ha_operator.Api.{Condition}
use mariadb_ha_operator.World.Sql.{MariaDbConnectionInfo}
use mariadb_ha_operator.World.{Env, State, return, modify, call, ◌>>◌, ◌>>=◌}
use mariadb_ha_operator.World.Calls.{update_status}
use mariadb_ha_operator.World.Frame.{Frame}
use mariadb_ha_operator.World.Keeps.{
  Keeps, Keeps-function, Keeps-bind, Keeps-gets, Keeps-if, Keeps-return, Keeps-call,
}
use mariadb_ha_operator.World.Keeps.Calls.{IsStable, call_rules, Keeps-dial, Keeps-read_clock}
use mariadb_ha_operator.Health.Connection.{get_connection_info, check_tcp_connection}
use mariadb_ha_operator.Sessions.{Sessions}
use mariadb_ha_operator.Health.Conditions.{is_current, status_of_bool, set_condition}
use mariadb_ha_operator.Health.Counters.{save_failure_count}
use mariadb_ha_operator.Health.Checks.{
  execute_health_checks, update_condition, check_instance_health, perform_complete_health_check,
}

module _ {P : State → Type 0} (env : Env) (stable : IsStable P) where
  pub get_connection_info-Keeps : (p : Bool) → Keeps P (get_connection_info env p)
  unfolding get_connection_info
  get_connection_info-Keeps p = search call_rules depth 30

  pub check_tcp_connection-Keeps :
      (i : MariaDbConnectionInfo) (t : ℤ) → Keeps P (check_tcp_connection env i t)
  unfolding check_tcp_connection
  check_tcp_connection-Keeps i t = Keeps-dial env i.host i.port t stable

  pub execute_health_checks-Keeps :
      Sessions env P → (p : Bool) → Keeps P (execute_health_checks env p)
  unfolding execute_health_checks
  execute_health_checks-Keeps sessions p =
      let answers = sessions.check_sql_connection in
      let status = sessions.check_replication_status in
      search (call_rules, get_connection_info-Keeps, check_tcp_connection-Keeps, answers, status)
        depth 30

module _ {P : State → Type 0} (env : Env) (frame : Frame env P) where
  pub set_condition-Keeps :
      (c : Condition) (s : State) → P s → P (record s { ha = set_condition c s.ha })
  unfolding set_condition
  set_condition-Keeps c s h = frame.conditions _ s h

  store_condition-Keeps :
      (c : Condition)
      → Keeps P (
          modify {R = Unit {0}} (set_condition c)
          >> (call (update_status env) >>= λ _. return {A = Unit {0}} tt))
  store_condition-Keeps c =
      let status = frame.status in search (call_rules, set_condition-Keeps, status) depth 30

  pub update_condition-Keeps :
      (kind : String) (holds : Bool) (reason message : String)
      → Keeps P (update_condition env kind holds reason message)
  unfolding update_condition
  update_condition-Keeps kind holds reason message = Keeps-function _ (
      Keeps-bind _ _ (Keeps-gets _) (λ conditions.
        Keeps-if (is_current kind (status_of_bool holds) conditions) _ _ (λ _. Keeps-return tt)
          (λ _. Keeps-bind _ _ (Keeps-call _ (Keeps-read_clock env frame.stable)) (λ now.
            store_condition-Keeps (record {
              kind = kind;
              status = status_of_bool holds;
              reason = reason;
              message = message;
              last_transition_time = now;
            })))))

  pub check_instance_health-Keeps : (p : Bool) → Keeps P (check_instance_health env p)
  unfolding check_instance_health
  check_instance_health-Keeps p =
      let stable = frame.stable in
      let exec = execute_health_checks-Keeps env stable frame.sessions in
      search (call_rules, exec, update_condition-Keeps) depth 30

  save_failure_count-Keeps :
      (p : Bool) (n : ℤ) (s : State) → P s → P (record s { ha = save_failure_count p n s.ha })
  unfolding save_failure_count
  save_failure_count-Keeps p n s h = frame.annotations _ s h

  pub perform_complete_health_check-Keeps : Keeps P (perform_complete_health_check env)
  unfolding perform_complete_health_check
  perform_complete_health_check-Keeps =
      search
        (call_rules, check_instance_health-Keeps, update_condition-Keeps, save_failure_count-Keeps)
        depth 40
