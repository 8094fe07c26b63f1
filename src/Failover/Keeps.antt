-- ===== src/Failover/Keeps.antt =====
-- What the failover and the recovery write of the MariaDBHA: the health conditions, and the phases
-- and names that the premises of these lemmas list.
use mariadb_ha_operator.Base.{String, ℤ, Bool, true, false}
use mariadb_ha_operator.Api.{Time, failing, running}
use mariadb_ha_operator.World.Sql.{MariaDbConnectionInfo}
use mariadb_ha_operator.World.{Env, State, call, ◌>>=◌, ◌>>◌}
use mariadb_ha_operator.World.Calls.{update_status}
use mariadb_ha_operator.World.Frame.{Frame}
use mariadb_ha_operator.World.Keeps.{
  Keeps, Keeps-bind, Keeps-call, Keeps-modify, Keeps-on_some, Keeps-on_result, Keeps-if,
  Keeps-function,
}
use mariadb_ha_operator.World.Keeps.Calls.{IsStable, call_rules, Keeps-read_clock, Keeps-emit}
use mariadb_ha_operator.Health.Keeps.{
  get_connection_info-Keeps, check_tcp_connection-Keeps, check_instance_health-Keeps,
}
use mariadb_ha_operator.Sessions.{Sessions}
use mariadb_ha_operator.Health.Counters.{reset_failure_count}
use mariadb_ha_operator.Failover.{
  check_lag, update_services_after_failover, after_failover, record_failover, handle_failover,
  check_or_give_up, warn_if, is_fit,
}
use mariadb_ha_operator.Failover.Promotion.{promote_secondary_to_primary}
use mariadb_ha_operator.Failover.Recovery.{
  old_primary_available, recover_old_primary, create_secondary, handle_recovery,
  configure_as_secondary, create_new_secondary,
}

module _ {P : State → Type 0} (env : Env) (stable : IsStable P) where
  pub update_services_after_failover-Keeps : Keeps P (update_services_after_failover env)
  unfolding update_services_after_failover
  update_services_after_failover-Keeps = search call_rules depth 30

  check_lag-Keeps : Sessions env P → (i : MariaDbConnectionInfo) → Keeps P (check_lag env i)
  unfolding check_lag
  check_lag-Keeps sessions i =
      let status = sessions.check_replication_status in search (call_rules, status) depth 30

  pub old_primary_available-Keeps : (n : String) → Keeps P (old_primary_available env n)
  unfolding old_primary_available
  old_primary_available-Keeps n =
      let info = get_connection_info-Keeps env stable in
      let tcp = check_tcp_connection-Keeps env stable in search (call_rules, info, tcp) depth 30

  pub create_secondary-Keeps : Keeps P (create_secondary env)
  unfolding create_secondary create_new_secondary
  create_secondary-Keeps =
      Keeps-bind _ _ (Keeps-call _ (record { at = λ s h. h })) (λ refused. search call_rules)

  module _ (status : Keeps P (update_status env))
      (back : (name : String) (s : State)
        → P s
        → P (record s {
          ha = record s.ha {
            status = record s.ha.status { current_secondary = name; phase = running };
          };
        })) where
    recover_old_primary-Keeps : (n : String) → Keeps P (recover_old_primary env n)
    unfolding recover_old_primary configure_as_secondary
    recover_old_primary-Keeps n =
        Keeps-bind _ _ (Keeps-call _ (record { at = λ s h. h })) (λ refused.
          Keeps-on_some _ _ _ (λ e. search call_rules)
            (Keeps-bind _ _ (Keeps-modify _ (back n))
              (λ _. Keeps-bind _ _ (Keeps-call _ status) (λ o. search call_rules))))

    pub handle_recovery-Keeps : Keeps P (handle_recovery env)
    unfolding handle_recovery
    handle_recovery-Keeps =
        search
          (
            call_rules, old_primary_available-Keeps, create_secondary-Keeps,
            recover_old_primary-Keeps,
          )
          depth 30

module _ {P : State → Type 0} (env : Env) (frame : Frame env P)
    (unfit : (s : State)
      → P s
      → P (record s { ha = record s.ha { status = record s.ha.status { phase = failing } } }))
    (fit : (now : Time) (d : ℤ) (s : State)
      → P s
      → P (record s { ha = after_failover env now d s.ha })) where
  reset_failure_count-Keeps :
      (p : Bool) (s : State) → P s → P (record s { ha = reset_failure_count p s.ha })
  unfolding reset_failure_count
  reset_failure_count-Keeps p s h = frame.annotations _ s h

  record_failover-Keeps : (start : Time) → Keeps P (record_failover env start)
  unfolding record_failover
  record_failover-Keeps start =
      Keeps-bind _ _ (Keeps-call _ (Keeps-read_clock env frame.stable)) (λ now.
        Keeps-bind _ _ (Keeps-call _ (Keeps-read_clock env frame.stable)) (λ end.
          Keeps-bind _ _ (Keeps-modify _ (fit now _)) (λ _.
            Keeps-bind _ _ (Keeps-modify _ (reset_failure_count-Keeps true)) (λ _.
              Keeps-bind _ _ (Keeps-modify _ (reset_failure_count-Keeps false)) (λ _.
                Keeps-bind _ _ (Keeps-call _ frame.status)
                  (λ refused. let stable = frame.stable in search call_rules))))))

  -- The last steps of the failover, from the promotion on.
  promote-Keeps :
      (start : Time) (info : MariaDbConnectionInfo)
      → Keeps P (
          call (promote_secondary_to_primary env info) >>= λ promoted.
          (check_or_give_up promoted "FailoverFailed"
            >> (call (update_services_after_failover env) >>= λ updated.
                (warn_if updated "FailoverWarning" >> record_failover env start))))
  promote-Keeps start info =
      let stable = frame.stable in
      Keeps-bind _ _ (Keeps-call _ (frame.sessions.promote_secondary_to_primary info)) (λ promoted.
        Keeps-bind _ _ (search call_rules) (λ _.
          Keeps-bind _ _ (Keeps-call _ (update_services_after_failover-Keeps env stable))
            (λ updated. Keeps-bind _ _ (search call_rules) (λ _. record_failover-Keeps start))))

  pub handle_failover-Keeps : Keeps P (handle_failover env)
  unfolding handle_failover
  handle_failover-Keeps =
      let stable = frame.stable in
      let status = frame.status in
      Keeps-function _ (
        Keeps-bind _ _ (Keeps-call _ (Keeps-read_clock env stable)) (λ start.
          Keeps-bind _ _ (Keeps-call _ (check_instance_health-Keeps env frame false)) (λ c.
            Keeps-if (is_fit c) _ _
              (λ _.
                Keeps-bind _ _ (Keeps-call _ (get_connection_info-Keeps env stable false)) (λ found.
                  Keeps-on_result _ _ _ (λ e. search call_rules)
                    (λ info. Keeps-bind _ _ (check_lag-Keeps env stable frame.sessions info) (λ _.
                      Keeps-bind _ _ (Keeps-call _ (frame.sessions.stop_replication info)) (λ e.
                        Keeps-bind _ _ (search call_rules) (λ _. promote-Keeps start info))))))
              (λ _.
                Keeps-bind _ _ (Keeps-call _ (Keeps-emit _ _ stable)) (λ _.
                  Keeps-bind _ _ (Keeps-modify _ unfit) (λ _. search (call_rules, status)))))))
