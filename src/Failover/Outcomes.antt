-- ===== src/Failover/Outcomes.antt =====
-- What `handleFailover` leaves in the status, for each of its results.
use mariadb_ha_operator.Base.{◌≡◌, refl, String, true, false, Option, none, some}
use mariadb_ha_operator.Api.{MariaDbHa, Time, failing}
use mariadb_ha_operator.World.Sql.{MariaDbConnectionInfo}
use mariadb_ha_operator.World.{
  Error, Result, ok, err, Env, State, Call, normal, Body, next, continue, made, ◌>>=◌, ◌>>◌, call,
  modify, return, on_some, pass,
}
use mariadb_ha_operator.World.Calls.{emit, stored, update_status}
use mariadb_ha_operator.World.Outcome.{Outcome, requeue_now, requeue_in}
use mariadb_ha_operator.World.Laws.{StoresStatus}
use mariadb_ha_operator.World.Keeps.Calls.{Keeps-emit, Keeps-read_clock}
use mariadb_ha_operator.World.Ensures.{
  After, Ensures, Leaves, Ensures-call, Ensures-return, Ensures-if, Ensures-bind, Ensures-on_some,
  Ensures-on_result, Leaves-function, Ensures-pass, Ensures-keep, Ensures-gets, Ensures-modify,
  Ensures-known,
}
use mariadb_ha_operator.Health.Keeps.{get_connection_info-Keeps, check_instance_health-Keeps}
use mariadb_ha_operator.Health.Checks.{exceeds}
use mariadb_ha_operator.Base.{pos}
use mariadb_ha_operator.Failover.{
  check_lag, record_failover, handle_failover, check_or_give_up, give_up, warn_if, is_fit, is_safe,
  update_services_after_failover,
}
use mariadb_ha_operator.Failover.Promotion.{promote_secondary_to_primary}
use mariadb_ha_operator.Failover.Promoted.{
  IsPromoted, Promotion, IsPromoted-of_none, promote_secondary_to_primary-Promotion,
}
use mariadb_ha_operator.Failover.TakeOver.{
  Serves, TookOver, Serves-Frame, noted-TookOver, update_status-TookOver, reset-TookOver,
  takes_over,
}
use mariadb_ha_operator.Failover.Keeps.{update_services_after_failover-Keeps}
use mariadb_ha_operator.Failover.Ends.{FailoverResult, took_over, unwritten, gave_up}

module _ (env : Env) (law : StoresStatus env) (p q : String) where
  abbrev Q : Outcome → State → Type 0
  Q o s = FailoverResult env p q s o

  abbrev Before : {A : Type 0} → Body Outcome A → Type 0
  Before m = Ensures (Serves p q) Q (λ _. Serves p q) m

  give_up-Before :
      {A : Type 0} {V : A → State → Type 0} (reason : String)
      → Ensures (Serves p q) Q V (give_up reason)
  give_up-Before reason =
      Ensures-bind _ _ (Ensures-keep _ (Keeps-emit _ _ (Serves-Frame env law p q).stable))
        (λ _. Ensures-return _ (λ s w. gave_up w))

  warn-Before : (o : Option Error) (reason : String) → Before (warn_if o reason)
  warn-Before o reason =
      Ensures-on_some _ _ _ (λ e. Ensures-keep _ (Keeps-emit _ _ (Serves-Frame env law p q).stable))
        Ensures-pass

  check_lag-Before : (info : MariaDbConnectionInfo) → Before (check_lag env info)
  unfolding check_lag
  check_lag-Before info =
      let stable = (Serves-Frame env law p q).stable in
      Ensures-bind _ _ (Ensures-gets _) (λ ha.
        Ensures-if (is_safe ha) _ _
          (λ _.
            Ensures-bind _ _
              (Ensures-keep _ ((Serves-Frame env law p q).sessions.check_replication_status info))
              (λ answer.
                Ensures-on_result _ _ _ (λ e. give_up-Before _)
                  (λ status.
                    Ensures-if (exceeds status.seconds_behind_master (pos 0)) _ _
                      (λ _. Ensures-keep _ (Keeps-emit _ _ stable)) (λ _. Ensures-pass))))
          (λ _. Ensures-pass))

  -- The write of the status, and what is returned for each answer.
  end-Q :
      (info : MariaDbConnectionInfo)
      → IsPromoted env info
      → Ensures (TookOver p q) Q Q (
          call (update_status env) >>= λ refused.
          on_some refused
            (λ e. return {A = Outcome} (requeue_in 10))
            (call (emit normal "FailoverSuccessful") >>= λ _. return requeue_now))
  unfolding ◌>>=◌ call on_some return emit update_status
  end-Q info done = record {
    at = λ s w.
        answered s (env.update_status s.history s.ha) refl
          ((update_status-TookOver env law p q).at s w);
  }
    where
      answered :
          (s : State) (r : Result MariaDbHa)
          → env.update_status s.history s.ha ≡ r
          → TookOver p q (stored r (made (Call.update_status s.ha) s)).1
          → After Q Q (
              continue
                (next (stored r (made (Call.update_status s.ha) s)).0)
                (λ refused.
                  on_some refused
                    (λ e. return {A = Outcome} (requeue_in 10))
                    (call (emit normal "FailoverSuccessful") >>= λ _. return requeue_now))
                (stored r (made (Call.update_status s.ha) s)).1)
      answered s (ok ha) e w =
          took_over info done (noted-TookOver env law p q _ _ w)
            (record { sent = s.ha; before = s.history; accepted = e; calls = refl })
      answered s (err x) e w =
          unwritten info done w
            (record { error = x; before = s.history; refused = e; calls = refl })

  -- Step 7: from here on the secondary is the primary.
  record_failover-Q :
      (info : MariaDbConnectionInfo)
      → IsPromoted env info
      → (start : Time) → Ensures (Serves p q) Q Q (record_failover env start)
  unfolding record_failover
  record_failover-Q info done start =
      let stable = (Serves-Frame env law p q).stable in
      Ensures-bind _ _ (Ensures-keep _ (Keeps-read_clock env stable)) (λ now.
        Ensures-bind _ _ (Ensures-keep _ (Keeps-read_clock env stable)) (λ end.
          Ensures-bind _ _ (Ensures-modify _ (takes_over env law p q now _)) (λ _.
            Ensures-bind _ _ (Ensures-modify _ (reset-TookOver env law p q true)) (λ _.
              Ensures-bind _ _ (Ensures-modify _ (reset-TookOver env law p q false))
                (λ _. end-Q info done)))))

  unfit-Q : Ensures (Serves p q) Q Q (
      modify (λ ha. record ha { status = record ha.status { phase = failing } })
      >> (call (update_status env) >>= λ _. return (requeue_in 30)))
  unfit-Q =
      Ensures-bind _ _
        (Ensures-modify _ (λ s w. record {
          current_primary = w.current_primary;
          current_secondary = w.current_secondary;
        }))
        (λ _.
          Ensures-bind _ _ (Ensures-keep _ (Serves-Frame env law p q).status)
            (λ _. Ensures-return _ (λ s w. gave_up w)))

  promotes :
      (info : MariaDbConnectionInfo)
      → Leaves
          (Serves p q)
          (λ o s. Serves p q s × Promotion env info o)
          (promote_secondary_to_primary env info)
  promotes info =
      let kept = (Serves-Frame env law p q).sessions.promote_secondary_to_primary info in
      let answer = promote_secondary_to_primary-Promotion env info in
      record { at = λ s w. (kept.at s w, answer.at s) }

  check-IsPromoted :
      (info : MariaDbConnectionInfo) (o : Option Error) (reason : String)
      → Ensures
          (λ s. Serves p q s × Promotion env info o)
          Q
          (λ _ s. Serves p q s × IsPromoted env info)
          (check_or_give_up o reason)
  unfolding on_some pass
  check-IsPromoted info none reason = record {
    at = λ s h. (h.0, IsPromoted-of_none env info none refl h.1);
  }
  check-IsPromoted info (some e) reason = record {
    at = λ s h. let given_up = give_up-Before reason in given_up.at s h.0;
  }

  promote-Q :
      (start : Time) (info : MariaDbConnectionInfo)
      → Ensures (Serves p q) Q Q (
          call (promote_secondary_to_primary env info) >>= λ promoted.
          (check_or_give_up promoted "FailoverFailed"
            >> (call (update_services_after_failover env) >>= λ updated.
                (warn_if updated "FailoverWarning" >> record_failover env start))))
  promote-Q start info =
      let stable = (Serves-Frame env law p q).stable in
      Ensures-bind _ _ (Ensures-call _ (promotes info)) (λ o.
        Ensures-bind _ _ (check-IsPromoted info o "FailoverFailed") (λ _.
          Ensures-known (IsPromoted env info) _ (Serves p q) _ (λ s h. (h.1, h.0))
            (λ done.
              Ensures-bind _ _ (Ensures-keep _ (update_services_after_failover-Keeps env stable))
                (λ updated.
                  Ensures-bind _ _ (warn-Before updated _)
                    (λ _. record_failover-Q info done start)))))

  handle_failover-Q : Leaves (Serves p q) Q (handle_failover env)
  unfolding handle_failover
  handle_failover-Q =
      let frame = Serves-Frame env law p q in
      let stable = frame.stable in
      Leaves-function _ (
        Ensures-bind _ _ (Ensures-keep _ (Keeps-read_clock env stable)) (λ start.
          Ensures-bind _ _ (Ensures-keep _ (check_instance_health-Keeps env frame false)) (λ c.
            Ensures-if (is_fit c) _ _
              (λ _.
                Ensures-bind _ _ (Ensures-keep _ (get_connection_info-Keeps env stable false))
                  (λ found.
                    Ensures-on_result _ _ _ (λ e. give_up-Before _)
                      (λ info. Ensures-bind _ _ (check_lag-Before info) (λ _.
                        Ensures-bind _ _ (Ensures-keep _ (frame.sessions.stop_replication info))
                          (λ stopped.
                            Ensures-bind _ _ (warn-Before stopped _)
                              (λ _. promote-Q start info))))))
              (λ _. Ensures-bind _ _ (Ensures-keep _ (Keeps-emit _ _ stable)) (λ _. unfit-Q)))))

-- The three results of handleFailover, whatever the API server, the servers and the clock answer. If
-- it asks to be repeated at once, a server has accepted the statement that promotes it and the
-- secondary has taken over: it is the current primary, there is no current secondary, the phase is
-- Recovering and the last failover of the history names the old primary, and this object is what the
-- API server has answered to the write of the status, the last one of all. If it asks to be repeated
-- after ten seconds, the same holds in memory, and the API server has refused the write of this
-- object, the last call of all. If it asks to be repeated after thirty seconds, the primary and the
-- secondary of the status are as before. It is assumed that the API server stores the status that it
-- is sent.
pub handle_failover_result :
    (env : Env)
    → StoresStatus env
    → (s : State)
    → FailoverResult env s.ha.status.current_primary s.ha.status.current_secondary
        (handle_failover env s).1
        (handle_failover env s).0
handle_failover_result env law s =
    (handle_failover-Q env law s.ha.status.current_primary s.ha.status.current_secondary).at s
      (record { current_primary = refl; current_secondary = refl })
