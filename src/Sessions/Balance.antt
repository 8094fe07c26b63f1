-- ===== src/Sessions/Balance.antt =====
-- The functions that open a handle close it again, on every path.
use mariadb_ha_operator.Base.{String, ℕ, Option, none, some, ◌==◌, string_eq}
use mariadb_ha_operator.StringMap.{get}
use mariadb_ha_operator.World.Sql.{MariaDbConnectionInfo}
use mariadb_ha_operator.World.{Error, Result, Env, Go, ◌>>=◌, ◌>>◌, call, function, deferring}
use mariadb_ha_operator.World.Calls.{sql_close}
use mariadb_ha_operator.World.Outcome.{check_error, try_error}
use mariadb_ha_operator.World.Keeps.{Keeps}
use mariadb_ha_operator.World.Keeps.Calls.{
  call_rules, Keeps-fetch_secret, Keeps-sql_ping, Keeps-sql_query,
}
use mariadb_ha_operator.World.Ensures.{
  Ensures, Leaves, Ensures-bind, Ensures-call, Ensures-return, Ensures-if, Ensures-gets,
  Ensures-keep, Ensures-pass, Ensures-branch, Ensures-on_some, Ensures-on_result, Leaves-function,
  Keeps-of_leaves,
}
use mariadb_ha_operator.Health.Connection.{check_sql_connection, connect_to_database}
use mariadb_ha_operator.Health.Replication.{check_replication_status}
use mariadb_ha_operator.Failover.Promotion.{stop_replication, promote_secondary_to_primary}
use mariadb_ha_operator.Replication.{
  replicate_from, setup_replication, check_wrapped, common_secret_name,
}
use mariadb_ha_operator.Replication.Keeps.{configure_secondary-Keeps}
use mariadb_ha_operator.Sessions.{Sessions}
use mariadb_ha_operator.Sessions.Handles.{
  after_open, one_more, Opened, Opened-stable, sql_open-Opened, sql_close-Opened, closing,
}

module _ (env : Env) (j : MariaDbConnectionInfo) (n : ℕ) where
  -- The three ways to return on an error: behind them, there is one handle more.
  check_error-Opened :
      (i : MariaDbConnectionInfo) (o : Option Error)
      → Ensures
          (Opened env j (after_open i j o n))
          (λ _. Opened env j n)
          (λ _. Opened env j (one_more i j n))
          (check_error o)
  unfolding check_error
  check_error-Opened i none = Ensures-pass
  check_error-Opened i (some e) = Ensures-return _ (λ s w. w)

  check_wrapped-Opened :
      (i : MariaDbConnectionInfo) (o : Option Error) (message : String)
      → Ensures
          (Opened env j (after_open i j o n))
          (λ _. Opened env j n)
          (λ _. Opened env j (one_more i j n))
          (check_wrapped o message)
  check_wrapped-Opened i o message =
      Ensures-branch (λ o. Opened env j (after_open i j o n)) o _ _
        (λ e. Ensures-return _ (λ s w. w)) Ensures-pass

  try_error-Opened :
      {R : Type 0} (i : MariaDbConnectionInfo) (o : Option Error)
      → Ensures
          (Opened env j (after_open i j o n))
          (λ (_ : Result R). Opened env j n)
          (λ _. Opened env j (one_more i j n))
          (try_error o)
  unfolding try_error
  try_error-Opened i none = Ensures-pass
  try_error-Opened i (some e) = Ensures-return _ (λ s w. w)

  module _ (info : MariaDbConnectionInfo) where
    -- connectToDatabase leaves a handle open if and only if it returns no error.
    pub connect_to_database-Opened :
        Leaves
          (Opened env j n)
          (λ refused. Opened env j (after_open info j refused n))
          (connect_to_database env info)
    unfolding connect_to_database
    connect_to_database-Opened = Leaves-function _ (
        Ensures-bind _ _ (Ensures-call _ (sql_open-Opened env j n info)) (λ o.
          Ensures-branch (λ o. Opened env j (after_open info j o n)) o _ _
            (λ e. Ensures-return _ (λ s w. w))
            (Ensures-bind _ _
              (Ensures-keep _ (Keeps-sql_ping env info (Opened-stable env j (one_more info j n))))
              (λ p.
                Ensures-on_some p _ _
                  (λ e.
                    Ensures-bind _ _ (Ensures-call _ (sql_close-Opened env j n info))
                      (λ _. Ensures-return _ (λ s w. w)))
                  (Ensures-return _ (λ s w. w))))))

    check_sql_connection-Opened :
        Leaves (Opened env j n) (λ _. Opened env j n) (check_sql_connection env info)
    unfolding check_sql_connection
    check_sql_connection-Opened =
        let stable = Opened-stable env j (one_more info j n) in
        Leaves-function _ (
          Ensures-bind _ _ (Ensures-call _ (sql_open-Opened env j n info)) (λ o.
            Ensures-branch (λ o. Opened env j (after_open info j o n)) o _ _
              (λ e. Ensures-return _ (λ s w. w))
              (Ensures-call _ (closing env j n info _ (search (call_rules, stable) depth 30)))))

    check_replication_status-Opened :
        Leaves (Opened env j n) (λ _. Opened env j n) (check_replication_status env info)
    unfolding check_replication_status
    check_replication_status-Opened =
        let stable = Opened-stable env j (one_more info j n) in
        Leaves-function _ (
          Ensures-bind _ _ (Ensures-call _ (sql_open-Opened env j n info)) (λ o.
            Ensures-bind _ _ (try_error-Opened info o) (λ _.
              Ensures-call _ (closing env j n info _ (search (call_rules, stable) depth 30)))))

    -- Statements on one connection, behind `defer db.Close()`.
    connected-Opened :
        (m : Go (Option Error))
        → Keeps (Opened env j (one_more info j n)) m
        → Leaves
            (Opened env j n)
            (λ _. Opened env j n)
            (function (
              call (connect_to_database env info) >>= λ refused.
              (check_error refused >> call (deferring (sql_close info) m))))
    connected-Opened m k = Leaves-function _ (
        Ensures-bind _ _ (Ensures-call _ connect_to_database-Opened) (λ o.
          Ensures-bind _ _ (check_error-Opened info o)
            (λ _. Ensures-call _ (closing env j n info m k))))

    stop_replication-Opened :
        Leaves (Opened env j n) (λ _. Opened env j n) (stop_replication env info)
    unfolding stop_replication
    stop_replication-Opened =
        let stable = Opened-stable env j (one_more info j n) in
        connected-Opened _ (search (call_rules, stable) depth 30)

    promote_secondary_to_primary-Opened :
        Leaves (Opened env j n) (λ _. Opened env j n) (promote_secondary_to_primary env info)
    unfolding promote_secondary_to_primary
    promote_secondary_to_primary-Opened =
        let stable = Opened-stable env j (one_more info j n) in
        connected-Opened _ (search (call_rules, stable) depth 30)

module _ (env : Env) (j : MariaDbConnectionInfo) (n : ℕ)
    (primary secondary : MariaDbConnectionInfo) where
  replicate_from-Opened :
      (user password : String)
      → Leaves
          (Opened env j n)
          (λ _. Opened env j n)
          (replicate_from env primary secondary user password)
  unfolding replicate_from
  replicate_from-Opened user password =
      let stable = Opened-stable env j n in
      let stable' = Opened-stable env j (one_more secondary j n) in
      Leaves-function _ (
        Ensures-bind _ _ (Ensures-keep _ (Keeps-sql_query env primary _ stable)) (λ rows.
          Ensures-on_result _ _ _ (λ e. Ensures-return _ (λ s w. w))
            (λ binlog.
              Ensures-bind _ _ (Ensures-call _ (connect_to_database-Opened env j n secondary)) (λ o.
                Ensures-bind _ _ (check_wrapped-Opened env j n secondary o _) (λ _. Ensures-call _ (
                  closing env j n secondary _
                    (configure_secondary-Keeps env stable' primary secondary _)))))))

module _ (env : Env) (j : MariaDbConnectionInfo) (n : ℕ)
    (primary secondary : MariaDbConnectionInfo) where
  setup_replication-Opened :
      Leaves (Opened env j n) (λ _. Opened env j n) (setup_replication env primary secondary)
  unfolding setup_replication
  setup_replication-Opened =
      let stable = Opened-stable env j n in
      Leaves-function _ (
        Ensures-bind _ _ (Ensures-gets _) (λ ha.
          Ensures-if (common_secret_name ha == "") _ _ (λ _. Ensures-return _ (λ s w. w))
            (λ _. Ensures-bind _ _ (Ensures-keep _ (Keeps-fetch_secret env _ stable)) (λ fetched.
              Ensures-on_result _ _ _ (λ e. Ensures-return _ (λ s w. w))
                (λ secret.
                  Ensures-if (get secret.contents "MARIADB_REPLICATION_PASSWORD" == "") _ _
                    (λ _. Ensures-return _ (λ s w. w))
                    (λ _.
                      Ensures-bind _ _ (Ensures-call _ (connect_to_database-Opened env j n primary))
                        (λ o. Ensures-bind _ _ (check_wrapped-Opened env j n primary o _) (λ _.
                          Ensures-call _ (
                            closing env j n primary _ (
                              Keeps-of_leaves _ (
                                replicate_from-Opened env j (one_more primary j n) primary secondary
                                  _ _)))))))))))

pub Opened-Sessions :
    (env : Env) (j : MariaDbConnectionInfo) (n : ℕ) → Sessions env (Opened env j n)
Opened-Sessions env j n = record {
  check_sql_connection = λ i. Keeps-of_leaves _ (check_sql_connection-Opened env j n i);
  check_replication_status = λ i. Keeps-of_leaves _ (check_replication_status-Opened env j n i);
  stop_replication = λ i. Keeps-of_leaves _ (stop_replication-Opened env j n i);
  promote_secondary_to_primary =
      λ i. Keeps-of_leaves _ (promote_secondary_to_primary-Opened env j n i);
  setup_replication = λ p q. Keeps-of_leaves _ (setup_replication-Opened env j n p q);
}
