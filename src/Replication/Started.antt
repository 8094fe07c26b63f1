-- ===== src/Replication/Started.antt =====
-- What has happened when `setupReplication` returns no error.
use mariadb_ha_operator.Base.{◌≡◌, subst, ◌⊎◌, inl, inr, String, Option, none, ◌==◌, string_eq}
use mariadb_ha_operator.World.Sql.{
  MariaDbConnectionInfo, ChangeMaster, Rows, show_master_status, change_master_to, start_slave,
  start_replica,
}
use mariadb_ha_operator.World.{Error, Result, ok, Env}
use mariadb_ha_operator.World.Calls.{sql_exec, sql_query}
use mariadb_ha_operator.World.Answers.{
  Answers, Returns, Anything, Answered, Returns-answered, Answers-return, Answers-if, Answers-bind,
  Answers-call, Answers-any_call, Answers-gets, Answers-on_some, Answers-on_result, Answers-pass,
  Returns-function, Returns-deferring, Returns-weaken,
}
use mariadb_ha_operator.Replication.{
  BinlogPosition, scan_position, check_wrapped, enable_semi_sync, start_replication,
  configure_secondary, replicate_from,
}

abbrev pub target_of : MariaDbConnectionInfo → String → String → BinlogPosition → ChangeMaster
target_of primary user password binlog = record {
  host = primary.host;
  port = primary.port;
  user = user;
  password = password;
  log_file = binlog.file;
  log_pos = binlog.position;
}

-- The secondary has taken the target and has started, in either syntax.
pub record Follows (env : Env) (secondary : MariaDbConnectionInfo) (target : ChangeMaster)
    : Type 0 where
  pub pointed : Answered (sql_exec env secondary (change_master_to target)) none
  pub started :
      Answered (sql_exec env secondary start_slave) none
      ⊎ Answered (sql_exec env secondary start_replica) none

pub record Replicates (env : Env) (primary secondary : MariaDbConnectionInfo)
    (user password : String) : Type 0 where
  pub binlog : BinlogPosition
  pub rows : Result Rows
  pub shown : Answered (sql_query env primary show_master_status) rows
  pub scanned : scan_position rows ≡ ok binlog
  pub follows : Follows env secondary (target_of primary user password binlog)

module _ (env : Env) (primary secondary : MariaDbConnectionInfo) where
  abbrev pub Unless : Type 0 → Option Error → Type 0
  Unless X refused = refused ≡ none → X

  check_wrapped-none :
      {X : Type 0} (o : Option Error) (message : String)
      → Answers (Unless X) (λ _. o ≡ none) (check_wrapped o message)
  check_wrapped-none o message =
      Answers-on_some o _ _ (λ e h. Answers-return _ (λ y. cc)) (λ h. Answers-pass h)

  pub check_wrapped-any :
      {X : Type 0} (o : Option Error) (message : String)
      → Answers (Unless X) Anything (check_wrapped o message)
  check_wrapped-any o message =
      Answers-on_some o _ _ (λ e h. Answers-return _ (λ y. cc)) (λ h. Answers-pass tt)

  start_replication-started :
      {X : Type 0}
      → (Answered (sql_exec env secondary start_slave) none
            ⊎ Answered (sql_exec env secondary start_replica) none
          → X)
      → Answers (Unless X) (Unless X) (start_replication env primary secondary)
  unfolding start_replication
  start_replication-started k =
      Answers-bind _ _ (Answers-call _ (Returns-answered (sql_exec env secondary start_slave)))
        (λ o ran.
          Answers-on_some o _ _
            (λ e h.
              Answers-bind _ _
                (Answers-call _ (Returns-answered (sql_exec env secondary start_replica)))
                (λ q ran'. Answers-bind _ _ (check_wrapped-none q _) (λ _ h'. Answers-return _ (λ y.
                  k (inr (subst (Answered (sql_exec env secondary start_replica)) h' ran'))))))
            (λ h.
              Answers-return _
                (λ y. k (inl (subst (Answered (sql_exec env secondary start_slave)) h ran)))))

  enable_semi_sync-any :
      {X : Type 0} → Answers (Unless X) Anything (enable_semi_sync env primary secondary)
  unfolding enable_semi_sync
  enable_semi_sync-any = Answers-bind _ _ (Answers-gets _) (λ mode read.
      Answers-if (mode == "semisync") _ _
        (λ _. Answers-bind _ _ (Answers-any_call _) (λ _ a.
          Answers-bind _ _ (Answers-any_call _) (λ e b.
            Answers-bind _ _ (check_wrapped-none e _) (λ _ c.
              Answers-bind _ _ (Answers-any_call _)
                (λ _ d. Answers-bind _ _ (Answers-any_call _) (λ e' f. check_wrapped-any e' _))))))
        (λ _. Answers-pass tt))

  configure_secondary-Follows :
      (target : ChangeMaster)
      → Returns
          (Unless (Follows env secondary target))
          (configure_secondary env primary secondary target)
  unfolding configure_secondary
  configure_secondary-Follows target = Returns-function _ (
      Answers-bind _ _ (Answers-any_call _) (λ stopped asked.
        Answers-bind {W = Anything} _ _
          (Answers-on_some stopped _ _
            (λ e h. Answers-bind _ _ (Answers-any_call _) (λ _ told. Answers-pass tt))
            (λ h. Answers-pass tt))
          (λ _ done. Answers-bind _ _ enable_semi_sync-any (λ _ ready.
            Answers-bind _ _
              (Answers-call _ (Returns-answered (sql_exec env secondary (change_master_to target))))
              (λ o ran. Answers-bind _ _ (check_wrapped-none o _) (λ _ h.
                start_replication-started (λ started. record {
                  pointed =
                      subst (Answered (sql_exec env secondary (change_master_to target))) h ran;
                  started = started;
                })))))))

  pub replicate_from-Replicates :
      (user password : String)
      → Returns
          (Unless (Replicates env primary secondary user password))
          (replicate_from env primary secondary user password)
  unfolding replicate_from
  replicate_from-Replicates user password = Returns-function _ (
      Answers-bind _ _
        (Answers-call _ (Returns-answered (sql_query env primary show_master_status)))
        (λ rows shown.
          Answers-on_result (scan_position rows) _ _ (λ e h. Answers-return _ (λ y. cc))
            (λ binlog scanned. Answers-bind _ _ (Answers-any_call _) (λ o joined.
              Answers-bind _ _ (check_wrapped-any o _) (λ _ there. Answers-call _ (
                Returns-deferring _ _ (
                  Returns-weaken _
                    (λ e f y. record {
                      binlog = binlog;
                      rows = rows;
                      shown = shown;
                      scanned = scanned;
                      follows = f y;
                    })
                    (configure_secondary-Follows (target_of primary user password binlog)))))))))
