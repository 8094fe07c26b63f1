-- ===== src/Reconciler/Handles.antt =====
-- The database handles of a whole reconcile call.
use mariadb_ha_operator.Base.{◌≡◌, refl, ℕ, ◌∷◌}
use mariadb_ha_operator.Api.{MariaDbHa, unset, ◌is◌}
use mariadb_ha_operator.World.Sql.{MariaDbConnectionInfo}
use mariadb_ha_operator.World.{
  not_found, Result, ok, err, ObjectKey, Call, mariadb_ha, Env, State, History, Go,
}
use mariadb_ha_operator.World.Calls.{update_mariadb_ha}
use mariadb_ha_operator.World.Outcome.{Outcome}
use mariadb_ha_operator.World.Frame.{Frame}
use mariadb_ha_operator.World.Keeps.{
  Keeps, Keeps-bind, Keeps-call, Keeps-function, Keeps-modify, Keeps-gets, Keeps-if, Keeps-on_some,
}
use mariadb_ha_operator.World.Keeps.Calls.{call_rules, Keeps-update_status, Keeps-update_mariadb_ha}
use mariadb_ha_operator.Sessions.Handles.{open_handles, Opened, Opened-stable}
use mariadb_ha_operator.Sessions.Balance.{Opened-Sessions}
use mariadb_ha_operator.Health.Checks.{HealthCheckResult}
use mariadb_ha_operator.Deletion.{contains_finalizer}
use mariadb_ha_operator.Deletion.Keeps.{change-Keeps, handle_deletion-Keeps}
use mariadb_ha_operator.Failover.Keeps.{handle_failover-Keeps, handle_recovery-Keeps}
use mariadb_ha_operator.Reconciler.{
  initialize, add_finalizer, reconcile_cluster, reconcile_object, reconcile, begin,
}
use mariadb_ha_operator.Reconciler.Keeps.{reconcile_cluster-Keeps}

module _ (env : Env) (info : MariaDbConnectionInfo) (n : ℕ) where
  -- The object in memory does not matter.
  changed :
      (f : MariaDbHa → MariaDbHa) (s : State)
      → Opened env info n s
      → Opened env info n (record s { ha = f s.ha })
  changed f s w = record { count = w.count }

  Opened-Frame : Frame env (Opened env info n)
  unfolding open_handles
  Opened-Frame = record {
    stable = Opened-stable env info n;
    sessions = Opened-Sessions env info n;
    status =
        Keeps-update_status env (λ s w. record { count = w.count })
          (λ s ha w e. record { count = w.count });
    conditions = λ cs s w. record { count = w.count };
    lag = λ l s w. record { count = w.count };
    annotations = λ m s w. record { count = w.count };
  }

  update_mariadb_ha-Opened : Keeps (Opened env info n) (update_mariadb_ha env)
  unfolding open_handles
  update_mariadb_ha-Opened =
      Keeps-update_mariadb_ha env (λ s w. record { count = w.count })
        (λ s ha w e. record { count = w.count })

  module _ (handle_primary_failure : HealthCheckResult → Go Outcome)
      (detects : (health : HealthCheckResult)
        → Keeps (Opened env info n) (handle_primary_failure health)) where
    reconcile_cluster-Opened :
        Keeps (Opened env info n) (reconcile_cluster env handle_primary_failure)
    reconcile_cluster-Opened =
        let frame = Opened-Frame in
        reconcile_cluster-Keeps env frame (λ p. changed _) handle_primary_failure detects
          (handle_failover-Keeps env frame (changed _) (λ now d. changed _))
          (handle_recovery-Keeps env frame.stable frame.status (λ name. changed _))

    initialize-Opened : Keeps (Opened env info n) (initialize env handle_primary_failure)
    unfolding initialize
    initialize-Opened =
        let frame = Opened-Frame in
        Keeps-bind _ _ (Keeps-modify _ (changed _))
          (λ _. Keeps-bind _ _ (Keeps-call _ frame.status) (λ refused. search call_rules))

    reconcile_object-Opened :
        Keeps (Opened env info n) (reconcile_object env handle_primary_failure)
    unfolding reconcile_object add_finalizer
    reconcile_object-Opened =
        let stable = Opened-stable env info n in
        Keeps-function _ (
          Keeps-bind _ _ (Keeps-gets _) (λ ha.
            Keeps-if (contains_finalizer ha.finalizers) _ _
              (λ _.
                Keeps-on_some ha.deletion_timestamp _ _
                  (λ t.
                    Keeps-call _
                      (handle_deletion-Keeps env stable update_mariadb_ha-Opened changed))
                  (Keeps-if (ha.status.phase is unset) _ _ (λ _. initialize-Opened)
                    (λ _. Keeps-call _ reconcile_cluster-Opened)))
              (λ _. change-Keeps env stable update_mariadb_ha-Opened changed _ _)))

    begin-Opened :
        (r : Result MariaDbHa) (h : History)
        → open_handles env info h ≡ n
        → open_handles env info (begin env handle_primary_failure r h).1 ≡ n
    unfolding begin
    begin-Opened (err not_found) h e = e
    begin-Opened (err _) h e = e
    begin-Opened (ok ha) h e =
        (reconcile_object-Opened.at (record { ha = ha; history = h }) (record { count = e })).count

-- A reconcile call closes the database handles that it has opened: for every server and login as many
-- are open at its end as at its start, on every path, whatever the API server, the database servers
-- and the network answer.
-- It is assumed that the missing handlePrimaryFailure closes what it opens, too.
pub reconcile-closes-handles :
    (env : Env) (handle_primary_failure : HealthCheckResult → Go Outcome)
    → ((info : MariaDbConnectionInfo) (n : ℕ) (health : HealthCheckResult)
        → Keeps (Opened env info n) (handle_primary_failure health))
    → (info : MariaDbConnectionInfo) (key : ObjectKey) (h : History)
    → open_handles env info (reconcile env handle_primary_failure key h).1 ≡ open_handles env info h
unfolding reconcile open_handles
reconcile-closes-handles env f detects info key h =
    begin-Opened env info (open_handles env info h) f (detects info (open_handles env info h))
      (env.get_mariadb_ha h key) (Call.get mariadb_ha key ∷ h) refl
