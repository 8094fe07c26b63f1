-- ===== src/Failover.antt =====
-- The failover and the recovery after it: internal/controller/failover.go.
pub mod Promotion
pub mod Allowed
pub mod Recovery
pub mod Rerouting
pub mod Keeps
pub mod TakeOver
pub mod Promoted
pub mod Ends
pub mod Outcomes
pub mod Justified
use mariadb_ha_operator.Base.{
  ℕ, String, ◌<>◌, ℤ, pos, ◌-◌, ◌/◌, ltb_ℤ, to_int32, Bool, true, false, Option, none, some, List,
  [], ◌∷◌, ◌++◌, ◌&&◌, ◌||◌, not, last?, ◌==◌, nat_eq, string_eq, if◌then◌else◌,
}
use mariadb_ha_operator.Api.{
  Time, MariaDbHa, MariaDbHaStatus, FailoverEvent, running, failing, failover, recovering,
}
use mariadb_ha_operator.Kube.{Pod, PodPhase, pod_running, Service}
use mariadb_ha_operator.World.Sql.{MariaDbConnectionInfo}
use mariadb_ha_operator.World.{
  Error, is_not_found, wrapped, Result, ok, err, EventType, normal, warning, service_object, Env,
  Go, Body, ◌>>=◌, ◌>>◌, return, pass, call, function, gets, modify, on_some, on_result,
}
use mariadb_ha_operator.World.Calls.{
  emit, fetch_service, fetch_pod, update, update_status, read_clock,
}
use mariadb_ha_operator.World.Outcome.{Outcome, no_requeue, requeue_now, requeue_in, second, failed}
use mariadb_ha_operator.Names.{pod_name, cluster_service_name}
use mariadb_ha_operator.Health.Connection.{get_connection_info, check_tcp_connection}
use mariadb_ha_operator.Health.Counters.{reset_failure_count}
use mariadb_ha_operator.Health.Replication.{ReplicationStatus, check_replication_status}
use mariadb_ha_operator.Health.Checks.{Checked, check_instance_health, exceeds}
use mariadb_ha_operator.Config.{text_or}
use Promotion.{stop_replication, promote_secondary_to_primary, is_true}

-- `return ctrl.Result{RequeueAfter: 30 * time.Second}, nil` behind a warning event
abbrev pub give_up : {A : Type 0} → String → Body Outcome A
give_up reason = do _ ← call (emit warning reason); return (requeue_in 30)

-- `if err != nil { event; … }`, which goes on
abbrev warn_if : Option Error → String → Body Outcome (Unit {0})
warn_if refused reason = on_some refused (λ e. call (emit warning reason)) pass

-- `v, err := …; if err != nil { event; return }`
abbrev or_give_up : {A B : Type 0} → Result B → String → (B → Body Outcome A) → Body Outcome A
or_give_up answer reason k = on_result answer (λ e. give_up reason) k

abbrev check_or_give_up : Option Error → String → Body Outcome (Unit {0})
check_or_give_up refused reason = on_some refused (λ e. give_up reason) pass

-- `err == nil && healthy`
abbrev pub is_fit : Checked → Bool
is_fit c = elim c.error [ none ↦ c.healthy | some e ↦ false ]

-- `promotionStrategy == "safe"`, the default
abbrev pub is_safe : MariaDbHa → Bool
is_safe ha = text_or ha.spec.failover.promotion_strategy "safe" == "safe"

module _ (env : Env) where
  -- The step of handleFailover that asks for the replication status, under the safe strategy.
  unfoldable pub check_lag : MariaDbConnectionInfo → Body Outcome (Unit {0})
  check_lag info = do
    ha ← gets (λ ha. ha)
    if is_safe ha
        then (do
          answer ← call (check_replication_status env info)
          or_give_up answer "FailoverFailed" (λ status.
              if exceeds status.seconds_behind_master (pos 0)
              then call (emit warning "FailoverLag")
              else pass))
        else pass

  -- updateServicesAfterFailover; `none` for nil
  unfoldable pub update_services_after_failover : Go (Option Error)
  update_services_after_failover = function (do
    ha ← gets (λ ha. ha)
    found ← call (fetch_service env (cluster_service_name ha.name))
    on_result found
        (λ e.
          if is_not_found e
          then return none
          else return (some (wrapped "impossible de récupérer le service principal" e)))
        (λ svc. do
          found_pod ← call (fetch_pod env (pod_name ha.name false))
          on_result found_pod
              (λ e. return (some (wrapped "impossible de récupérer le pod du nouveau primaire" e)))
              (λ pod. do
                refused ← call (update env (service_object (record svc { selector = pod.labels })))
                on_some refused
                    (λ e.
                      return (some (wrapped "impossible de mettre à jour le service principal" e)))
                    (return none))))

  -- The status that handleFailover writes at `now`, for a failover of `duration` seconds.
  unfoldable pub after_failover : Time → ℤ → MariaDbHa → MariaDbHa
  after_failover now duration ha = record ha {
    status = record ha.status {
      last_failover_time = some now;
      current_primary = ha.status.current_secondary;
      current_secondary = "";
      phase = recovering;
      failover_history =
          ha.status.failover_history
          ++ (record {
            timestamp = now;
            reason = "PrimaryFailure";
            old_primary = ha.status.current_primary;
            new_primary = ha.status.current_secondary;
            automatic = true;
            duration = some duration;
          }
              ∷ []);
    };
  }

  -- Step 7 of handleFailover: the status, the counters and their write.
  unfoldable pub record_failover : Time → Body Outcome Outcome
  unfolding after_failover
  record_failover start = do
    now ← call (read_clock env)
    end ← call (read_clock env)
    modify (after_failover now (to_int32 (pos ((end - start) / second))))
    modify (reset_failure_count true)
    modify (reset_failure_count false)
    refused ← call (update_status env)
    on_some refused (λ e. return (requeue_in 10))
        (do _ ← call (emit normal "FailoverSuccessful"); return requeue_now)

  -- handleFailover
  unfoldable pub handle_failover : Go Outcome
  unfolding check_lag record_failover
  handle_failover = function (do
    start ← call (read_clock env)
    c ← call (check_instance_health env false)
    if is_fit c
        then (do
          found ← call (get_connection_info env false)
          or_give_up found "FailoverFailed" (λ info. do
            check_lag info
            stopped ← call (stop_replication env info)
            warn_if stopped "FailoverWarning"
            promoted ← call (promote_secondary_to_primary env info)
            check_or_give_up promoted "FailoverFailed"
            updated ← call (update_services_after_failover)
            warn_if updated "FailoverWarning"
            record_failover start))
        else (do
          _ ← call (emit warning "FailoverFailed")
          modify (λ ha. record ha { status = record ha.status { phase = failing } })
          _ ← call (update_status env)
          return (requeue_in 30)))
