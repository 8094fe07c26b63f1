-- ===== src/Failover/Recovery.antt =====
-- `handleRecovery`, with the two steps that the program leaves to be written.
pub mod Waiting
use mariadb_ha_operator.Base.{
  String, ℤ, pos, Bool, true, false, Option, none, some, List, last?, ◌&&◌, not, ◌==◌, string_eq,
  if◌then◌else◌,
}
use mariadb_ha_operator.Api.{MariaDbHa, FailoverEvent, running}
use mariadb_ha_operator.Kube.{Pod, PodPhase, pod_running}
use mariadb_ha_operator.World.{
  Error, Result, ok, err, normal, warning, Env, Go, Body, ◌>>=◌, ◌>>◌, return, pass, call, function,
  gets, modify, on_some, on_result,
}
use mariadb_ha_operator.World.Calls.{emit, fetch_pod, update_status}
use mariadb_ha_operator.World.Outcome.{Outcome, requeue_in}
use mariadb_ha_operator.Health.Connection.{get_connection_info, check_tcp_connection}
use mariadb_ha_operator.Failover.Promotion.{is_true}

-- configureAsSecondary, which returns nil: its body is still to be written
unfoldable pub configure_as_secondary : String → Go (Option Error)
configure_as_secondary pod_name s = (none, s)

-- createNewSecondary, likewise
unfoldable pub create_new_secondary : Go (Option Error)
create_new_secondary s = (none, s)

-- `oldPrimaryName`: the old primary of the last failover, "" if there was none
unfoldable pub old_primary_name : List FailoverEvent → String
old_primary_name history = elim (last? history) [ none ↦ "" | some e ↦ e.old_primary ]

abbrev is_running : PodPhase → Bool
is_running pod_running = true
is_running _ = false

module _ (env : Env) where
  -- The tests on the old primary: its name, its pod, and a TCP connection to the primary's pod.
  unfoldable pub old_primary_available : String → Go Bool
  old_primary_available name = function (
      if name == "" then return false else (do
        found ← call (fetch_pod env name)
        on_result found (λ e. return false)
            (λ pod.
              if is_running pod.phase
              then (do
                reached ← call (get_connection_info env true)
                on_result reached (λ e. return false)
                    (λ info. call (check_tcp_connection env info (pos 5000000000))))
              else return false)))

  unfoldable pub recover_old_primary : String → Body Outcome Outcome
  recover_old_primary name = do
    refused ← call (configure_as_secondary name)
    on_some refused (λ e. do _ ← call (emit warning "RecoveryWarning"); return (requeue_in 30))
        (do
          modify (λ ha. record ha {
            status = record ha.status { current_secondary = name; phase = running };
          })
          failed_write ← call (update_status env)
          on_some failed_write (λ e. return (requeue_in 10))
              (do _ ← call (emit normal "RecoveryComplete"); return (requeue_in 10)))

  unfoldable pub create_secondary : Body Outcome Outcome
  create_secondary = do
    refused ← call create_new_secondary
    on_some refused (λ e. do _ ← call (emit warning "RecoveryWarning"); return (requeue_in 30))
        (do _ ← call (emit normal "RecoveryInProgress"); return (requeue_in 10))

  -- handleRecovery
  unfoldable pub handle_recovery : Go Outcome
  unfolding old_primary_available recover_old_primary create_secondary configure_as_secondary
      create_new_secondary old_primary_name
  handle_recovery = function (do
    ha ← gets (λ ha. ha)
    let name = old_primary_name ha.status.failover_history
    available ← call (old_primary_available name)
    if available && is_true ha.spec.failover.automatic_failback
        then recover_old_primary name
        else create_secondary)
