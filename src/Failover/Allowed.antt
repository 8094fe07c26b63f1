-- ===== src/Failover/Allowed.antt =====
-- When a failover may start: `isFailoverAllowed` and `ManualFailover`.
pub mod Guards
pub mod Manual
use mariadb_ha_operator.Base.{
  ℤ, pos, ◌-ℤ◌, ◌*ℤ◌, ltb_ℤ, Bool, true, false, Option, none, some, ◌||◌, if◌then◌else◌,
}
use mariadb_ha_operator.Api.{Time, MariaDbHa, FailoverConfig, failover, recovering, ◌is◌}
use mariadb_ha_operator.World.{
  Error, normal, warning, Env, Go, Body, ◌>>=◌, ◌>>◌, return, pass, call, function, gets, modify,
  on_some,
}
use mariadb_ha_operator.World.Calls.{emit, update_status, read_clock}
use mariadb_ha_operator.World.Outcome.{Outcome, no_requeue, requeue_now, failed, check}
use mariadb_ha_operator.Health.Checks.{check_instance_health, or_default}
use mariadb_ha_operator.Failover.{is_fit}
use mariadb_ha_operator.Failover.Promotion.{is_true}

-- `time.Since(last)`
abbrev pub since : Time → Time → ℤ
since now last = pos now -ℤ pos last

-- `minTimeBetweenFailovers`, in nanoseconds
abbrev pub minimum_interval : FailoverConfig → ℤ
minimum_interval c = or_default c.minimum_interval_seconds (pos 300) *ℤ pos 1000000000

-- A failover or a recovery is under way.
abbrev pub is_busy : MariaDbHa → Bool
is_busy ha = ha.status.phase is failover || ha.status.phase is recovering

module _ (env : Env) where
  -- Whether the last failover is too recent. The clock is read only if there was one.
  unfoldable pub too_soon : Go Bool
  too_soon = function (do
    ha ← gets (λ ha. ha)
    on_some ha.status.last_failover_time
        (λ last. do
          now ← call (read_clock env)
          return (ltb_ℤ (since now last) (minimum_interval ha.spec.failover)))
        (return false))

  -- isFailoverAllowed
  unfoldable pub is_failover_allowed : Go Bool
  unfolding too_soon
  is_failover_allowed = function (do
    ha ← gets (λ ha. ha)
    if is_true ha.spec.replication.automatic_failover
        then (if is_busy ha
            then return false
            else (do early ← call too_soon; if early then return false else return true))
        else return false)

  reject : Body Outcome Outcome
  reject = do _ ← call (emit warning "FailoverRejected"); return no_requeue

  start_failover : Body Outcome Outcome
  start_failover = do
    modify (λ ha. record ha { status = record ha.status { phase = failover } })
    _ ← call (emit normal "ManualFailoverStarted")
    refused ← call (update_status env)
    check refused
    return requeue_now

  -- ManualFailover
  unfoldable pub manual_failover : Go Outcome
  unfolding reject start_failover
  manual_failover = function (do
    ha ← gets (λ ha. ha)
    if is_busy ha then reject else (do
      early ← call too_soon
      if early then reject else (do
        c ← call (check_instance_health env false)
        if is_fit c then start_failover else reject)))
