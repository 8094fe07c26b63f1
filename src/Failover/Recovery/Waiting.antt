-- ===== src/Failover/Recovery/Waiting.antt =====
-- A recovery without the name of an old primary.
use mariadb_ha_operator.Base.{◌≡◌, refl}
use mariadb_ha_operator.World.{Env, State, normal, Call, made}
use mariadb_ha_operator.World.Calls.{calls}
use mariadb_ha_operator.World.Outcome.{requeue_in, flow}
use mariadb_ha_operator.Failover.Recovery.{
  handle_recovery, old_primary_name, create_secondary, create_new_secondary, old_primary_available,
}

-- If the last failover names no old primary, or there was none, handleRecovery only emits an event and
-- asks to be called again: the object in memory is as before, the phase Recovering with it, and no
-- call reaches a server or writes the status.
pub handle_recovery-waits :
    (env : Env) (s : State)
    → old_primary_name s.ha.status.failover_history ≡ ""
    → handle_recovery env s ≡ (requeue_in 10, made (Call.event normal "RecoveryInProgress") s)
unfolding flow calls handle_recovery create_secondary create_new_secondary old_primary_available
handle_recovery-waits env s unnamed = rw unnamed refl
