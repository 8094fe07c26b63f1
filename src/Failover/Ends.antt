-- ===== src/Failover/Ends.antt =====
-- The results of `handleFailover`.
use mariadb_ha_operator.Base.{◌≡◌, ◌∷◌, String}
use mariadb_ha_operator.Api.{MariaDbHa}
use mariadb_ha_operator.World.Sql.{MariaDbConnectionInfo}
use mariadb_ha_operator.World.{Error, ok, err, Env, State, History, Call, normal}
use mariadb_ha_operator.World.Outcome.{Outcome, requeue_now, requeue_in}
use mariadb_ha_operator.Failover.Promoted.{IsPromoted}
use mariadb_ha_operator.Failover.TakeOver.{Serves, TookOver}

-- The last write was that of a status, which the API server has stored; an event followed.
pub record IsStored (env : Env) (s : State) : Type 0 where
  pub sent : MariaDbHa
  pub before : History
  pub accepted : env.update_status before sent ≡ ok s.ha
  pub calls : s.history ≡ Call.event normal "FailoverSuccessful" ∷ Call.update_status sent ∷ before

-- The last call was the write of the status, which the API server has refused.
pub record IsRefused (env : Env) (s : State) : Type 0 where
  pub error : Error
  pub before : History
  pub refused : env.update_status before s.ha ≡ err error
  pub calls : s.history ≡ Call.update_status s.ha ∷ before

pub data FailoverResult (env : Env) (primary secondary : String) (s : State)
    : Outcome → Type 0 where
  took_over :
      (info : MariaDbConnectionInfo)
      → IsPromoted env info
      → TookOver primary secondary s
      → IsStored env s
      → FailoverResult env primary secondary s requeue_now
  unwritten :
      (info : MariaDbConnectionInfo)
      → IsPromoted env info
      → TookOver primary secondary s
      → IsRefused env s
      → FailoverResult env primary secondary s (requeue_in 10)
  gave_up : Serves primary secondary s → FailoverResult env primary secondary s (requeue_in 30)
