-- ===== src/World/Laws.antt =====
-- What the theorems assume of the API server, each where it is needed, as documented for the
-- Kubernetes API: the answer to a write of the status subresource carries the status that was sent.
-- Times are stored by the second, so the law names the fields that come back as they were written.
use mariadb_ha_operator.Base.{◌≡◌, map}
use mariadb_ha_operator.Api.{MariaDbHa, FailoverEvent}
use mariadb_ha_operator.World.{ok, Env, History}

pub record StoresStatus (env : Env) : Type 0 where
  pub phase :
      (h : History) (sent answer : MariaDbHa)
      → env.update_status h sent ≡ ok answer
      → answer.status.phase ≡ sent.status.phase
  pub current_primary :
      (h : History) (sent answer : MariaDbHa)
      → env.update_status h sent ≡ ok answer
      → answer.status.current_primary ≡ sent.status.current_primary
  pub current_secondary :
      (h : History) (sent answer : MariaDbHa)
      → env.update_status h sent ≡ ok answer
      → answer.status.current_secondary ≡ sent.status.current_secondary
  pub old_primaries :
      (h : History) (sent answer : MariaDbHa)
      → env.update_status h sent ≡ ok answer
      → map (λ (e : FailoverEvent). e.old_primary) answer.status.failover_history
        ≡ map (λ (e : FailoverEvent). e.old_primary) sent.status.failover_history
