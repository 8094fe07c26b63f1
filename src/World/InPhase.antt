-- ===== src/World/InPhase.antt =====
-- The phase of the object in memory.
use mariadb_ha_operator.Base.{◌≡◌, ◌∙◌}
use mariadb_ha_operator.Api.{Phase}
use mariadb_ha_operator.World.{Env, State}
use mariadb_ha_operator.World.Calls.{update_status}
use mariadb_ha_operator.World.Laws.{StoresStatus}
use mariadb_ha_operator.World.Keeps.{Keeps}
use mariadb_ha_operator.World.Keeps.Calls.{IsStable, Keeps-update_status}

pub record IsIn (p : Phase) (s : State) : Type 0 where
  pub phase : s.ha.status.phase ≡ p

pub IsIn-stable : (p : Phase) → IsStable (IsIn p)
IsIn-stable p = record { after = λ c q s w. record { phase = w.phase } }

pub update_status-IsIn :
    (env : Env) → StoresStatus env → (p : Phase) → Keeps (IsIn p) (update_status env)
update_status-IsIn env law p =
    Keeps-update_status env (λ s w. record { phase = w.phase })
      (λ s ha w e. record { phase = law.phase s.history s.ha ha e ∙ w.phase })
