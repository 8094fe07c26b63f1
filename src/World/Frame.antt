-- ===== src/World/Frame.antt =====
-- What a predicate on states has to allow for the steps that only keep the conditions, the failure
-- counters and the replication lag up to date.
use mariadb_ha_operator.Base.{ℤ, Option, List}
use mariadb_ha_operator.StringMap.{StringMap}
use mariadb_ha_operator.Api.{MariaDbHa, Condition}
use mariadb_ha_operator.World.{Env, State}
use mariadb_ha_operator.World.Calls.{update_status}
use mariadb_ha_operator.World.Keeps.{Keeps}
use mariadb_ha_operator.World.Keeps.Calls.{IsStable}
use mariadb_ha_operator.Sessions.{Sessions}

abbrev pub with_conditions : List Condition → MariaDbHa → MariaDbHa
with_conditions cs ha = record ha { status = record ha.status { conditions = cs } }

abbrev pub with_lag : Option ℤ → MariaDbHa → MariaDbHa
with_lag lag ha = record ha { status = record ha.status { replication_lag = lag } }

abbrev pub with_annotations : StringMap → MariaDbHa → MariaDbHa
with_annotations m ha = record ha { annotations = m }

pub record Frame (env : Env) (P : State → Type 0) : Type 0 where
  pub stable : IsStable P
  pub sessions : Sessions env P
  pub status : Keeps P (update_status env)
  pub conditions :
      (cs : List Condition) (s : State) → P s → P (record s { ha = with_conditions cs s.ha })
  pub lag : (l : Option ℤ) (s : State) → P s → P (record s { ha = with_lag l s.ha })
  pub annotations :
      (m : StringMap) (s : State) → P s → P (record s { ha = with_annotations m s.ha })
