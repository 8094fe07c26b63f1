-- ===== src/World/Keeps/Calls.antt =====
-- The rules for the calls to the outside. A predicate that does not mind a longer history is kept
-- by all of them but the two writes of the MariaDBHA, and the opening and closing of a database
-- handle, which have rules of their own.
use mariadb_ha_operator.Base.{ℕ, String, ℤ, ◌≡◌, refl}
use mariadb_ha_operator.Api.{MariaDbHa}
use mariadb_ha_operator.World.Sql.{MariaDbConnectionInfo, Statement, Query}
use mariadb_ha_operator.World.{
  Result, ok, err, ObjectKey, Kind, Object, EventType, Call, Env, State, made,
}
use mariadb_ha_operator.World.Calls.{
  stored, emit, fetch_stateful_set, fetch_service, fetch_config_map, fetch_secret, fetch_pod,
  create, update, delete, set_controller_reference, update_mariadb_ha, update_status, dial,
  sql_open, sql_ping, sql_exec, sql_query, sql_close, read_clock,
}
use mariadb_ha_operator.World.Keeps.{Keeps, keeps_rules}

-- A call that neither writes the MariaDBHA nor opens or closes a database handle.
abbrev pub IsQuiet : Call → Type 0
IsQuiet (Call.update_status _) = ⊥
IsQuiet (Call.update_mariadb_ha _) = ⊥
IsQuiet (Call.sql_open _) = ⊥
IsQuiet (Call.sql_close _) = ⊥
IsQuiet _ = Unit

-- One more quiet call in the history does not matter.
pub record IsStable (P : State → Type 0) : Type 0 where
  pub after : (c : Call) → IsQuiet c → (s : State) → P s → P (made c s)

-- Nor does a handle that is opened or closed.
pub record IsTolerant (P : State → Type 0) : Type 0 where
  pub stable : IsStable P
  pub opened : (i : MariaDbConnectionInfo) (s : State) → P s → P (made (Call.sql_open i) s)
  pub closed : (i : MariaDbConnectionInfo) (s : State) → P s → P (made (Call.sql_close i) s)

module _ {P : State → Type 0} where
  pub Keeps-emit : (k : EventType) (r : String) → IsStable P → Keeps P (emit k r)
  unfolding emit
  Keeps-emit k r v = record { at = v.after (Call.event k r) tt }

  pub Keeps-sql_close : (i : MariaDbConnectionInfo) → IsTolerant P → Keeps P (sql_close i)
  unfolding sql_close
  Keeps-sql_close i v = record { at = v.closed i }

Keeps-stored :
    (P : State → Type 0) (r : Result MariaDbHa) (s : State)
    → ((ha : MariaDbHa) → r ≡ ok ha → P (record s { ha = ha }))
    → P s
    → P (stored r s).1
Keeps-stored P (ok ha) s f h = f ha refl
Keeps-stored P (err e) s f h = h

module _ {P : State → Type 0} (env : Env) where
  pub Keeps-fetch_stateful_set : (n : String) → IsStable P → Keeps P (fetch_stateful_set env n)
  unfolding fetch_stateful_set
  Keeps-fetch_stateful_set n v = record { at = λ s. v.after _ tt s }

  pub Keeps-fetch_service : (n : String) → IsStable P → Keeps P (fetch_service env n)
  unfolding fetch_service
  Keeps-fetch_service n v = record { at = λ s. v.after _ tt s }

  pub Keeps-fetch_config_map : (n : String) → IsStable P → Keeps P (fetch_config_map env n)
  unfolding fetch_config_map
  Keeps-fetch_config_map n v = record { at = λ s. v.after _ tt s }

  pub Keeps-fetch_secret : (n : String) → IsStable P → Keeps P (fetch_secret env n)
  unfolding fetch_secret
  Keeps-fetch_secret n v = record { at = λ s. v.after _ tt s }

  pub Keeps-fetch_pod : (n : String) → IsStable P → Keeps P (fetch_pod env n)
  unfolding fetch_pod
  Keeps-fetch_pod n v = record { at = λ s. v.after _ tt s }

  pub Keeps-create : (o : Object) → IsStable P → Keeps P (create env o)
  unfolding create
  Keeps-create o v = record { at = λ s. v.after _ tt s }

  pub Keeps-update : (o : Object) → IsStable P → Keeps P (update env o)
  unfolding update
  Keeps-update o v = record { at = λ s. v.after _ tt s }

  pub Keeps-delete : (k : Kind) (n : ObjectKey) → IsStable P → Keeps P (delete env k n)
  unfolding delete
  Keeps-delete k n v = record { at = λ s. v.after _ tt s }

  pub Keeps-set_controller_reference :
      (o : Object) → IsStable P → Keeps P (set_controller_reference env o)
  unfolding set_controller_reference
  Keeps-set_controller_reference o v = record { at = λ s. v.after _ tt s }

  pub Keeps-dial : (h : String) (p : ℕ) (t : ℤ) → IsStable P → Keeps P (dial env h p t)
  unfolding dial
  Keeps-dial h p t v = record { at = λ s. v.after _ tt s }

  pub Keeps-sql_open : (i : MariaDbConnectionInfo) → IsTolerant P → Keeps P (sql_open env i)
  unfolding sql_open
  Keeps-sql_open i v = record { at = v.opened i }

  pub Keeps-sql_ping : (i : MariaDbConnectionInfo) → IsStable P → Keeps P (sql_ping env i)
  unfolding sql_ping
  Keeps-sql_ping i v = record { at = λ s. v.after _ tt s }

  pub Keeps-sql_exec :
      (i : MariaDbConnectionInfo) (q : Statement) → IsStable P → Keeps P (sql_exec env i q)
  unfolding sql_exec
  Keeps-sql_exec i q v = record { at = λ s. v.after _ tt s }

  pub Keeps-sql_query :
      (i : MariaDbConnectionInfo) (q : Query) → IsStable P → Keeps P (sql_query env i q)
  unfolding sql_query
  Keeps-sql_query i q v = record { at = λ s. v.after _ tt s }

  pub Keeps-read_clock : IsStable P → Keeps P (read_clock env)
  unfolding read_clock
  Keeps-read_clock v = record { at = λ s. v.after _ tt s }

  pub Keeps-update_status :
      ((s : State) → P s → P (made (Call.update_status s.ha) s))
      → ((s : State) (ha : MariaDbHa)
          → P s
          → env.update_status s.history s.ha ≡ ok ha
          → P (record (made (Call.update_status s.ha) s) { ha = ha }))
      → Keeps P (update_status env)
  unfolding update_status
  Keeps-update_status refused accepted = record {
    at = λ s h.
        Keeps-stored P (env.update_status s.history s.ha) (made (Call.update_status s.ha) s)
          (λ ha e. accepted s ha h e) (refused s h);
  }

  pub Keeps-update_mariadb_ha :
      ((s : State) → P s → P (made (Call.update_mariadb_ha s.ha) s))
      → ((s : State) (ha : MariaDbHa)
          → P s
          → env.update_mariadb_ha s.history s.ha ≡ ok ha
          → P (record (made (Call.update_mariadb_ha s.ha) s) { ha = ha }))
      → Keeps P (update_mariadb_ha env)
  unfolding update_mariadb_ha
  Keeps-update_mariadb_ha refused accepted = record {
    at = λ s h.
        Keeps-stored P (env.update_mariadb_ha s.history s.ha) (made (Call.update_mariadb_ha s.ha) s)
          (λ ha e. accepted s ha h e) (refused s h);
  }

pub ruleset call_rules = (
  keeps_rules, Keeps-emit, Keeps-sql_close, Keeps-fetch_stateful_set, Keeps-fetch_service,
  Keeps-fetch_config_map, Keeps-fetch_secret, Keeps-fetch_pod, Keeps-create, Keeps-update,
  Keeps-delete, Keeps-set_controller_reference, Keeps-dial, Keeps-sql_open, Keeps-sql_ping,
  Keeps-sql_exec, Keeps-sql_query, Keeps-read_clock,
)
