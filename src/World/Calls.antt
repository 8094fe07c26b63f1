-- ===== src/World/Calls.antt =====
-- The calls to the outside, as actions: each asks the `Env` and is added to the history.
use mariadb_ha_operator.Base.{ℕ, String, ℤ, Bool, Option, none, some}
use mariadb_ha_operator.Api.{Time, MariaDbHa}
use mariadb_ha_operator.Kube.{StatefulSet, Service, ConfigMap, Secret, Pod}
use mariadb_ha_operator.World.Sql.{MariaDbConnectionInfo, Statement, Query, Rows}
use mariadb_ha_operator.World.{
  Error, Result, ok, err, ObjectKey, Kind, stateful_set, service, config_map, secret, pod, Object,
  EventType, Call, Env, State, Go, made,
}

-- The key of an object in the namespace of the MariaDBHA.
abbrev pub key_of : MariaDbHa → String → ObjectKey
key_of ha name = record { namespace = ha.namespace; name = name }

-- r.Recorder.Event
unfoldable pub emit : EventType → String → Go (Unit {0})
emit kind reason s = (tt, made (Call.event kind reason) s)

-- A write of the MariaDBHA: the client decodes the API server's answer into the object in memory.
abbrev pub stored : Result MariaDbHa → State → Option Error × State
stored (ok ha) s = (none, record s { ha = ha })
stored (err e) s = (some e, s)

module _ (env : Env) where
  unfoldable pub fetch_stateful_set : String → Go (Result StatefulSet)
  fetch_stateful_set name s =
      let k = key_of s.ha name in
      (env.get_stateful_set s.history k, made (Call.get stateful_set k) s)

  unfoldable pub fetch_service : String → Go (Result Service)
  fetch_service name s =
      let k = key_of s.ha name in (env.get_service s.history k, made (Call.get service k) s)

  unfoldable pub fetch_config_map : String → Go (Result ConfigMap)
  fetch_config_map name s =
      let k = key_of s.ha name in (env.get_config_map s.history k, made (Call.get config_map k) s)

  unfoldable pub fetch_secret : String → Go (Result Secret)
  fetch_secret name s =
      let k = key_of s.ha name in (env.get_secret s.history k, made (Call.get secret k) s)

  unfoldable pub fetch_pod : String → Go (Result Pod)
  fetch_pod name s = let k = key_of s.ha name in (env.get_pod s.history k, made (Call.get pod k) s)

  unfoldable pub create : Object → Go (Option Error)
  create o s = (env.create s.history o, made (Call.create o) s)

  unfoldable pub update : Object → Go (Option Error)
  update o s = (env.update s.history o, made (Call.update o) s)

  unfoldable pub delete : Kind → ObjectKey → Go (Option Error)
  delete kind k s = (env.delete s.history kind k, made (Call.delete kind k) s)

  unfoldable pub set_controller_reference : Object → Go (Option Error)
  set_controller_reference o s =
      (env.set_controller_reference s.history o, made (Call.set_controller_reference o) s)

  -- r.Update(ctx, mariadbHA)
  unfoldable pub update_mariadb_ha : Go (Option Error)
  update_mariadb_ha s =
      stored (env.update_mariadb_ha s.history s.ha) (made (Call.update_mariadb_ha s.ha) s)

  -- r.Status().Update(ctx, mariadbHA)
  unfoldable pub update_status : Go (Option Error)
  update_status s = stored (env.update_status s.history s.ha) (made (Call.update_status s.ha) s)

  -- net.DialTimeout, `true` for a connection
  unfoldable pub dial : String → ℕ → ℤ → Go Bool
  dial host port timeout s =
      (env.dial s.history host port timeout, made (Call.dial host port timeout) s)

  unfoldable pub sql_open : MariaDbConnectionInfo → Go (Option Error)
  sql_open info s = (env.sql_open s.history info, made (Call.sql_open info) s)

  unfoldable pub sql_ping : MariaDbConnectionInfo → Go (Option Error)
  sql_ping info s = (env.sql_ping s.history info, made (Call.sql_ping info) s)

  unfoldable pub sql_exec : MariaDbConnectionInfo → Statement → Go (Option Error)
  sql_exec info q s = (env.sql_exec s.history info q, made (Call.sql_exec info q) s)

  unfoldable pub sql_query : MariaDbConnectionInfo → Query → Go (Result Rows)
  sql_query info q s = (env.sql_query s.history info q, made (Call.sql_query info q) s)

  -- time.Now
  unfoldable pub read_clock : Go Time
  read_clock s = (env.now s.history, made Call.read_clock s)

-- db.Close
unfoldable pub sql_close : MariaDbConnectionInfo → Go (Unit {0})
sql_close info s = (tt, made (Call.sql_close info) s)

-- `unfolding calls` opens all of them.
unfoldable pub calls : Unit {0}
unfolding emit fetch_stateful_set fetch_service fetch_config_map fetch_secret fetch_pod create
    update delete set_controller_reference update_mariadb_ha update_status dial sql_open sql_ping
    sql_exec sql_query read_clock sql_close
calls = tt
