-- ===== src/Health/Replication.antt =====
-- `checkReplicationStatus`
use mariadb_ha_operator.Base.{
  String, ℤ, pos, to_int32, Bool, Option, none, some, [], ◌∷◌, ◌&&◌, ◌||◌, ◌==◌, string_eq,
  if◌then◌else◌,
}
use mariadb_ha_operator.Decimal.{atoi}
use mariadb_ha_operator.StringMap.{StringMap, get, insert_all}
use mariadb_ha_operator.World.Sql.{
  MariaDbConnectionInfo, Row, Rows, no_rows, unreadable, row, show_replica_status,
  show_slave_status,
}
use mariadb_ha_operator.World.{
  other, Result, ok, err, Env, Go, ◌>>=◌, ◌>>◌, return, call, function, deferring, on_result,
}
use mariadb_ha_operator.World.Calls.{sql_open, sql_close, sql_query}
use mariadb_ha_operator.World.Outcome.{try_error}

pub record ReplicationStatus : Type 0 where
  pub slave_running : Bool
  pub last_io_errno : ℤ
  pub last_sql_errno : ℤ
  pub seconds_behind_master : Option ℤ
  pub io_running : String
  pub sql_running : String

-- `if v != "" { n, _ = strconv.Atoi(v) }`
errno : String → ℤ
errno v = if v == "" then pos 0 else (atoi v).0

-- `sec32 := int32(seconds)` for a text that is a number
seconds : String → Option ℤ
seconds v =
    let (n, fine) = atoi v in
    if v == "" || v == "NULL" then none else if fine then some (to_int32 n) else none

unfoldable pub status_of : StringMap → ReplicationStatus
unfolding errno seconds
status_of d = record {
  slave_running = get d "Slave_IO_Running" == "Yes" && get d "Slave_SQL_Running" == "Yes";
  last_io_errno = errno (get d "Last_IO_Errno");
  last_sql_errno = errno (get d "Last_SQL_Errno");
  seconds_behind_master = seconds (get d "Seconds_Behind_Master");
  io_running = get d "Slave_IO_Running";
  sql_running = get d "Slave_SQL_Running";
}

-- The rows of the answer, the columns of the first one in a map.
-- Each value is scanned into a sql.RawBytes, which is nil for a NULL and "" as a text.
unfoldable pub texts : Row → StringMap
texts [] = []
texts ((name, none) ∷ columns) = (name, "") ∷ texts columns
texts ((name, some v) ∷ columns) = (name, v) ∷ texts columns

unfoldable pub read_status : Rows → Result ReplicationStatus
unfolding status_of texts
read_status no_rows = err (other "pas de réplication configurée")
read_status (unreadable e) = err (other e)
read_status (row columns) = ok (status_of (insert_all (texts columns) []))

read_answer : Result Rows → Result ReplicationStatus
unfolding read_status
read_answer (ok rows) = read_status rows
read_answer (err e) = err e

module _ (env : Env) where
  query_status : MariaDbConnectionInfo → Go (Result ReplicationStatus)
  unfolding read_answer
  query_status info = function (do
    rows ← call (sql_query env info show_replica_status)
    on_result rows
        (λ e. do rows' ← call (sql_query env info show_slave_status); return (read_answer rows'))
        (λ r. return (read_status r)))

  -- checkReplicationStatus
  unfoldable pub check_replication_status : MariaDbConnectionInfo → Go (Result ReplicationStatus)
  unfolding query_status
  check_replication_status info = function (do
    refused ← call (sql_open env info)
    try_error refused
    call (deferring (sql_close info) (query_status info)))
