-- ===== src/Health/Connection.antt =====
-- How the controller finds and reaches a MariaDB server.
use mariadb_ha_operator.Base.{
  String, ℤ, pos, Bool, false, Option, none, some, [], ◌∷◌, ◌==◌, string_eq, int_eq, if◌then◌else◌,
}
use mariadb_ha_operator.Decimal.{atoi}
use mariadb_ha_operator.StringMap.{get}
use mariadb_ha_operator.Api.{SecretReference, MariaDbHa}
use mariadb_ha_operator.World.Sql.{
  MariaDbConnectionInfo, Rows, no_rows, unreadable, row, select_one,
}
use mariadb_ha_operator.World.{
  Error, other, wrapped, Result, ok, err, Env, Go, ◌>>=◌, return, call, function, deferring, gets,
  on_some,
}
use mariadb_ha_operator.World.Calls.{
  fetch_secret, fetch_pod, dial, sql_open, sql_ping, sql_close, sql_query,
}
use mariadb_ha_operator.World.Outcome.{try}
use mariadb_ha_operator.Names.{pod_name}
use mariadb_ha_operator.Config.{text_or}
use mariadb_ha_operator.StatefulSets.Build.{instance_config}

-- `secretName`, `usernameKey` and `passwordKey`
pub record Credentials : Type 0 where
  pub secret : String
  pub username_key : String
  pub password_key : String

-- The secret of the instance if it has one, else the common one, else none.
abbrev credentials_secret : MariaDbHa → Bool → Option SecretReference
credentials_secret ha is_primary =
    elim (instance_config ha.spec.instances is_primary).config.user_credentials_secret [
      | some s ↦ some s
      | none ↦ ha.spec.instances.common_config.user_credentials_secret
    ]

credentials_of : Option SecretReference → Credentials
credentials_of none = record {
  secret = "";
  username_key = "MARIADB_USER";
  password_key = "MARIADB_PASSWORD";
}
credentials_of (some s) = record {
  secret = s.name;
  username_key = text_or (get s.keys "username") "MARIADB_USER";
  password_key = text_or (get s.keys "password") "MARIADB_PASSWORD";
}

unfoldable pub credentials : MariaDbHa → Bool → Credentials
unfolding credentials_of
credentials ha is_primary = credentials_of (credentials_secret ha is_primary)

-- sql.Rows.Scan into one int
unfoldable pub scan_int : Result Rows → Result ℤ
scan_int (err e) = err e
scan_int (ok no_rows) = err (other "sql: no rows in result set")
scan_int (ok (unreadable e)) = err (other e)
scan_int (ok (row ((_, none) ∷ []))) = err (other "converting NULL to int is unsupported")
scan_int (ok (row ((_, some v) ∷ []))) =
    let (n, fine) = atoi v in if fine then ok n else err (other "converting driver.Value to int")
scan_int (ok (row _)) = err (other "expected destination arguments in Scan")

unfoldable pub is_one : Result ℤ → Bool
is_one (ok n) = n == pos 1
is_one (err e) = false

module _ (env : Env) where
  -- getMariaDBConnectionInfo
  unfoldable pub get_connection_info : Bool → Go (Result MariaDbConnectionInfo)
  unfolding credentials
  get_connection_info is_primary = function (do
    ha ← gets (λ ha. ha)
    let c = credentials ha is_primary
    if c.secret == ""
        then return (err (other "aucun secret spécifié pour les credentials MariaDB"))
        else (do
          fetched ← call (fetch_secret env c.secret)
          secret ← try fetched
          found ← call (fetch_pod env (pod_name ha.name is_primary))
          pod ← try found
          if pod.pod_ip == ""
              then return (err (other "le pod n'a pas encore d'IP"))
              else return (
                  ok (record {
                    host = pod.pod_ip;
                    port = 3306;
                    username = get secret.contents c.username_key;
                    password = get secret.contents c.password_key;
                    database = "mysql";
                  }))))

  -- checkTCPConnection
  unfoldable pub check_tcp_connection : MariaDbConnectionInfo → ℤ → Go Bool
  check_tcp_connection info timeout = dial env info.host info.port timeout

  -- The statements of checkSQLConnection behind `defer db.Close()`.
  ping_and_select : MariaDbConnectionInfo → Go Bool
  unfolding is_one scan_int
  ping_and_select info = function (do
    refused ← call (sql_ping env info)
    on_some refused (λ e. return false)
        (do rows ← call (sql_query env info select_one); return (is_one (scan_int rows))))

  -- checkSQLConnection
  unfoldable pub check_sql_connection : MariaDbConnectionInfo → Go Bool
  unfolding ping_and_select
  check_sql_connection info = function (do
    refused ← call (sql_open env info)
    on_some refused (λ e. return false) (call (deferring (sql_close info) (ping_and_select info))))

  -- connectToDatabase of internal/controller/failover.go: the handle that it returns is the `info`
  -- that it was given.
  unfoldable pub connect_to_database : MariaDbConnectionInfo → Go (Option Error)
  connect_to_database info = function (do
    refused ← call (sql_open env info)
    on_some refused
        (λ e. return (some (wrapped "impossible d'ouvrir la connexion à la base de données" e)))
        (do
          unanswered ← call (sql_ping env info)
          on_some unanswered
              (λ e. do
                _ ← call (sql_close info)
                return (some (wrapped "impossible d'établir la connexion à la base de données" e)))
              (return none)))
