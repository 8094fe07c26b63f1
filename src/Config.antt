-- ===== src/Config.antt =====
-- The MariaDB configuration of an instance: the helpers of internal/controller/statefulset.go.
pub mod Merge
pub mod Reading
pub mod Effective
use mariadb_ha_operator.Base.{
  String, ◌<>◌, List, [], ◌∷◌, ◌++◌, Option, none, some, Bool, true, false, not, ◌==◌, string_eq,
  if◌then◌else◌,
}
use mariadb_ha_operator.StringMap.{StringMap, contains, insert_all}
use mariadb_ha_operator.Api.{MariaDbConfig, MariaDbHa, SecretReference}

-- `if specific != "" { specific } else { common }`
abbrev pub text_or : String → String → String
text_or specific common = if specific == "" then common else specific

abbrev secret_or : Option SecretReference → Option SecretReference → Option SecretReference
secret_or (some s) common = some s
secret_or none common = common

-- mergeMySQLConfigs
unfoldable pub merge_mysql_configs : MariaDbConfig → MariaDbConfig → MariaDbConfig
merge_mysql_configs common specific = record {
  version = text_or specific.version common.version;
  image = text_or specific.image common.image;
  configuration_parameters =
      insert_all specific.configuration_parameters (insert_all common.configuration_parameters []);
  user_credentials_secret =
      secret_or specific.user_credentials_secret common.user_credentials_secret;
}

-- A default line, written only if the parameters do not set its key.
default_line : String → String → StringMap → List String
default_line k v params = if contains k params then [] else (k <> (" = " <> v)) ∷ []

-- `for k, v := range params { config += fmt.Sprintf("%s = %s\n", k, v) }`
unfoldable param_lines : StringMap → List String
param_lines [] = []
param_lines ((k, v) ∷ params) = (k <> (" = " <> v)) ∷ param_lines params

role_lines : Bool → StringMap → List String
role_lines true params =
    ("# Configuration du serveur primaire" ∷ "log_bin = mysql-bin" ∷ "server_id = 1" ∷ [])
    ++ (default_line "innodb_flush_log_at_trx_commit" "1" params
        ++ default_line "sync_binlog" "1" params)
role_lines false params =
    ("# Configuration du serveur secondaire" ∷ "server_id = 2" ∷ "read_only = ON" ∷ [])
    ++ (default_line "innodb_flush_log_at_trx_commit" "2" params
        ++ default_line "sync_binlog" "0" params)

-- The lines of generateMariaDBConfig. `order` is `params` in the order of this `range` loop.
unfoldable pub config_lines : Bool → StringMap → StringMap → List String
unfolding default_line param_lines role_lines
config_lines is_primary params order =
    ("[mysqld]" ∷ "character-set-server = utf8mb4" ∷ "collation-server = utf8mb4_unicode_ci" ∷ [])
    ++ (role_lines is_primary params ++ param_lines order)

-- Every line ends with a newline.
unfoldable pub join_lines : List String → String
join_lines [] = ""
join_lines (l ∷ ls) = l <> ("\n" <> join_lines ls)

-- generateMariaDBConfig
unfoldable pub generate_mariadb_config : Bool → StringMap → StringMap → String
unfolding config_lines join_lines
generate_mariadb_config is_primary params order = join_lines (config_lines is_primary params order)

-- `replicationUser`
abbrev pub replication_user : MariaDbHa → String
replication_user ha = text_or ha.spec.replication.user "replicator"

-- generateInitScript
unfoldable pub generate_init_script : Bool → MariaDbHa → String
unfolding join_lines
generate_init_script is_primary ha = join_lines (
    "-- Script d'initialisation MariaDB"
    ∷ (if is_primary
        then "-- Création de l'utilisateur de réplication"
          ∷ ("CREATE USER IF NOT EXISTS '"
              <> (replication_user ha <> "'@'%' IDENTIFIED BY '${MARIADB_REPLICATION_PASSWORD}';"))
          ∷ ("GRANT REPLICATION SLAVE ON *.* TO '" <> (replication_user ha <> "'@'%';"))
          ∷ "FLUSH PRIVILEGES;"
          ∷ []
        else []))
