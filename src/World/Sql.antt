-- ===== src/World/Sql.antt =====
-- What the program says to a MariaDB server, and what it can get back.
use mariadb_ha_operator.Base.{ℕ, String, ℤ, List, Option}

-- `MariaDBConnectionInfo` of internal/controller/health_check.go
pub record MariaDbConnectionInfo : Type 0 where
  pub host : String
  pub port : ℕ
  pub username : String
  pub password : String
  pub database : String

-- `CHANGE MASTER TO` with host, port, user, password, log file and log position
pub record ChangeMaster : Type 0 where
  pub host : String
  pub port : ℕ
  pub user : String
  pub password : String
  pub log_file : String
  pub log_pos : ℤ

-- The statements that the program executes, by what they say.
pub data Statement : Type 0 where
  stop_replica stop_slave reset_slave_all reset_replica_all : Statement
  read_only_on read_only_off : Statement
  install_semi_sync_master enable_semi_sync_master : Statement
  install_semi_sync_slave enable_semi_sync_slave : Statement
  change_master_to : ChangeMaster → Statement
  start_slave start_replica : Statement

pub data Query : Type 0 where
  select_one show_replica_status show_slave_status show_master_status : Query

-- A row: the texts of its columns under their names, `none` for a NULL.
abbrev pub Row : Type 0
Row = List (String × Option String)

-- The first row of an answer: none, or one that can be read or not.
pub data Rows : Type 0 where
  no_rows : Rows
  unreadable : String → Rows
  row : Row → Rows
