-- ===== src/Config/Effective.antt =====
-- The options that the generated configuration sets.
use mariadb_ha_operator.Base.{
  String, Bool, true, false, Option, List, [], ◌∷◌, ◌++◌, All, string_eq,
}
use mariadb_ha_operator.StringMap.{StringMap}
use mariadb_ha_operator.Config.Reading.{IsName}
use mariadb_ha_operator.Config.{role_lines}

-- What an instance has where the parameters say nothing.
abbrev pub defaults : Bool → StringMap
defaults true =
    ("sync_binlog", "1")
    ∷ ("innodb_flush_log_at_trx_commit", "1")
    ∷ ("server_id", "1")
    ∷ ("log_bin", "mysql-bin")
    ∷ ("collation-server", "utf8mb4_unicode_ci")
    ∷ ("character-set-server", "utf8mb4")
    ∷ []
defaults false =
    ("sync_binlog", "0")
    ∷ ("innodb_flush_log_at_trx_commit", "2")
    ∷ ("read_only", "ON")
    ∷ ("server_id", "2")
    ∷ ("collation-server", "utf8mb4_unicode_ci")
    ∷ ("character-set-server", "utf8mb4")
    ∷ []

abbrev fixed_lines : List String
fixed_lines =
    "[mysqld]" ∷ "character-set-server = utf8mb4" ∷ "collation-server = utf8mb4_unicode_ci" ∷ []

-- No key has a space, as no name of an option has.
abbrev pub AreNames : StringMap → Type 0
AreNames m = All (λ (e : String × String). IsName e.0) m

module _ (k : String) where
  abbrev head : Bool → StringMap → List String
  head p params = fixed_lines ++ role_lines p params
