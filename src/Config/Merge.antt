-- ===== src/Config/Merge.antt =====
-- What the instance's own configuration and the common one make together.
use mathlib.Core.Option.{or_else}
use mariadb_ha_operator.Base.{◌≡◌, refl, String, [], Option, none, some, arith}
use mariadb_ha_operator.StringMap.{lookup, insert_all, NodupKeys}
use mariadb_ha_operator.StringMap.Laws.{lookup-insert_all}
use mariadb_ha_operator.Api.{MariaDbConfig}
use mariadb_ha_operator.Config.{merge_mysql_configs}

or_else-none : (o : Option String) → or_else o none ≡ o
unfolding or_else
or_else-none none = refl
or_else-none (some v) = refl

-- A parameter of the merged configuration is the instance's, if the instance sets its key, and the
-- common one otherwise.
pub lookup-merge_mysql_configs :
    (common specific : MariaDbConfig) (k : String)
    → NodupKeys common.configuration_parameters
    → NodupKeys specific.configuration_parameters
    → lookup k (merge_mysql_configs common specific).configuration_parameters
      ≡ or_else
          (lookup k specific.configuration_parameters)
          (lookup k common.configuration_parameters)
unfolding merge_mysql_configs or_else lookup
lookup-merge_mysql_configs common specific k uc us = grind (
  arith,
  lookup-insert_all k specific.configuration_parameters
      (insert_all common.configuration_parameters []) us,
  lookup-insert_all k common.configuration_parameters [] uc,
  or_else-none (lookup k common.configuration_parameters),
)
