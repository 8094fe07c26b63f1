-- ===== src/Names.antt =====
-- The names and labels that the controller gives to the objects of a cluster.
pub mod Distinct
use mariadb_ha_operator.Base.{String, ◌<>◌, Bool, [], ◌∷◌, if◌then◌else◌}
use mariadb_ha_operator.StringMap.{StringMap}

-- `instanceType`
abbrev pub instance_type : Bool → String
instance_type is_primary = if is_primary then "primary" else "secondary"

-- fmt.Sprintf("%s-%s", mariadbHA.Name, instanceType)
abbrev pub instance_name : String → Bool → String
instance_name name is_primary = name <> ("-" <> instance_type is_primary)

-- The pod of the StatefulSet's only replica.
abbrev pub pod_name : String → Bool → String
pod_name name is_primary = if is_primary then name <> "-primary-0" else name <> "-secondary-0"

abbrev pub config_name : String → Bool → String
config_name name is_primary = name <> ("-" <> (instance_type is_primary <> "-config"))

abbrev pub cluster_service_name : String → String
cluster_service_name name = name <> "-mariadb"

abbrev pub read_only_service_name : String → String
read_only_service_name name = name <> "-mariadb-ro"

-- The labels of an instance's objects, which are also the selectors of its services.
abbrev pub instance_labels : String → Bool → StringMap
instance_labels name is_primary =
    ("app", "mariadb")
    ∷ ("mariadb.cpf-it.fr/cluster", name)
    ∷ ("mariadb.cpf-it.fr/role", instance_type is_primary)
    ∷ []
