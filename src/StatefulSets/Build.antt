-- ===== src/StatefulSets/Build.antt =====
-- `buildStatefulSet` and the comparison with the StatefulSet that exists.
use mariadb_ha_operator.Base.{
  ℕ, String, Bool, true, false, Option, none, some, List, [], ◌∷◌, ◌++◌, ◌&&◌, ◌||◌, not, pos, ◌==◌,
  nat_eq, string_eq, int_eq, if◌then◌else◌,
}
use mariadb_ha_operator.StringMap.{insert_all}
use mariadb_ha_operator.Api.{
  Opaque, MariaDbHa, MariaDbConfig, InstanceConfig, InstancesConfig, SecretReference,
}
use mariadb_ha_operator.Kube.{
  Volume, VolumeMount, literal, secret_key, EnvVar, Probe, Container, StatefulSet,
}
use mariadb_ha_operator.World.{Result, ok, err, panicked}
use mariadb_ha_operator.Names.{instance_type, instance_name, instance_labels}
use mariadb_ha_operator.Config.{text_or}

-- `instanceConfig`
abbrev pub instance_config : InstancesConfig → Bool → InstanceConfig
instance_config is is_primary = if is_primary then is.primary else is.secondary

-- `secretName`, "" where there is no secret
abbrev pub secret_name : Option SecretReference → Option SecretReference → String
secret_name (some s) common = s.name
secret_name none (some s) = s.name
secret_name none none = ""

-- `image`: the instance's, the common one or the default
abbrev pub image_of : MariaDbConfig → MariaDbConfig → String
image_of specific common = text_or specific.image (text_or common.image "mariadb:10.5")

secret_var : String → String → Option Bool → EnvVar
secret_var secret name optional = record { name = name; value = secret_key secret name optional }

env_vars : String → Bool → List EnvVar
unfolding secret_var
env_vars secret is_primary =
    (if secret == ""
      then []
      else secret_var secret "MARIADB_ROOT_PASSWORD" none
        ∷ secret_var secret "MARIADB_USER" (some true)
        ∷ secret_var secret "MARIADB_PASSWORD" (some true)
        ∷ secret_var secret "MARIADB_DATABASE" (some true)
        ∷ [])
    ++ (record { name = "MARIADB_ROLE"; value = literal (instance_type is_primary) } ∷ [])

ping : List String
ping =
    "mysqladmin" ∷ "ping" ∷ "-h" ∷ "localhost" ∷ "-u" ∷ "root" ∷ "-p${MARIADB_ROOT_PASSWORD}" ∷ []

probe : ℕ → ℕ → ℕ → Probe
unfolding ping
probe delay period failures = record {
  command = ping;
  initial_delay_seconds = delay;
  period_seconds = period;
  timeout_seconds = 5;
  success_threshold = 1;
  failure_threshold = failures;
}

-- `volumes`: a `corev1.Volume` that the program builds leaves the file mode out.
abbrev pub volumes_of : String → List Volume
volumes_of config_map =
    record { name = "config"; config_map = config_map; default_mode = none }
    ∷ record { name = "init-scripts"; config_map = config_map; default_mode = none }
    ∷ []

volume_mounts : List VolumeMount
volume_mounts =
    record { name = "data"; mount_path = "/var/lib/mysql" }
    ∷ record { name = "config"; mount_path = "/etc/mysql/conf.d" }
    ∷ record { name = "init-scripts"; mount_path = "/docker-entrypoint-initdb.d" }
    ∷ []

-- getAccessModes
unfoldable pub get_access_modes : List Opaque → List Opaque
get_access_modes [] = "ReadWriteOnce" ∷ []
get_access_modes (m ∷ modes) = m ∷ modes

container_of : MariaDbHa → Bool → InstanceConfig → Container
unfolding env_vars probe volume_mounts
container_of ha is_primary ic = record {
  name = "mariadb";
  image = image_of ic.config ha.spec.instances.common_config;
  image_pull_policy = "IfNotPresent";
  ports = record { name = "mysql"; port = 3306; protocol = "TCP" } ∷ [];
  env =
      env_vars
        (secret_name ic.config.user_credentials_secret
          ha.spec.instances.common_config.user_credentials_secret)
        is_primary;
  resources = ic.resources;
  volume_mounts = volume_mounts;
  readiness_probe = probe 30 10 3;
  liveness_probe = probe 60 20 6;
}

unfoldable pub stateful_set_of : MariaDbHa → Bool → InstanceConfig → String → Opaque → StatefulSet
unfolding container_of get_access_modes
stateful_set_of ha is_primary ic config_map size = record {
  name = instance_name ha.name is_primary;
  namespace = ha.namespace;
  labels = instance_labels ha.name is_primary;
  owner = none;
  resource_version = "";
  replicas = pos 1;
  selector = instance_labels ha.name is_primary;
  service_name = instance_name ha.name is_primary;
  template = record {
    labels = instance_labels ha.name is_primary;
    annotations = insert_all ic.pod_annotations [];
    containers = container_of ha is_primary ic ∷ [];
    volumes = volumes_of config_map;
    node_selector = ic.node_selector;
    tolerations = ic.tolerations;
  };
  volume_claim_templates =
      record {
        name = "data";
        access_modes = get_access_modes ic.storage.access_modes;
        storage = size;
        storage_class_name = ic.storage.storage_class_name;
      }
      ∷ [];
  ready_replicas = pos 0;
}

-- buildStatefulSet; resource.MustParse panics on a size that is no quantity.
unfoldable pub build_stateful_set :
    (String → Option Opaque) → MariaDbHa → Bool → InstanceConfig → String → Result StatefulSet
unfolding stateful_set_of
build_stateful_set parse_quantity ha is_primary ic config_map =
    elim (parse_quantity ic.storage.size) [
      | none ↦ err (panicked "resource.MustParse")
      | some size ↦ ok (stateful_set_of ha is_primary ic config_map size)
    ]

unfoldable pub option_beq : Option ℕ → Option ℕ → Bool
option_beq none none = true
option_beq (some a) (some b) = a == b
option_beq _ _ = false

-- reflect.DeepEqual on volumes
unfoldable pub volumes_equal : List Volume → List Volume → Bool
unfolding option_beq
volumes_equal [] [] = true
volumes_equal (v ∷ vs) (w ∷ ws) =
    v.name == w.name
    && v.config_map == w.config_map
    && option_beq v.default_mode w.default_mode
    && volumes_equal vs ws
volumes_equal _ _ = false

-- The two tests on the first containers, where both sides have one.
unfoldable pub containers_differ : List Container → List Container → Bool
containers_differ (c ∷ _) (d ∷ _) = not (c.image == d.image) || not (c.resources == d.resources)
containers_differ _ _ = false

-- needsUpdate
unfoldable pub needs_update : StatefulSet → StatefulSet → Bool
unfolding containers_differ volumes_equal
needs_update current desired =
    not (current.replicas == desired.replicas)
    || containers_differ current.template.containers desired.template.containers
    || not (volumes_equal current.template.volumes desired.template.volumes)
