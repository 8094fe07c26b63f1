-- ===== src/Api.antt =====
-- The custom resource: api/v1alpha1/mariadbha_types.go, one record for each Go struct.
-- An optional `*int32` or `*bool` is an `Option`, a missing text is "", a nil map or slice is [].
-- `Opaque` stands for the values of Kubernetes API types (resources, tolerations, access modes)
-- that the program copies or compares and never looks into: their serialised text.
use mariadb_ha_operator.Base.{ℕ, String, ℤ, Bool, Option, List, ◌==◌, nat_eq}
use mariadb_ha_operator.StringMap.{StringMap}

abbrev pub Opaque : Type 0
Opaque = String

-- A point of time in nanoseconds.
abbrev pub Time : Type 0
Time = ℕ

pub record SecretReference : Type 0 where
  pub name : String
  pub keys : StringMap

pub record MariaDbConfig : Type 0 where
  pub version : String
  pub image : String
  pub configuration_parameters : StringMap
  pub user_credentials_secret : Option SecretReference

pub record StorageConfig : Type 0 where
  pub storage_class_name : Option String
  pub size : String
  pub access_modes : List Opaque

pub record InstanceConfig : Type 0 where
  pub resources : Opaque
  pub storage : StorageConfig
  pub node_selector : StringMap
  pub tolerations : List Opaque
  pub config : MariaDbConfig
  pub pod_annotations : StringMap

pub record InstancesConfig : Type 0 where
  pub primary : InstanceConfig
  pub secondary : InstanceConfig
  pub common_config : MariaDbConfig

pub record ReplicationConfig : Type 0 where
  pub mode : String
  pub user : String
  pub automatic_failover : Option Bool
  pub max_lag_seconds : Option ℤ
  pub reconnect_retries : Option ℤ

pub record FailureDetectionConfig : Type 0 where
  pub health_check_interval_seconds : Option ℤ
  pub failure_threshold_count : Option ℤ
  pub timeout_seconds : Option ℤ
  pub health_checks : List String

pub record FailoverConfig : Type 0 where
  pub failure_detection : FailureDetectionConfig
  pub promotion_strategy : String
  pub minimum_interval_seconds : Option ℤ
  pub automatic_failback : Option Bool
  pub read_only_mode : Option Bool

pub record MonitoringConfig : Type 0 where
  pub enabled : Option Bool
  pub prometheus_exporter : Option Bool
  pub service_monitor : Option Bool
  pub exporter_image : String

pub record BackupConfig : Type 0 where
  pub enabled : Option Bool
  pub schedule : String
  pub retention_policy : String
  pub storage_location : String

pub record MariaDbHaSpec : Type 0 where
  pub instances : InstancesConfig
  pub replication : ReplicationConfig
  pub failover : FailoverConfig
  pub monitoring : MonitoringConfig
  pub backup : BackupConfig

-- `Status.Phase` holds one of the constants of mariadbha_controller.go, or "" (`unset`).
pub data Phase : Type 0 where
  unset initializing running failing failover recovering degraded maintenance_mode : Phase

abbrev pub phase_code : Phase → ℕ
phase_code unset = 0
phase_code initializing = 1
phase_code running = 2
phase_code failing = 3
phase_code failover = 4
phase_code recovering = 5
phase_code degraded = 6
phase_code maintenance_mode = 7

-- `a == b` and, negated, `a != b` on phases.
infix 50 ◌is◌
abbrev pub ◌is◌ : Phase → Phase → Bool
a is b = phase_code a == phase_code b

-- metav1.ConditionStatus; the program writes and tests these two.
pub data ConditionStatus : Type 0 where
  condition_true condition_false : ConditionStatus

pub record Condition : Type 0 where
  pub kind : String
  pub status : ConditionStatus
  pub reason : String
  pub message : String
  pub last_transition_time : Time

pub record FailoverEvent : Type 0 where
  pub timestamp : Time
  pub reason : String
  pub old_primary : String
  pub new_primary : String
  pub automatic : Bool
  pub duration : Option ℤ

pub record MariaDbHaStatus : Type 0 where
  pub phase : Phase
  pub current_primary : String
  pub current_secondary : String
  pub last_failover_time : Option Time
  pub replication_lag : Option ℤ
  pub conditions : List Condition
  pub failover_history : List FailoverEvent

-- The object, with the fields of its ObjectMeta that the program reads or writes.
pub record MariaDbHa : Type 0 where
  pub name : String
  pub namespace : String
  pub annotations : StringMap
  pub finalizers : List String
  pub deletion_timestamp : Option Time
  pub spec : MariaDbHaSpec
  pub status : MariaDbHaStatus
