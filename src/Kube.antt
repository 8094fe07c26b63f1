-- ===== src/Kube.antt =====
-- The Kubernetes objects that the program builds or reads, with the fields that it uses.
use mariadb_ha_operator.Base.{ℕ, String, ℤ, Bool, Option, List}
use mariadb_ha_operator.StringMap.{StringMap}
use mariadb_ha_operator.Api.{Opaque}

-- A volume whose source is a ConfigMap; `default_mode` is its optional file mode.
pub record Volume : Type 0 where
  pub name : String
  pub config_map : String
  pub default_mode : Option ℕ

pub record VolumeMount : Type 0 where
  pub name : String
  pub mount_path : String

-- A literal value, or a key of a secret that may be optional.
pub data EnvValue : Type 0 where
  literal : String → EnvValue
  secret_key : String → String → Option Bool → EnvValue

pub record EnvVar : Type 0 where
  pub name : String
  pub value : EnvValue

-- A probe that runs a command.
pub record Probe : Type 0 where
  pub command : List String
  pub initial_delay_seconds : ℕ
  pub period_seconds : ℕ
  pub timeout_seconds : ℕ
  pub success_threshold : ℕ
  pub failure_threshold : ℕ

pub record Port : Type 0 where
  pub name : String
  pub port : ℕ
  pub protocol : String

pub record Container : Type 0 where
  pub name : String
  pub image : String
  pub image_pull_policy : String
  pub ports : List Port
  pub env : List EnvVar
  pub resources : Opaque
  pub volume_mounts : List VolumeMount
  pub readiness_probe : Probe
  pub liveness_probe : Probe

pub record PodTemplate : Type 0 where
  pub labels : StringMap
  pub annotations : StringMap
  pub containers : List Container
  pub volumes : List Volume
  pub node_selector : StringMap
  pub tolerations : List Opaque

-- A PersistentVolumeClaim; `storage` is the parsed quantity.
pub record VolumeClaim : Type 0 where
  pub name : String
  pub access_modes : List Opaque
  pub storage : Opaque
  pub storage_class_name : Option String

pub record StatefulSet : Type 0 where
  pub name : String
  pub namespace : String
  pub labels : StringMap
  pub owner : Option String
  pub resource_version : String
  pub replicas : ℤ
  pub selector : StringMap
  pub service_name : String
  pub template : PodTemplate
  pub volume_claim_templates : List VolumeClaim
  pub ready_replicas : ℤ

-- A service port with its target port.
pub record ServicePort : Type 0 where
  pub name : String
  pub port : ℕ
  pub target_port : ℕ
  pub protocol : String

pub record Service : Type 0 where
  pub name : String
  pub namespace : String
  pub labels : StringMap
  pub annotations : StringMap
  pub owner : Option String
  pub selector : StringMap
  pub cluster_ip : String
  pub kind : String
  pub ports : List ServicePort

pub record ConfigMap : Type 0 where
  pub name : String
  pub namespace : String
  pub labels : StringMap
  pub owner : Option String
  pub contents : StringMap

-- `Secret.Data`; its bytes are read as text.
pub record Secret : Type 0 where
  pub contents : StringMap

pub data PodPhase : Type 0 where
  pod_pending pod_running pod_succeeded pod_failed pod_unknown : PodPhase

pub record Pod : Type 0 where
  pub labels : StringMap
  pub phase : PodPhase
  pub pod_ip : String
