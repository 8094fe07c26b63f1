-- ===== src/Names/Distinct.antt =====
-- The Services of one cluster have four different names.
use text.Mathlib.TextLemmas.{append_cancel_left}
use mariadb_ha_operator.Base.{◌≡◌, refl, ◌≢◌, String, ◌<>◌, true, false, ◌==◌, string_eq, eq_iff}
use mariadb_ha_operator.Names.{instance_name, cluster_service_name, read_only_service_name}

-- Names with the same beginning differ as their ends do.
ends_differ : (name a b : String) → (a == b) ≡ false → (name <> a) ≢ (name <> b)
ends_differ name a b differ e = let same = (eq_iff a b).1 (append_cancel_left name a b e) in cc

module _ (name : String) where
  pub primary-secondary : instance_name name true ≢ instance_name name false
  primary-secondary = ends_differ name "-primary" "-secondary" refl

  pub primary-cluster : instance_name name true ≢ cluster_service_name name
  primary-cluster = ends_differ name "-primary" "-mariadb" refl

  pub primary-read_only : instance_name name true ≢ read_only_service_name name
  primary-read_only = ends_differ name "-primary" "-mariadb-ro" refl

  pub secondary-cluster : instance_name name false ≢ cluster_service_name name
  secondary-cluster = ends_differ name "-secondary" "-mariadb" refl

  pub secondary-read_only : instance_name name false ≢ read_only_service_name name
  secondary-read_only = ends_differ name "-secondary" "-mariadb-ro" refl

  pub cluster-read_only : cluster_service_name name ≢ read_only_service_name name
  cluster-read_only = ends_differ name "-mariadb" "-mariadb-ro" refl
