-- ===== src/Deletion.antt =====
-- `handleDeletion` of internal/controller/mariadbha_controller.go: what goes with a MariaDBHA.
pub mod Deletes
pub mod Gone
pub mod Settled
pub mod Keeps
use mariadb_ha_operator.Base.{
  String, ◌<>◌, Bool, true, false, Option, none, some, List, [], ◌∷◌, ◌==◌, string_eq,
  if◌then◌else◌,
}
use mariadb_ha_operator.Api.{MariaDbHa}
use mariadb_ha_operator.World.{
  Error, not_found, Result, ok, err, is_not_found, Kind, stateful_set, service, config_map, Env, Go,
  Body, ◌>>=◌, ◌>>◌, return, pass, call, function, gets, modify,
}
use mariadb_ha_operator.World.Calls.{
  key_of, fetch_stateful_set, fetch_service, fetch_config_map, delete, update_mariadb_ha,
}
use mariadb_ha_operator.World.Outcome.{Outcome, no_requeue, check, failed}
use mariadb_ha_operator.Names.{
  instance_name, config_name, cluster_service_name, read_only_service_name,
}

abbrev pub finalizer : String
finalizer = "database.cpf-it.fr/finalizer"

-- controllerutil.ContainsFinalizer, AddFinalizer and RemoveFinalizer
abbrev pub contains_finalizer : List String → Bool
contains_finalizer [] = false
contains_finalizer (f ∷ fs) = if f == finalizer then true else contains_finalizer fs

abbrev pub remove_finalizer : List String → List String
remove_finalizer [] = []
remove_finalizer (f ∷ fs) =
    let rest = remove_finalizer fs in if f == finalizer then rest else f ∷ rest

abbrev found : {A : Type 0} → Result A → Bool
found (ok _) = true
found (err _) = false

-- `err != nil && !errors.IsNotFound(err)`
abbrev unless_not_found : Option Error → Option Error
unless_not_found none = none
unless_not_found (some e) = if is_not_found e then none else some e

-- The eight objects, in the order of the source.
abbrev pub owned_objects : String → List (Kind × String)
owned_objects name =
    (stateful_set, instance_name name true)
    ∷ (stateful_set, instance_name name false)
    ∷ (service, instance_name name true)
    ∷ (service, instance_name name false)
    ∷ (service, cluster_service_name name)
    ∷ (service, read_only_service_name name)
    ∷ (config_map, config_name name true)
    ∷ (config_map, config_name name false)
    ∷ []

module _ (env : Env) where
  -- r.Get of one of the eight objects, `true` for a nil error
  unfoldable pub fetch : Kind → String → Go Bool
  fetch stateful_set name = function (do r ← call (fetch_stateful_set env name); return (found r))
  fetch service name = function (do r ← call (fetch_service env name); return (found r))
  fetch _ name = function (do r ← call (fetch_config_map env name); return (found r))

  -- The block that each object has: it is deleted if the Get found it.
  unfoldable pub delete_object : Kind → String → Body Outcome (Unit {0})
  unfolding fetch
  delete_object kind name = do
    there ← call (fetch kind name)
    ha ← gets (λ ha. ha)
    if there
        then (do
          refused ← call (delete env kind (key_of ha name))
          check (unless_not_found refused))
        else pass

  unfoldable pub delete_objects : List (Kind × String) → Body Outcome (Unit {0})
  delete_objects [] = pass
  delete_objects ((kind, name) ∷ objects) = do delete_object kind name; delete_objects objects

  -- handleDeletion
  unfoldable pub handle_deletion : Go Outcome
  handle_deletion = function (do
    ha ← gets (λ ha. ha)
    delete_objects (owned_objects ha.name)
    modify (λ ha. record ha { finalizers = remove_finalizer ha.finalizers })
    refused ← call (update_mariadb_ha env)
    check refused
    return no_requeue)
