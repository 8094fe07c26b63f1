-- ===== src/Services/Store.antt =====
-- The API server as the store of the Services, while no other client writes them: what its
-- documentation promises of Get, Create and Update.
use mariadb_ha_operator.Base.{◌≡◌, ◌≢◌, none, ◌∷◌}
use mariadb_ha_operator.Kube.{Service}
use mariadb_ha_operator.World.{
  not_found, Result, ok, err, ObjectKey, service, service_object, Object, Call, Env, History,
}

abbrev pub key_of_service : Service → ObjectKey
key_of_service svc = record { namespace = svc.namespace; name = svc.name }

-- The call does not write the Service under the key.
abbrev pub IsElsewhere : ObjectKey → Call → Type 0
IsElsewhere k (Call.create (service_object svc)) = key_of_service svc ≢ k
IsElsewhere k (Call.update (service_object svc)) = key_of_service svc ≢ k
IsElsewhere k (Call.delete service j) = j ≢ k
IsElsewhere k _ = Unit

pub data Answer : Result Service → Type 0 where
  missing : Answer (err not_found)
  there : (svc : Service) → Answer (ok svc)

-- A Service is read with the selector that was written.
pub record Holds (written : Service) (answer : Result Service) : Type 0 where
  pub found : Service
  pub read : answer ≡ ok found
  pub selector : found.selector ≡ written.selector

pub record StoresServices (env : Env) : Type 0 where
  pub owns : (h : History) (o : Object) → env.set_controller_reference h o ≡ none
  pub answers : (h : History) (k : ObjectKey) → Answer (env.get_service h k)
  pub named :
      (h : History) (k : ObjectKey) (svc : Service)
      → env.get_service h k ≡ ok svc
      → key_of_service svc ≡ k
  pub kept :
      (h : History) (c : Call) (k : ObjectKey)
      → IsElsewhere k c
      → env.get_service (c ∷ h) k ≡ env.get_service h k
  pub creates :
      (h : History) (svc : Service)
      → env.get_service h (key_of_service svc) ≡ err not_found
      → env.create h (service_object svc) ≡ none
  pub created :
      (h : History) (svc : Service)
      → env.create h (service_object svc) ≡ none
      → Holds svc (env.get_service (Call.create (service_object svc) ∷ h) (key_of_service svc))
  pub updates :
      (h : History) (svc found : Service)
      → env.get_service h (key_of_service svc) ≡ ok found
      → env.update h (service_object svc) ≡ none
  pub updated :
      (h : History) (svc : Service)
      → env.update h (service_object svc) ≡ none
      → Holds svc (env.get_service (Call.update (service_object svc) ∷ h) (key_of_service svc))
