-- ===== src/Tests/Store.antt =====
-- An API server that stores the Services, and the functions of internal/controller/service.go on it.
use mariadb_ha_operator.Base.{
  ◌≡◌, ◌≢◌, refl, Bool, true, false, Option, none, some, subst, [], ◌∷◌, ◌&&◌, ◌==◌, string_eq,
  eq_iff, arith, if◌then◌else◌, Bool-cases, inl, inr,
}
use mariadb_ha_operator.Api.{running}
use mariadb_ha_operator.Kube.{Service}
use mariadb_ha_operator.World.{
  not_found, Result, ok, err, ObjectKey, service, service_object, Call, Env, History, State,
}
use mariadb_ha_operator.Services.{reconcile_services}
use mariadb_ha_operator.Services.Store.{
  key_of_service, IsElsewhere, Answer, missing, there, StoresServices,
}
use mariadb_ha_operator.Services.Convergence.{again, Rest, tasks, reconcile_services-settles}
use mariadb_ha_operator.Tests.Data.{env, in_phase}

abbrev same_key : ObjectKey → ObjectKey → Bool
same_key j k = j.namespace == k.namespace && j.name == k.name

-- What a call leaves under which key.
abbrev Write : Type 0
Write = ObjectKey × Result Service

abbrev write_of : Call → Option Write
write_of (Call.create (service_object svc)) = some (key_of_service svc, ok svc)
write_of (Call.update (service_object svc)) = some (key_of_service svc, ok svc)
write_of (Call.delete service j) = some (j, err not_found)
write_of _ = none

abbrev after_write : Option Write → ObjectKey → Result Service → Result Service
after_write none k rest = rest
after_write (some (j, r)) k rest = if same_key j k then r else rest

-- The Service that was written last under the key.
abbrev stored_service : History → ObjectKey → Result Service
stored_service [] k = err not_found
stored_service (c ∷ h) k = let rest = stored_service h k in after_write (write_of c) k rest

abbrev store : Env
store = record env { get_service = stored_service }

same_key_refl : (k : ObjectKey) → same_key k k ≡ true
same_key_refl k = ground (arith, eq_iff k.namespace k.namespace, eq_iff k.name k.name)

same_key_eq : (j k : ObjectKey) → same_key j k ≡ true → j ≡ k
same_key_eq j k e = λ i. record {
  namespace = (eq_iff j.namespace k.namespace).0 (first e) i;
  name = (eq_iff j.name k.name).0 (second e) i;
}
  where
    first : same_key j k ≡ true → (j.namespace == k.namespace) ≡ true
    first e = ground arith

    second : same_key j k ≡ true → (j.name == k.name) ≡ true
    second e = ground arith

same_key_apart : (j k : ObjectKey) → j ≢ k → same_key j k ≡ false
same_key_apart j k apart = elim (Bool-cases (same_key j k)) [
  | inl e ↦ absurd (apart (same_key_eq j k e))
  | inr e ↦ e
]

abbrev IsSound : ObjectKey → Result Service → Type 0
IsSound k r = Answer r × ((svc : Service) → r ≡ ok svc → key_of_service svc ≡ k)

found-IsSound : (svc : Service) → IsSound (key_of_service svc) (ok svc)
found-IsSound svc = (there svc, λ other e. cc)

missing-IsSound : (k : ObjectKey) → IsSound k (err not_found)
missing-IsSound k = (missing, λ other e. cc)

abbrev IsSoundWrite : Option Write → Type 0
IsSoundWrite none = Unit
IsSoundWrite (some (j, r)) = IsSound j r

write_of-IsSound : (c : Call) → IsSoundWrite (write_of c)
write_of-IsSound (Call.create (service_object svc)) = found-IsSound svc
write_of-IsSound (Call.update (service_object svc)) = found-IsSound svc
write_of-IsSound (Call.delete service j) = missing-IsSound j
write_of-IsSound _ = tt

after_write-IsSound :
    (w : Option Write) (k : ObjectKey) (rest : Result Service)
    → IsSoundWrite w
    → IsSound k rest
    → IsSound k (after_write w k rest)
after_write-IsSound none k rest sound h = h
after_write-IsSound (some (j, r)) k rest sound h = elim (Bool-cases (same_key j k)) [
  | inl e ↦ rw e (subst (λ x. IsSound x r) (same_key_eq j k e) sound)
  | inr e ↦ rw e h
]

stored-IsSound : (h : History) (k : ObjectKey) → IsSound k (stored_service h k)
stored-IsSound [] k = missing-IsSound k
stored-IsSound (c ∷ h) k =
    after_write-IsSound (write_of c) k (stored_service h k) (write_of-IsSound c)
      (stored-IsSound h k)

abbrev Misses : ObjectKey → Option Write → Type 0
Misses k none = Unit
Misses k (some (j, r)) = j ≢ k

write_of-Misses : (k : ObjectKey) (c : Call) → IsElsewhere k c → Misses k (write_of c)
write_of-Misses k (Call.create (service_object svc)) e = e
write_of-Misses k (Call.update (service_object svc)) e = e
write_of-Misses k (Call.delete service j) e = e
write_of-Misses k _ e = tt

after_write-missed :
    (w : Option Write) (k : ObjectKey) (rest : Result Service)
    → Misses k w
    → after_write w k rest ≡ rest
after_write-missed none k rest m = refl
after_write-missed (some (j, r)) k rest m = rw (same_key_apart j k m) refl

store-StoresServices : StoresServices store
store-StoresServices = record {
  owns = λ h o. refl;
  answers = λ h k. (stored-IsSound h k).0;
  named = λ h k. (stored-IsSound h k).1;
  kept = λ h c k e. after_write-missed (write_of c) k (stored_service h k) (write_of-Misses k c e);
  creates = λ h svc e. refl;
  created = λ h svc e. record {
    found = svc;
    read = rw (same_key_refl (key_of_service svc)) refl;
    selector = refl;
  };
  updates = λ h svc found e. refl;
  updated = λ h svc e. record {
    found = svc;
    read = rw (same_key_refl (key_of_service svc)) refl;
    selector = refl;
  };
}

abbrev in_store : State
in_store = record { ha = in_phase running; history = [] }

reconcile_services-settles_example :
    Rest store
      (tasks store (in_phase running))
      (in_phase running)
      (again 5 (reconcile_services store) in_store)
reconcile_services-settles_example = reconcile_services-settles store store-StoresServices in_store
