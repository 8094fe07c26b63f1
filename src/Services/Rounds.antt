-- ===== src/Services/Rounds.antt =====
-- What one of the functions for a Service does, while the API server stores the Services: nothing,
-- if the Service is there as it should be, or one write.
use mariadb_ha_operator.Base.{
  ◌≡◌, ◌≢◌, refl, sym, ap, ◌∙◌, subst, string_eq, true, Option, none, some, ◌∷◌,
}
use mariadb_ha_operator.StringMap.{StringMap}
use mariadb_ha_operator.Api.{MariaDbHa}
use mariadb_ha_operator.Kube.{Service}
use mariadb_ha_operator.World.{
  not_found, Result, ok, err, ObjectKey, service, service_object, Call, Env, State, History, made,
}
use mariadb_ha_operator.World.Calls.{key_of}
use mariadb_ha_operator.World.Outcome.{Outcome, no_requeue, requeue_now}
use mariadb_ha_operator.Services.{maps_equal}
use mariadb_ha_operator.Services.Store.{key_of_service, StoresServices}

-- The key of a Service and what is asked of the Service under it.
pub record Wanted : Type 0 where
  pub key : ObjectKey
  pub selector : Option StringMap

-- A headless service has to be there, a client service with the selector that mapsEqual accepts.
abbrev pub Suits : Option StringMap → Service → Type 0
Suits none found = Unit
Suits (some selector) found = maps_equal found.selector selector ≡ true

module _ (env : Env) where
  pub record IsSettled (w : Wanted) (h : History) : Type 0 where
    pub found : Service
    pub read : env.get_service h w.key ≡ ok found
    pub suits : Suits w.selector found

  pub data Round (w : Wanted) (s : State) : Outcome × State → Type 0 where
    idle :
        (t : State)
        → IsSettled w s.history
        → t.ha ≡ s.ha
        → ((k : ObjectKey) → env.get_service t.history k ≡ env.get_service s.history k)
        → Round w s (no_requeue, t)
    wrote :
        (t : State)
        → (¬ IsSettled w s.history)
        → IsSettled w t.history
        → t.ha ≡ s.ha
        → ((k : ObjectKey) → w.key ≢ k → env.get_service t.history k ≡ env.get_service s.history k)
        → Round w s (requeue_now, t)

-- The state in which a function asks for its Service, and the one after the answer.
abbrev pub owning : Service → State → State
owning svc s = made (Call.set_controller_reference (service_object svc)) s

abbrev pub asking : Service → State → State
asking svc s = made (Call.get service (key_of s.ha svc.name)) (owning svc s)

-- The service as it is created.
abbrev pub owned_by : MariaDbHa → Service → Service
owned_by ha svc = record svc { owner = some ha.name }

abbrev result_or : {A : Type 0} → A → Result A → A
result_or d (ok a) = a
result_or d (err e) = d

ok-injective : {A : Type 0} {a b : A} → ok a ≡ ok b → a ≡ b
ok-injective {a = a} e = ap (result_or a) e

module _ (env : Env) (law : StoresServices env) (s : State) where
  pub asking_kept :
      (svc : Service) (k : ObjectKey)
      → env.get_service (asking svc s).history k ≡ env.get_service s.history k
  asking_kept svc k =
      law.kept (owning svc s).history (Call.get service (key_of s.ha svc.name)) k tt
      ∙ law.kept s.history (Call.set_controller_reference (service_object svc)) k tt

  pub owning_kept :
      (svc : Service) (k : ObjectKey)
      → env.get_service (owning svc s).history k ≡ env.get_service s.history k
  owning_kept svc k = law.kept s.history (Call.set_controller_reference (service_object svc)) k tt

  -- The three ends of such a function, for the service that it builds.
  module _ (svc : Service) (selector : Option StringMap) where
    abbrev pub wanted : Wanted
    wanted = record { key = key_of_service svc; selector = selector }

    pub idle_Round : IsSettled env wanted s.history → Round env wanted s (no_requeue, asking svc s)
    idle_Round settled = idle (asking svc s) settled refl (asking_kept svc)

    unsettled_missing :
        env.get_service s.history (key_of_service svc) ≡ err not_found
        → ¬ IsSettled env wanted s.history
    unsettled_missing e settled = let read = settled.read in cc

    pub created_Round :
        ((found : Service) → found.selector ≡ svc.selector → Suits selector found)
        → env.get_service s.history (key_of_service svc) ≡ err not_found
        → Round env wanted s
            (requeue_now, made (Call.create (service_object (owned_by s.ha svc))) (asking svc s))
    created_Round suits e =
        let h = (asking svc s).history in
        let absent = asking_kept svc (key_of_service svc) ∙ e in
        let held = law.created h (owned_by s.ha svc) (law.creates h (owned_by s.ha svc) absent) in
        wrote (made (Call.create (service_object (owned_by s.ha svc))) (asking svc s))
          (unsettled_missing e)
          (record { found = held.found; read = held.read; suits = suits held.found held.selector })
          refl
          (λ k apart.
            law.kept h (Call.create (service_object (owned_by s.ha svc))) k apart
            ∙ asking_kept svc k)

    pub updated_Round :
        (found : Service)
        → ((updated : Service) → updated.selector ≡ svc.selector → Suits selector updated)
        → env.get_service s.history (key_of_service svc) ≡ ok found
        → (¬ Suits selector found)
        → Round env wanted s (
          requeue_now,
          made
              (Call.update (service_object (record found { selector = svc.selector })))
              (asking svc s),
        )
    updated_Round found suits e bad =
        let h = (asking svc s).history in
        let new = record found { selector = svc.selector } in
        let same = law.named s.history (key_of_service svc) found e in
        let present =
          subst (λ k. env.get_service h k ≡ ok found) (sym same)
            (asking_kept svc (key_of_service svc) ∙ e) in
        let held = law.updated h new (law.updates h new found present) in
        wrote (made (Call.update (service_object new)) (asking svc s))
          (λ settled.
            bad (subst (Suits selector) (ok-injective (sym settled.read ∙ e)) settled.suits))
          (record {
            found = held.found;
            read =
                subst
                  (λ k. env.get_service (Call.update (service_object new) ∷ h) k ≡ ok held.found)
                  same held.read;
            suits = suits held.found held.selector;
          })
          refl
          (λ k apart.
            law.kept h (Call.update (service_object new)) k (subst (λ j. j ≢ k) (sym same) apart)
            ∙ asking_kept svc k)
