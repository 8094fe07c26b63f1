-- ===== src/Services/Settle.antt =====
-- The functions for the four Services, while the API server stores them: each does one round.
use mariadb_ha_operator.Base.{
  ◌≡◌, refl, sym, ◌∙◌, subst, ◌⊎◌, inl, inr, Bool, true, false, none, some, arith, Bool-cases,
}
use mariadb_ha_operator.StringMap.{NodupKeys}
use mariadb_ha_operator.Api.{MariaDbHa}
use mariadb_ha_operator.Kube.{Service}
use mariadb_ha_operator.World.{not_found, Result, ok, err, service_object, Call, Env, State, made}
use mariadb_ha_operator.World.Calls.{key_of, calls}
use mariadb_ha_operator.World.Outcome.{no_requeue, requeue_now, flow}
use mariadb_ha_operator.Services.{
  maps_equal, headless_service, keep_headless, reconcile_headless_service, keep_selector,
  reconcile_client_service,
}
use mariadb_ha_operator.Services.Selectors.{maps_equal_iff}
use mariadb_ha_operator.Services.Store.{key_of_service, Answer, missing, there, StoresServices}
use mariadb_ha_operator.Services.Rounds.{
  Round, wanted, owning, asking, owned_by, owning_kept, asking_kept, idle_Round, created_Round,
  updated_Round,
}

Answer-cases :
    (r : Result Service) → Answer r → (r ≡ err not_found) ⊎ ((svc : Service) × (r ≡ ok svc))
Answer-cases r missing = inl refl
Answer-cases r (there svc) = inr (svc, refl)

module _ (env : Env) (law : StoresServices env) (s : State) where
  module _ (p : Bool) where
    abbrev headless : Service
    headless = headless_service s.ha p

    headless_created :
        env.get_service s.history (key_of_service headless) ≡ err not_found
        → reconcile_headless_service env p s ≡ (
          requeue_now,
          made (Call.create (service_object (owned_by s.ha headless))) (asking headless s),
        )
    unfolding reconcile_headless_service keep_headless calls flow
    headless_created e =
        let own = law.owns s.history (service_object headless) in
        let asked = owning_kept env law s headless (key_of_service headless) ∙ e in
        let accepted =
          law.creates (asking headless s).history (owned_by s.ha headless)
            (asking_kept env law s headless (key_of_service headless) ∙ e) in
        ground arith

    headless_idle :
        (found : Service)
        → env.get_service s.history (key_of_service headless) ≡ ok found
        → reconcile_headless_service env p s ≡ (no_requeue, asking headless s)
    unfolding reconcile_headless_service keep_headless calls flow
    headless_idle found e =
        let own = law.owns s.history (service_object headless) in
        let asked = owning_kept env law s headless (key_of_service headless) ∙ e in ground arith

    pub reconcile_headless_service-Round :
        Round env (wanted env law s headless none) s (reconcile_headless_service env p s)
    reconcile_headless_service-Round =
        elim (Answer-cases _ (law.answers s.history (key_of_service headless))) [
          | inl e ↦
              rw (headless_created e) (created_Round env law s headless none (λ found same. tt) e)
          | inr (found, e) ↦
              rw (headless_idle found e) (
                idle_Round env law s headless none (record { found = found; read = e; suits = tt }))
        ]

  -- A client service, for any way to build it.
  module _ (build : MariaDbHa → Service)
      (home : key_of s.ha (build s.ha).name ≡ key_of_service (build s.ha))
      (unique : NodupKeys (build s.ha).selector) where
    abbrev client : Service
    client = build s.ha

    asked :
        (r : Result Service)
        → env.get_service s.history (key_of_service client) ≡ r
        → env.get_service (owning client s).history (key_of s.ha client.name) ≡ r
    asked r e =
        owning_kept env law s client (key_of s.ha client.name)
        ∙ subst (λ k. env.get_service s.history k ≡ r) (sym home) e

    client_created :
        env.get_service s.history (key_of_service client) ≡ err not_found
        → reconcile_client_service env build s ≡ (
          requeue_now,
          made (Call.create (service_object (owned_by s.ha client))) (asking client s),
        )
    unfolding reconcile_client_service keep_selector calls flow
    client_created e =
        let own = law.owns s.history (service_object client) in
        let answered = asked (err not_found) e in
        let accepted =
          law.creates (asking client s).history (owned_by s.ha client)
            (asking_kept env law s client (key_of_service client) ∙ e) in
        ground arith

    client_idle :
        (found : Service)
        → env.get_service s.history (key_of_service client) ≡ ok found
        → maps_equal found.selector client.selector ≡ true
        → reconcile_client_service env build s ≡ (no_requeue, asking client s)
    unfolding reconcile_client_service keep_selector calls flow
    client_idle found e same =
        let own = law.owns s.history (service_object client) in
        let answered = asked (ok found) e in ground arith

    client_updated :
        (found : Service)
        → env.get_service s.history (key_of_service client) ≡ ok found
        → maps_equal found.selector client.selector ≡ false
        → reconcile_client_service env build s ≡ (
          requeue_now,
          made
              (Call.update (service_object (record found { selector = client.selector })))
              (asking client s),
        )
    unfolding reconcile_client_service keep_selector calls flow
    client_updated found e other =
        let own = law.owns s.history (service_object client) in
        let answered = asked (ok found) e in
        let new = record found { selector = client.selector } in
        let same = law.named s.history (key_of_service client) found e in
        let accepted = law.updates (asking client s).history new found (
          subst (λ k. env.get_service (asking client s).history k ≡ ok found) (sym same)
            (asking_kept env law s client (key_of_service client) ∙ e)) in
        ground arith

    suits :
        (found : Service)
        → found.selector ≡ client.selector
        → maps_equal found.selector client.selector ≡ true
    suits found e =
        subst (λ m. maps_equal m client.selector ≡ true) (sym e)
          ((maps_equal_iff client.selector client.selector unique unique).1 (λ k. refl))

    pub reconcile_client_service-Round :
        Round env
          (wanted env law s client (some client.selector))
          s
          (reconcile_client_service env build s)
    reconcile_client_service-Round =
        elim (Answer-cases _ (law.answers s.history (key_of_service client))) [
          | inl e ↦
              rw (client_created e) (created_Round env law s client (some client.selector) suits e)
          | inr (found, e) ↦ elim (Bool-cases (maps_equal found.selector client.selector)) [
            | inl same ↦ rw (client_idle found e same) (
                idle_Round env law s client (some client.selector)
                  (record { found = found; read = e; suits = same }))
            | inr other ↦
                rw (client_updated found e other)
                  (updated_Round env law s client (some client.selector) found suits e (λ y. cc))
          ]
        ]
