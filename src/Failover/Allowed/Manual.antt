-- ===== src/Failover/Allowed/Manual.antt =====
-- What `ManualFailover` does, by its guards.
use mariadb_ha_operator.Base.{◌≡◌, ◌⊎◌, inl, inr, true, false, arith, ◌∷◌, Bool-cases}
use mariadb_ha_operator.Api.{MariaDbHa, failover}
use mariadb_ha_operator.World.{Env, State, Call, normal, warning, made}
use mariadb_ha_operator.World.Calls.{calls}
use mariadb_ha_operator.World.Outcome.{no_requeue, flow}
use mariadb_ha_operator.Health.Checks.{check_instance_health, Checked}
use mariadb_ha_operator.Failover.{is_fit}
use mariadb_ha_operator.Failover.Allowed.{is_busy, too_soon, manual_failover}
use mariadb_ha_operator.Failover.Allowed.Guards.{IsIdle, IntervalElapsed, is_busy_iff, too_soon_iff}

abbrev pub rejection : Call
rejection = Call.event warning "FailoverRejected"

abbrev pub into_failover : MariaDbHa → MariaDbHa
into_failover ha = record ha { status = record ha.status { phase = failover } }

module _ (env : Env) (s : State) where
  -- The health check of the secondary, made behind the two other guards.
  abbrev pub secondary_check : Checked × State
  secondary_check = check_instance_health env false (too_soon env s).1

  busy_rejected : is_busy s.ha ≡ true → manual_failover env s ≡ (no_requeue, made rejection s)
  unfolding manual_failover calls flow
  busy_rejected h = ground arith

  early_rejected :
      is_busy s.ha ≡ false
      → (too_soon env s).0 ≡ true
      → manual_failover env s ≡ (no_requeue, made rejection (too_soon env s).1)
  unfolding manual_failover calls flow
  early_rejected h e = ground arith

  unfit_rejected :
      is_busy s.ha ≡ false
      → (too_soon env s).0 ≡ false
      → is_fit secondary_check.0 ≡ false
      → manual_failover env s ≡ (no_requeue, made rejection secondary_check.1)
  unfolding manual_failover calls flow
  unfit_rejected h e f = ground arith

  started :
      is_busy s.ha ≡ false
      → (too_soon env s).0 ≡ false
      → is_fit secondary_check.0 ≡ true
      → (manual_failover env s).1.history
        ≡ Call.update_status (into_failover secondary_check.1.ha)
          ∷ Call.event normal "ManualFailoverStarted"
          ∷ secondary_check.1.history
  unfolding manual_failover calls flow
  started h e f = ground arith

  -- The call is turned down: an empty result, and the rejection as the last call.
  abbrev pub IsRejected : Type 0
  IsRejected = (t : State) × (manual_failover env s ≡ (no_requeue, made rejection t))

  -- The call goes on, behind the check of the secondary, to write the phase Failover.
  abbrev pub IsStarted : Type 0
  IsStarted =
      (manual_failover env s).1.history
      ≡ Call.update_status (into_failover secondary_check.1.ha)
        ∷ Call.event normal "ManualFailoverStarted"
        ∷ secondary_check.1.history

  -- ManualFailover goes on to announce the failover and to write the phase Failover only where no
  -- failover or recovery is under way, the minimum interval has passed and the secondary passes its
  -- health check; where one of these fails, it returns an empty result with a FailoverRejected event
  -- as its last call.
  pub manual_failover_guarded :
      IsIdle s.ha
        × IntervalElapsed s.ha (env.now s.history)
        × (is_fit secondary_check.0 ≡ true)
        × IsStarted
      ⊎ IsRejected
        × (¬ (
            IsIdle s.ha
            × IntervalElapsed s.ha (env.now s.history)
            × (is_fit secondary_check.0 ≡ true)))
  manual_failover_guarded = elim (Bool-cases (is_busy s.ha)) [
    | inl busy ↦ inr ((s, busy_rejected busy), λ g. cc (busy, (is_busy_iff s.ha).1 g.0))
    | inr idle ↦ elim (Bool-cases (too_soon env s).0) [
      | inl early ↦ inr (
        ((too_soon env s).1, early_rejected idle early),
        λ g. cc (early, (too_soon_iff env s).1 g.1),
      )
      | inr late ↦ elim (Bool-cases (is_fit secondary_check.0)) [
        | inl fit ↦
            inl ((is_busy_iff s.ha).0 idle, (too_soon_iff env s).0 late, fit, started idle late fit)
        | inr unfit ↦
            inr ((secondary_check.1, unfit_rejected idle late unfit), λ g. cc (unfit, g.2))
      ]
    ]
  ]
