-- ===== src/Failover/Allowed/Guards.antt =====
-- The conditions of a failover, stated on their own, and what the two guards make of them.
use mariadb_ha_operator.Base.{
  ℤ, ◌≤ℤ◌, ltb_ℤ, ◌≡◌, refl, ◌≢◌, ◌↔◌, Bool, true, false, not, ◌&&◌, Option, none, some, arith,
  nat_eq,
}
use mariadb_ha_operator.Api.{Time, MariaDbHa, failover, recovering, FailoverConfig}
use mariadb_ha_operator.World.{Env, State}
use mariadb_ha_operator.World.Calls.{calls}
use mariadb_ha_operator.World.Outcome.{flow}
use mariadb_ha_operator.Failover.Promotion.{is_true}
use mariadb_ha_operator.Failover.Allowed.{
  since, minimum_interval, is_busy, too_soon, is_failover_allowed,
}

-- No failover or recovery is under way.
abbrev pub IsIdle : MariaDbHa → Type 0
IsIdle ha = (ha.status.phase ≢ failover) × (ha.status.phase ≢ recovering)

-- At `now` the minimum interval has passed since the last failover, if there was one.
abbrev HasElapsed : Option Time → FailoverConfig → Time → Type 0
HasElapsed none c now = Unit
HasElapsed (some last) c now = minimum_interval c ≤ℤ since now last

abbrev pub IntervalElapsed : MariaDbHa → Time → Type 0
IntervalElapsed ha now = HasElapsed ha.status.last_failover_time ha.spec.failover now

not_less_iff : (a b : ℤ) → (ltb_ℤ a b ≡ false) ↔ (b ≤ℤ a)
not_less_iff a b = ground arith

-- The answer of `too_soon`, from the clock that it reads.
abbrev too_early : Option Time → FailoverConfig → Time → Bool
too_early none c now = false
too_early (some last) c now = ltb_ℤ (since now last) (minimum_interval c)

too_early_iff :
    (o : Option Time) (c : FailoverConfig) (now : Time)
    → (too_early o c now ≡ false) ↔ HasElapsed o c now
too_early_iff none c now = (λ _. tt, λ _. refl)
too_early_iff (some last) c now = not_less_iff (since now last) (minimum_interval c)

pub is_busy_iff : (ha : MariaDbHa) → (is_busy ha ≡ false) ↔ IsIdle ha
is_busy_iff ha = ground arith

module _ (env : Env) (s : State) where
  abbrev early : Bool
  early = too_early s.ha.status.last_failover_time s.ha.spec.failover (env.now s.history)

  pub too_soon-eq-too_early : (too_soon env s).0 ≡ early
  unfolding too_soon calls flow
  too_soon-eq-too_early = ground arith

  pub too_soon_iff : ((too_soon env s).0 ≡ false) ↔ IntervalElapsed s.ha (env.now s.history)
  too_soon_iff =
      rw too_soon-eq-too_early
        (too_early_iff s.ha.status.last_failover_time s.ha.spec.failover (env.now s.history))

  is_failover_allowed-eq :
      (is_failover_allowed env s).0
      ≡ (is_true s.ha.spec.replication.automatic_failover && (not (is_busy s.ha) && not early))
  unfolding is_failover_allowed calls flow
  is_failover_allowed-eq = ground arith

  -- isFailoverAllowed returns true exactly when automatic failover is switched on, no failover or
  -- recovery is under way, and the minimum interval has passed since the last failover, if any.
  pub is_failover_allowed_iff : ((is_failover_allowed env s).0 ≡ true) ↔ (
      (s.ha.spec.replication.automatic_failover ≡ some true)
      × IsIdle s.ha
      × IntervalElapsed s.ha (env.now s.history))
  is_failover_allowed_iff =
      let elapsed =
        too_early_iff s.ha.status.last_failover_time s.ha.spec.failover (env.now s.history) in
      let idle = is_busy_iff s.ha in
      rw is_failover_allowed-eq (
        (λ h. (ground arith, idle.0 (ground arith), elapsed.0 (ground arith))),
        λ h. let e = elapsed.1 h.2 in let i = idle.1 h.1 in ground arith,
      )
