-- ===== src/Phases/Steps.antt =====
-- The steps between phases that the code of internal/controller takes, and what each part of the
-- reconciliation needs of a set of phases for `Within` to be kept.
use mariadb_ha_operator.Base.{◌≡◌, Bool, true, String, ℤ, Option, some, ◌&&◌, arith}
use mariadb_ha_operator.Api.{
  Phase, unset, initializing, running, failing, failover, recovering, degraded, ◌is◌,
}
use mariadb_ha_operator.World.{Error, Env, State, Body, ◌>>=◌, ◌>>◌, call, modify}
use mariadb_ha_operator.World.Calls.{update_status}
use mariadb_ha_operator.World.Outcome.{Outcome}
use mariadb_ha_operator.World.Laws.{StoresStatus}
use mariadb_ha_operator.World.Frame.{Frame}
use mariadb_ha_operator.World.Keeps.{
  Keeps, Keeps-bind, Keeps-bind-gets, Keeps-call, Keeps-modify, Keeps-if, Keeps-pass, Keeps-check,
  Keeps-on_some,
}
use mariadb_ha_operator.World.Keeps.Calls.{call_rules, Keeps-emit}
use mariadb_ha_operator.StatefulSets.{start_running}
use mariadb_ha_operator.Reconciler.{enter_phase, record_lag}
use mariadb_ha_operator.Sessions.Tolerant.{tolerant-Sessions}
use mariadb_ha_operator.Phases.{Within, Within-stable, Within-tolerant, update_status-Within}

pub data Step : Phase → Phase → Type 0 where
  initialize : Step unset initializing
  start : Step initializing running
  degrade : Step running degraded
  repair : Step degraded running
  -- The two steps that only `handlePrimaryFailure` could take.
  lose_primary : Step running failover
  lose_degraded : Step degraded failover
  abandon : Step failover failing
  promote : Step failover recovering
  recover : Step recovering running

pub data Reachable (p : Phase) : Phase → Type 0 where
  here : Reachable p p
  onward : {q r : Phase} → Reachable p q → Step q r → Reachable p r

pub record IsClosed (Q : Phase → Type 0) : Type 0 where
  pub step : {p q : Phase} → Step p q → Q p → Q q

pub Reachable-IsClosed : (p : Phase) → IsClosed (Reachable p)
Reachable-IsClosed p = record { step = λ st r. onward r st }

module _ (Q : Phase → Type 0) (env : Env) (law : StoresStatus env) where
  -- A phase of the set is written.
  pub moved :
      (p : Phase)
      → Q p
      → (s : State) → Within Q s
      → Within Q (record s { ha = record s.ha { status = record s.ha.status { phase = p } } })
  moved p q s w = record { now = q; sent = w.sent }

  pub Within-Frame : Frame env (Within Q)
  Within-Frame = record {
    stable = Within-stable Q;
    sessions = tolerant-Sessions env (Within-tolerant Q);
    status = update_status-Within Q env law;
    conditions = λ cs s w. record { now = w.now; sent = w.sent };
    lag = λ l s w. record { now = w.now; sent = w.sent };
    annotations = λ m s w. record { now = w.now; sent = w.sent };
  }

  -- `Phase = p; Status().Update`, and what comes after it.
  pub write_phase-Within :
      {A : Type 0} (p : Phase)
      → Q p
      → (k : Option Error → Body Outcome A) → ((e : Option Error) → Keeps (Within Q) (k e))
      → Keeps (Within Q) (
          modify (λ ha. record ha { status = record ha.status { phase = p } })
          >> (call (update_status env) >>= k))
  write_phase-Within p q k kept =
      Keeps-bind _ _ (Keeps-modify _ (moved p q))
        (λ _. Keeps-bind _ _ (Keeps-call _ (update_status-Within Q env law)) kept)

  pub enter_phase-Within :
      (p : Phase)
      → Q p
      → (warns : Bool) (reason : String) → Keeps (Within Q) (enter_phase env p warns reason)
  unfolding enter_phase
  enter_phase-Within p q warns reason = Keeps-bind-gets _ _ (λ s w.
      Keeps-if (s.ha.status.phase is p) _ _ (λ _. Keeps-pass)
        (λ _. Keeps-bind _ _ (Keeps-modify _ (moved p q)) (λ _.
          Keeps-bind _ _ (Keeps-call _ (Keeps-emit _ _ (Within-stable Q))) (λ _.
            Keeps-bind _ _ (Keeps-call _ (update_status-Within Q env law))
              (λ refused. Keeps-check _)))))

  pub record_lag-Within : (l : Option ℤ) → Keeps (Within Q) (record_lag env l)
  unfolding record_lag
  record_lag-Within measured =
      let frame = Within-Frame in
      Keeps-on_some _ _ _
        (λ l.
          Keeps-bind _ _ (Keeps-modify _ (frame.lag (some l)))
            (λ _. Keeps-bind _ _ (Keeps-call _ frame.status) (λ refused. Keeps-check _)))
        Keeps-pass

  module _ (closed : IsClosed Q) where
    starts : (a b : Bool) (p : Phase) → Q p → (a && b && p is initializing) ≡ true → Q running
    starts true true initializing q e = closed.step start q
    starts a b p q e = ground arith

    pub start_running-Within : (a b : Bool) → Keeps (Within Q) (start_running env a b)
    unfolding start_running
    start_running-Within a b = Keeps-bind-gets _ _ (λ s w.
        Keeps-if (a && b && s.ha.status.phase is initializing) _ _
          (λ e.
            write_phase-Within running (starts a b s.ha.status.phase w.now e) _
              (λ o. search call_rules))
          (λ _. search call_rules))
