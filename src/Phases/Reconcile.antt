-- ===== src/Phases/Reconcile.antt =====
-- The phases that a whole reconcile call writes, its deletion and its first steps included.
use mariadb_ha_operator.Base.{
  ◌≡◌, refl, subst, sym, Bool, true, false, ◌∷◌, Option, none, some, arith, if◌then◌else◌,
}
use mariadb_ha_operator.Api.{MariaDbHa, Phase, unset, initializing, running, failing, ◌is◌}
use mariadb_ha_operator.World.{
  ok, ObjectKey, mariadb_ha, Env, State, Go, Body, ◌>>=◌, call, History, gets, function, on_some,
  Call,
}
use mariadb_ha_operator.World.Calls.{update_mariadb_ha}
use mariadb_ha_operator.World.Outcome.{Outcome}
use mariadb_ha_operator.World.Laws.{StoresStatus}
use mariadb_ha_operator.World.Keeps.{Keeps, Keeps-call}
use mariadb_ha_operator.World.Keeps.Calls.{IsStable, call_rules, Keeps-update_mariadb_ha}
use mariadb_ha_operator.Health.Checks.{HealthCheckResult}
use mariadb_ha_operator.Deletion.{contains_finalizer, handle_deletion}
use mariadb_ha_operator.Deletion.Keeps.{change-Keeps, handle_deletion-Keeps}
use mariadb_ha_operator.Reconciler.{
  initialize, add_finalizer, reconcile_cluster, reconcile_object, reconcile, begin,
}
use mariadb_ha_operator.Phases.{Within, AllWrites, quiet-Writes}
use mariadb_ha_operator.Phases.Steps.{
  Step, Reachable, here, IsClosed, Reachable-IsClosed, write_phase-Within,
}
use mariadb_ha_operator.Phases.Cluster.{reconcile_cluster-Within}

-- What the state keeps when the object in memory does not matter: the phases that were sent.
record Sent (Q : Phase → Type 0) (s : State) : Type 0 where
  writes : AllWrites Q s.history

module _ (Q : Phase → Type 0) (env : Env) where
  Sent-stable : IsStable (Sent Q)
  Sent-stable = record { after = λ c p s w. record { writes = (quiet-Writes Q c p, w.writes) } }

  update_mariadb_ha-Sent : Keeps (Sent Q) (update_mariadb_ha env)
  update_mariadb_ha-Sent =
      Keeps-update_mariadb_ha env (λ s w. record { writes = (tt, w.writes) })
        (λ s ha w e. record { writes = (tt, w.writes) })

  any_object-Sent :
      (f : MariaDbHa → MariaDbHa) (s : State) → Sent Q s → Sent Q (record s { ha = f s.ha })
  any_object-Sent f s w = record { writes = w.writes }

  handle_deletion-Sent : Keeps (Sent Q) (handle_deletion env)
  handle_deletion-Sent =
      handle_deletion-Keeps env Sent-stable update_mariadb_ha-Sent any_object-Sent

  add_finalizer-Sent : (f : HealthCheckResult → Go Outcome) → Keeps (Sent Q) (add_finalizer env f)
  unfolding add_finalizer
  add_finalizer-Sent f = change-Keeps env Sent-stable update_mariadb_ha-Sent any_object-Sent _ _

module _ (Q : Phase → Type 0) (s : State) where
  Sent-if :
      {A : Type 0} (b : Bool) (m n : Go A)
      → (b ≡ true → Sent Q (m s).1)
      → (b ≡ false → Sent Q (n s).1)
      → Sent Q ((if b then m else n) s).1
  Sent-if true m n p q = p refl
  Sent-if false m n p q = q refl

  Sent-on_some :
      {R A B : Type 0} (o : Option B) (f : B → Body R A) (m : Body R A)
      → ((b : B) → Sent Q (f b s).1)
      → Sent Q (m s).1
      → Sent Q (on_some o f m s).1
  unfolding on_some
  Sent-on_some none f m p q = q
  Sent-on_some (some b) f m p q = p b

module _ (Q : Phase → Type 0) (closed : IsClosed Q) (env : Env) (law : StoresStatus env)
    (handle_primary_failure : HealthCheckResult → Go Outcome)
    (detects : Q running
      → (h : HealthCheckResult) → Keeps (Within Q) (handle_primary_failure h)) where
  initialize-Within : Q initializing → Keeps (Within Q) (initialize env handle_primary_failure)
  unfolding initialize
  initialize-Within q = write_phase-Within Q env law initializing q _ (λ refused. search call_rules)

  starts : (p : Phase) → (p is unset) ≡ true → Q p → Q initializing
  starts unset e q = closed.step Step.initialize q
  starts p e q = ground arith

  weaken : {A : Type 0} (m : Go A) → Keeps (Within Q) m → (s : State) → Within Q s → Sent Q (m s).1
  weaken m k s w = let kept = k.at s w in record { writes = kept.sent }

  begun : (s : State) → Within Q s → Sent Q s
  begun s w = record { writes = w.sent }

  -- The object is initialised or reconciled.
  alive-Sent :
      (s : State)
      → Within Q s
      → Sent Q
          ((if s.ha.status.phase is unset
              then initialize env handle_primary_failure
              else call (reconcile_cluster env handle_primary_failure))
            s).1
  alive-Sent s w =
      Sent-if Q s (s.ha.status.phase is unset) _ _
        (λ e. weaken _ (initialize-Within (starts s.ha.status.phase e w.now)) s w)
        (λ _.
          weaken _
            (Keeps-call _
              (reconcile_cluster-Within Q closed env law handle_primary_failure detects))
            s w)

  reconcile_object-Sent :
      (s : State) → Within Q s → Sent Q (reconcile_object env handle_primary_failure s).1
  unfolding reconcile_object function ◌>>=◌ gets
  reconcile_object-Sent s w =
      Sent-if Q s (contains_finalizer s.ha.finalizers) _ _
        (λ _.
          Sent-on_some Q s s.ha.deletion_timestamp _ _
            (λ t. (Keeps-call _ (handle_deletion-Sent Q env)).at s (begun s w)) (alive-Sent s w))
        (λ _. (add_finalizer-Sent Q env handle_primary_failure).at s (begun s w))

-- The object that the first Get of a reconcile call reads has the phase `p`. Then each phase that the
-- call sends to the API server is reachable from `p` by the steps of the state machine, whatever the
-- API server, the servers and the network answer, if the phases sent before the call are. It is
-- assumed that the API server stores the status that it is sent, and that the missing
-- handlePrimaryFailure moves along the steps too.
pub reconcile-Reachable :
    (env : Env) (handle_primary_failure : HealthCheckResult → Go Outcome)
    → StoresStatus env
    → (key : ObjectKey) (h : History) (ha : MariaDbHa) → env.get_mariadb_ha h key ≡ ok ha
    → AllWrites (Reachable ha.status.phase) h
    → (Reachable ha.status.phase running
        → (health : HealthCheckResult)
        → Keeps (Within (Reachable ha.status.phase)) (handle_primary_failure health))
    → AllWrites (Reachable ha.status.phase) (reconcile env handle_primary_failure key h).1
unfolding reconcile begin
reconcile-Reachable env f law key h ha found before detects =
    subst
      (λ r. AllWrites (Reachable ha.status.phase) (begin env f r (Call.get mariadb_ha key ∷ h)).1)
      (sym found)
      (reconcile_object-Sent (Reachable ha.status.phase) (Reachable-IsClosed _) env law f detects
        (record { ha = ha; history = Call.get mariadb_ha key ∷ h })
        (record { now = here; sent = (tt, before) })).writes

-- No step leaves Failing.
failing-IsClosed : IsClosed (λ q. q ≡ failing)
failing-IsClosed = record { step = leave }
  where
    leave : {p q : Phase} → Step p q → p ≡ failing → q ≡ failing
    leave Step.initialize e = ground arith
    leave Step.start e = ground arith
    leave Step.degrade e = ground arith
    leave Step.repair e = ground arith
    leave Step.lose_primary e = ground arith
    leave Step.lose_degraded e = ground arith
    leave Step.abandon e = refl
    leave Step.promote e = ground arith
    leave Step.recover e = ground arith

-- A MariaDBHA that is read in the phase Failing stays there: every status that the reconcile call
-- sends has that phase, if those sent before the call have it, whatever the API server and the
-- servers answer and whatever the missing handlePrimaryFailure does. It is assumed that the API
-- server stores the status that it is sent.
pub reconcile-failing :
    (env : Env) (handle_primary_failure : HealthCheckResult → Go Outcome)
    → StoresStatus env
    → (key : ObjectKey) (h : History) (ha : MariaDbHa) → env.get_mariadb_ha h key ≡ ok ha
    → ha.status.phase ≡ failing
    → AllWrites (λ q. q ≡ failing) h
    → AllWrites (λ q. q ≡ failing) (reconcile env handle_primary_failure key h).1
unfolding reconcile begin
reconcile-failing env f law key h ha found phase before =
    subst (λ r. AllWrites (λ q. q ≡ failing) (begin env f r (Call.get mariadb_ha key ∷ h)).1)
      (sym found)
      (reconcile_object-Sent (λ q. q ≡ failing) failing-IsClosed env law f (λ e. ground arith)
        (record { ha = ha; history = Call.get mariadb_ha key ∷ h })
        (record { now = phase; sent = (tt, before) })).writes
