-- ===== src/Reconciler/Course.antt =====
-- The course of a reconciliation of the cluster: where it stops, and what is in place when it comes to
-- the phase.
use mariadb_ha_operator.Base.{
  ◌≡◌, refl, sym, ap, subst, ◌⊎◌, inl, inr, ◌<◌, true, false, if◌then◌else◌, Bool-cases, arith,
}
use mariadb_ha_operator.World.{Env, State, Go, return, pass}
use mariadb_ha_operator.World.Outcome.{Outcome, done, failed, no_requeue, proceed, flow}
use mariadb_ha_operator.World.Laws.{StoresStatus}
use mariadb_ha_operator.World.Ask.{proceeds}
use mariadb_ha_operator.Health.Checks.{HealthCheckResult}
use mariadb_ha_operator.StatefulSets.{reconcile_stateful_sets}
use mariadb_ha_operator.StatefulSets.Running.{AreInOrder, reconcile_stateful_sets-Q}
use mariadb_ha_operator.Services.{reconcile_services}
use mariadb_ha_operator.Replication.Reconcile.{reconcile_replication}
use mariadb_ha_operator.Replication.Configured.{
  IsReplicated, delay, reconcile_replication-IsReplicated,
}
use mariadb_ha_operator.Reconciler.{by_phase, reconcile_cluster}

-- A function returns this, in this state.
abbrev pub Runs : Go Outcome → State → Outcome → State → Type 0
Runs m s o t = m s ≡ (o, t)

proceed-stops : (o : Outcome) → proceeds o ≡ false → proceed o ≡ return o
unfolding proceed
proceed-stops (failed x) e = refl
proceed-stops (done r) e =
    let asks : r.requeue ≡ true = ground arith in ap (λ b. if b then return (done r) else pass) asks

proceed-goes : (o : Outcome) → proceeds o ≡ true → proceed o ≡ pass
unfolding proceed
proceed-goes (failed x) e = cc
proceed-goes (done r) e =
    let rests : r.requeue ≡ false = ground arith in
    ap (λ b. if b then return (done r) else pass) rests

rest-cases : (o : Outcome) → proceeds o ≡ true → (o ≡ no_requeue) ⊎ (0 < delay o)
rest-cases (failed x) e = cc
rest-cases (done r) e = ground arith

module _ (env : Env) (f : HealthCheckResult → Go Outcome) where
  pub data Course (s : State) : Outcome × State → Type 0 where
    at_sets :
        (o : Outcome) (t : State)
        → Runs (reconcile_stateful_sets env) s o t
        → proceeds o ≡ false
        → Course s (o, t)
    at_services :
        (p : Outcome) (t : State)
        → Runs (reconcile_stateful_sets env) s p t
        → AreInOrder env s.ha t
        → (o : Outcome) (u : State) → Runs (reconcile_services env) t o u
        → proceeds o ≡ false
        → Course s (o, u)
    at_replication :
        (p : Outcome) (t : State)
        → Runs (reconcile_stateful_sets env) s p t
        → AreInOrder env s.ha t
        → (q : Outcome) (u : State) → Runs (reconcile_services env) t q u
        → proceeds q ≡ true
        → (o : Outcome) (v : State) → Runs (reconcile_replication env) u o v
        → proceeds o ≡ false
        → Course s (o, v)
    -- The replication is in place, or has asked for a wait.
    at_phase :
        (p : Outcome) (t : State)
        → Runs (reconcile_stateful_sets env) s p t
        → AreInOrder env s.ha t
        → (q : Outcome) (u : State) → Runs (reconcile_services env) t q u
        → proceeds q ≡ true
        → (o : Outcome) (v : State) → Runs (reconcile_replication env) u o v
        → IsReplicated env u.ha ⊎ (0 < delay o)
        → Course s (by_phase env f v.ha.status.phase v)

  module _ (s : State) where
    abbrev one : Outcome × State
    one = reconcile_stateful_sets env s

    abbrev two : Outcome × State
    two = reconcile_services env one.1

    abbrev three : Outcome × State
    three = reconcile_replication env two.1

    stops_at_sets : proceeds one.0 ≡ false → reconcile_cluster env f s ≡ one
    unfolding reconcile_cluster flow
    stops_at_sets e = rw (proceed-stops one.0 e) refl

    stops_at_services :
        proceeds one.0 ≡ true → proceeds two.0 ≡ false → reconcile_cluster env f s ≡ two
    unfolding reconcile_cluster flow
    stops_at_services e e' = rw (proceed-goes one.0 e, proceed-stops two.0 e') refl

    stops_at_replication :
        proceeds one.0 ≡ true
        → proceeds two.0 ≡ true
        → proceeds three.0 ≡ false
        → reconcile_cluster env f s ≡ three
    unfolding reconcile_cluster flow
    stops_at_replication e e' e'' =
        rw (proceed-goes one.0 e, proceed-goes two.0 e', proceed-stops three.0 e'') refl

    comes_to_phase :
        proceeds one.0 ≡ true
        → proceeds two.0 ≡ true
        → proceeds three.0 ≡ true
        → reconcile_cluster env f s ≡ by_phase env f three.1.ha.status.phase three.1
    unfolding reconcile_cluster flow
    comes_to_phase e e' e'' =
        rw (proceed-goes one.0 e, proceed-goes two.0 e', proceed-goes three.0 e'') refl

in_place_or_waits :
    (env : Env) (u : State)
    → proceeds (reconcile_replication env u).0 ≡ true
    → IsReplicated env u.ha ⊎ (0 < delay (reconcile_replication env u).0)
in_place_or_waits env u e = elim (rest-cases (reconcile_replication env u).0 e) [
  | inl rests ↦ inl (reconcile_replication-IsReplicated env u rests)
  | inr waits ↦ inr waits
]

-- A reconciliation of the cluster stops behind the StatefulSets, the Services or the replication, with
-- what that step has returned, an error or a requeue at once; or it comes to the step for the phase
-- that these have left. Behind the StatefulSets, both of them are in order. When it comes to the phase,
-- the replication is in place, or it has asked to be tried again later, which is then forgotten. This
-- is so whatever the API server and the servers answer; it is assumed that the API server stores the
-- status that it is sent.
pub reconcile_cluster-Course :
    (env : Env) (handle_primary_failure : HealthCheckResult → Go Outcome)
    → StoresStatus env
    → (s : State)
    → Course env handle_primary_failure s (reconcile_cluster env handle_primary_failure s)
reconcile_cluster-Course env f law s =
    let a = reconcile_stateful_sets env s in
    let b = reconcile_services env a.1 in
    let c = reconcile_replication env b.1 in
    let ready = (reconcile_stateful_sets-Q env law s.ha).at s (record { same = refl }) in
    elim (Bool-cases (proceeds a.0)) [
      | inr e ↦ subst (Course env f s) (sym (stops_at_sets env f s e)) (at_sets a.0 a.1 refl e)
      | inl e ↦ elim (Bool-cases (proceeds b.0)) [
        | inr e' ↦
            subst (Course env f s) (sym (stops_at_services env f s e e'))
              (at_services a.0 a.1 refl (ready e) b.0 b.1 refl e')
        | inl e' ↦ elim (Bool-cases (proceeds c.0)) [
          | inr e'' ↦
              subst (Course env f s) (sym (stops_at_replication env f s e e' e''))
                (at_replication a.0 a.1 refl (ready e) b.0 b.1 refl e' c.0 c.1 refl e'')
          | inl e'' ↦ subst (Course env f s) (sym (comes_to_phase env f s e e' e'')) (
              at_phase a.0 a.1 refl (ready e) b.0 b.1 refl e' c.0 c.1 refl
                (in_place_or_waits env b.1 e''))
        ]
      ]
    ]
