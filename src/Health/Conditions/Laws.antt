-- ===== src/Health/Conditions/Laws.antt =====
-- The list of conditions: one entry for each type, and what `put_condition` leaves in it.
use mariadb_ha_operator.Base.{
  ◌≡◌, refl, String, true, false, List, [], ◌∷◌, arith, ◌==◌, string_eq, eq_iff, if◌then◌else◌, ◌≢◌,
  All, Bool-cases, inl, inr, subst,
}
use mariadb_ha_operator.Api.{Condition, ConditionStatus, condition_true, condition_false}
use mariadb_ha_operator.Health.Conditions.{
  is_current, put_condition, is_configured, same_status, replication_active,
}

-- No type of a condition is listed twice.
abbrev pub UniqueKinds : List Condition → Type 0
UniqueKinds [] = Unit
UniqueKinds (c ∷ cs) = All (λ (d : Condition). c.kind ≢ d.kind) cs × UniqueKinds cs

same_status_refl : (s : ConditionStatus) → same_status s s ≡ true
same_status_refl condition_true = refl
same_status_refl condition_false = refl

-- The test that skips a condition that is up to date answers, after the update, as it must for the
-- type that was put, and as before the update for every other type.
pub is_current-put_condition :
    (new : Condition) (kind : String) (status : ConditionStatus) (cs : List Condition)
    → is_current kind status (put_condition new cs)
      ≡ (if new.kind == kind then same_status new.status status else is_current kind status cs)
unfolding is_current put_condition
is_current-put_condition new kind status [] = refl
is_current-put_condition new kind status (c ∷ cs) = ground (
  arith,
  eq_iff c.kind new.kind,
  eq_iff new.kind kind,
  eq_iff c.kind kind,
  is_current-put_condition new kind status cs,
)

put_condition-fresh :
    (new : Condition) (k : String) (cs : List Condition)
    → k ≢ new.kind
    → All (λ (d : Condition). k ≢ d.kind) cs
    → All (λ (d : Condition). k ≢ d.kind) (put_condition new cs)
unfolding put_condition
put_condition-fresh new k [] h fresh = (h, tt)
put_condition-fresh new k (c ∷ cs) h (f, fresh) = elim (Bool-cases (c.kind == new.kind)) [
  | inl e ↦ rw e (h, fresh)
  | inr e ↦ rw e (f, put_condition-fresh new k cs h fresh)
]

-- The update keeps one entry for each type.
pub put_condition-UniqueKinds :
    (new : Condition) (cs : List Condition) → UniqueKinds cs → UniqueKinds (put_condition new cs)
unfolding put_condition
put_condition-UniqueKinds new [] u = (tt, tt)
put_condition-UniqueKinds new (c ∷ cs) (fresh, u) = elim (Bool-cases (c.kind == new.kind)) [
  | inl e ↦
      let same : c.kind ≡ new.kind = (eq_iff c.kind new.kind).0 e in
      rw e (subst (λ k. All (λ (d : Condition). k ≢ d.kind) cs) same fresh, u)
  | inr e ↦
      let other : c.kind ≢ new.kind = ground (arith, eq_iff c.kind new.kind) in
      rw e (put_condition-fresh new c.kind cs other fresh, put_condition-UniqueKinds new cs u)
]

fresh-is_configured :
    (k : String) (cs : List Condition)
    → All (λ (d : Condition). k ≢ d.kind) cs
    → k ≡ replication_active
    → is_configured cs ≡ false
unfolding is_configured
fresh-is_configured k [] fresh e = refl
fresh-is_configured k (c ∷ cs) (f, fresh) e =
    ground (arith, f, eq_iff c.kind replication_active, fresh-is_configured k cs fresh e)

-- Once the replication has been recorded as active, reconcileReplication takes it as configured, and
-- as long as the last word on it is that it is not active, it does not.
pub is_configured-put_condition :
    (new : Condition) (cs : List Condition)
    → UniqueKinds cs
    → is_configured (put_condition new cs) ≡ (
        if new.kind == replication_active
        then same_status new.status condition_true
        else is_configured cs)
unfolding is_configured put_condition
is_configured-put_condition new [] u = ground arith
is_configured-put_condition new (c ∷ cs) (fresh, u) = ground (
  arith,
  eq_iff c.kind new.kind,
  eq_iff c.kind replication_active,
  eq_iff new.kind replication_active,
  is_configured-put_condition new cs u,
  fresh-is_configured c.kind cs fresh,
)
