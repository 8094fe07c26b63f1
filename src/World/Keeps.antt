-- ===== src/World/Keeps.antt =====
-- Invariants of actions, one rule for each way to build an action. An action keeps a predicate on
-- states if the state that it leaves has it whenever the state that it found has.
pub mod Calls
use mariadb_ha_operator.Base.{◌≡◌, refl, Bool, true, false, Option, none, some, if◌then◌else◌}
use mariadb_ha_operator.StringMap.{StringMap}
use mariadb_ha_operator.Api.{MariaDbHa}
use mariadb_ha_operator.World.{
  Error, Result, ok, err, Call, Env, State, Go, Body, Flow, next, exit, continue, merge, ◌>>=◌,
  return, pass, call, function, deferring, gets, modify, on_some, on_result, made,
}
use mariadb_ha_operator.World.Outcome.{
  Outcome, check, unwrap, proceed, check_error, try, try_error, ranged,
}

pub record Keeps {A : Type 0} (P : State → Type 0) (m : Go A) : Type 0 where
  pub at : (s : State) → P s → P (m s).1

module _ {P : State → Type 0} {A : Type 0} where
  -- A conditional; each branch may use how the test came out.
  pub Keeps-if :
      (test : Bool) (then_part else_part : Go A)
      → (test ≡ true → Keeps P then_part)
      → (test ≡ false → Keeps P else_part)
      → Keeps P (if test then then_part else else_part)
  Keeps-if false then_part else_part if_so if_not = if_not refl
  Keeps-if true then_part else_part if_so if_not = if_so refl

module _ {P : State → Type 0} {R A : Type 0} where
  pub Keeps-return : (r : R) → Keeps P (return {A = A} r)
  unfolding return
  Keeps-return r = record { at = λ s h. h }

  pub Keeps-gets : (f : MariaDbHa → A) → Keeps P (gets {R = R} f)
  unfolding gets
  Keeps-gets f = record { at = λ s h. h }

  pub Keeps-call : (m : Go A) → Keeps P m → Keeps P (call {R = R} m)
  unfolding call
  Keeps-call m k = record { at = λ s h. k.at s h }

module _ {P : State → Type 0} {R A B : Type 0} where
  pub Keeps-continue :
      (r : Flow R A) (f : A → Body R B) → ((a : A) → Keeps P (f a)) → Keeps P (continue r f)
  Keeps-continue (next a) f k = record { at = λ s h. (k a).at s h }
  Keeps-continue (exit r) f k = record { at = λ s h. h }

  pub Keeps-bind :
      (first : Body R A) (rest : A → Body R B)
      → Keeps P first
      → ((x : A) → Keeps P (rest x))
      → Keeps P (first >>= rest)
  unfolding ◌>>=◌
  Keeps-bind first rest kept rest_kept = record {
    at = λ s holds. (Keeps-continue (first s).0 rest rest_kept).at (first s).1 (kept.at s holds);
  }

  -- What the state is read from has the predicate.
  pub Keeps-bind-gets :
      (f : MariaDbHa → A) (k : A → Body R B)
      → ((s : State) → P s → Keeps P (k (f s.ha)))
      → Keeps P (gets f >>= k)
  unfolding ◌>>=◌ gets
  Keeps-bind-gets f k h = record { at = λ s p. (h s p).at s p }

  pub Keeps-on_some :
      (o : Option B) (f : B → Body R A) (m : Body R A)
      → ((b : B) → Keeps P (f b))
      → Keeps P m
      → Keeps P (on_some o f m)
  unfolding on_some
  Keeps-on_some none f m kf km = km
  Keeps-on_some (some b) f m kf km = kf b

  pub Keeps-on_result :
      (r : Result B) (f : Error → Body R A) (g : B → Body R A)
      → ((e : Error) → Keeps P (f e))
      → ((b : B) → Keeps P (g b))
      → Keeps P (on_result r f g)
  unfolding on_result
  Keeps-on_result (err e) f g kf kg = kf e
  Keeps-on_result (ok b) f g kf kg = kg b

module _ {P : State → Type 0} {R : Type 0} where
  pub Keeps-pass : Keeps P (pass {R = R})
  unfolding pass
  Keeps-pass = record { at = λ s h. h }

  pub Keeps-modify :
      (f : MariaDbHa → MariaDbHa)
      → ((s : State) → P s → P (record s { ha = f s.ha }))
      → Keeps P (modify {R = R} f)
  unfolding modify
  Keeps-modify f k = record { at = k }

  pub Keeps-function : (b : Body R R) → Keeps P b → Keeps P (function b)
  unfolding function
  Keeps-function b k = record { at = λ s h. k.at s h }

  pub Keeps-deferring :
      (d : Go (Unit {0})) (m : Go R) → Keeps P d → Keeps P m → Keeps P (deferring d m)
  unfolding deferring
  Keeps-deferring d m kd km = record { at = λ s h. kd.at (m s).1 (km.at s h) }

module _ {P : State → Type 0} where
  pub Keeps-check : (o : Option Error) → Keeps P (check o)
  unfolding check
  Keeps-check none = Keeps-pass
  Keeps-check (some e) = Keeps-return (Outcome.failed e)

  pub Keeps-check_error : (o : Option Error) → Keeps P (check_error o)
  unfolding check_error
  Keeps-check_error none = Keeps-pass
  Keeps-check_error (some e) = Keeps-return (some e)

  pub Keeps-proceed : (o : Outcome) → Keeps P (proceed o)
  unfolding proceed
  Keeps-proceed (Outcome.failed e) = Keeps-return (Outcome.failed e)
  Keeps-proceed (Outcome.done r) =
      Keeps-if r.requeue _ _ (λ _. Keeps-return (Outcome.done r)) (λ _. Keeps-pass)

  pub Keeps-unwrap : {A : Type 0} (r : Result A) → Keeps P (unwrap r)
  unfolding unwrap
  Keeps-unwrap (ok a) = record { at = λ s h. h }
  Keeps-unwrap (err e) = record { at = λ s h. h }

  pub Keeps-try : {R A : Type 0} (r : Result A) → Keeps P (try {R = R} r)
  unfolding try
  Keeps-try (ok a) = record { at = λ s h. h }
  Keeps-try (err e) = record { at = λ s h. h }

  pub Keeps-try_error : {R : Type 0} (o : Option Error) → Keeps P (try_error {R = R} o)
  unfolding try_error
  Keeps-try_error none = Keeps-pass
  Keeps-try_error (some e) = Keeps-return (err e)

  pub Keeps-ranged : {R : Type 0} (env : Env) (m : StringMap) → Keeps P (ranged {R = R} env m)
  unfolding ranged
  Keeps-ranged env m = record { at = λ s h. h }

pub ruleset keeps_rules = (
  Keeps-return, Keeps-gets, Keeps-call, Keeps-bind, Keeps-if, Keeps-on_some, Keeps-on_result,
  Keeps-pass, Keeps-modify, Keeps-function, Keeps-deferring, Keeps-check, Keeps-check_error,
  Keeps-proceed, Keeps-unwrap, Keeps-try, Keeps-try_error, Keeps-ranged,
)
