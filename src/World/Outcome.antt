-- ===== src/World/Outcome.antt =====
-- What a reconcile function returns: a ctrl.Result or an error, and the ways to pass them on.
use mariadb_ha_operator.Base.{ℕ, ◌*◌, Bool, true, false, Option, none, some, if◌then◌else◌}
use mariadb_ha_operator.StringMap.{StringMap}
use mariadb_ha_operator.World.{
  Error, Result, ok, err, Env, Body, next, exit, statements, return, pass,
}

-- ctrl.Result, with its duration in nanoseconds
pub record CtrlResult : Type 0 where
  pub requeue : Bool
  pub requeue_after : ℕ

-- `(ctrl.Result, error)`: an error comes with an empty result.
pub data Outcome : Type 0 where
  done : CtrlResult → Outcome
  failed : Error → Outcome

-- `ctrl.Result{}`, `ctrl.Result{Requeue: true}`, `ctrl.Result{RequeueAfter: n * time.Second}`
abbrev pub no_requeue : Outcome
no_requeue = done (record { requeue = false; requeue_after = 0 })

abbrev pub requeue_now : Outcome
requeue_now = done (record { requeue = true; requeue_after = 0 })

abbrev pub second : ℕ
second = 1000000000

abbrev pub requeue_in : ℕ → Outcome
requeue_in n = done (record { requeue = false; requeue_after = n * second })

-- `if err != nil { return ctrl.Result{}, err }`
unfoldable pub check : Option Error → Body Outcome (Unit {0})
check none = pass
check (some e) = return (failed e)

-- The same behind `v, err := …`.
unfoldable pub unwrap : {A : Type 0} → Result A → Body Outcome A
unwrap (ok a) s = (next a, s)
unwrap (err e) s = (exit (failed e), s)

-- `if err != nil || result.Requeue { return result, err }`
unfoldable pub proceed : Outcome → Body Outcome (Unit {0})
proceed (failed e) = return (failed e)
proceed (done r) = if r.requeue then return (done r) else pass

-- `if err != nil { return err }` where an error alone is returned, `none` for nil.
unfoldable pub check_error : Option Error → Body (Option Error) (Unit {0})
check_error none = pass
check_error (some e) = return (some e)

-- `if err != nil { return nil, err }`
unfoldable pub try : {R A : Type 0} → Result A → Body (Result R) A
try (ok a) s = (next a, s)
try (err e) s = (exit (err e), s)

unfoldable pub try_error : {R : Type 0} → Option Error → Body (Result R) (Unit {0})
try_error none = pass
try_error (some e) = return (err e)

-- `m` as the loop that goes through it sees it.
unfoldable pub ranged : {R : Type 0} → Env → StringMap → Body R StringMap
ranged env m s = (next (env.range s.history m), s)

-- `unfolding flow` opens these and the statements of World.
unfoldable pub flow : Unit {0}
unfolding statements check unwrap proceed check_error try try_error ranged
flow = tt
