-- ===== src/World/Alike.antt =====
-- Functions that do alike with a MariaDBHA in which a field differs that they do not look at: here
-- spec.replication.maxLagSeconds. One rule for each way to build a function.
use mariadb_ha_operator.Base.{
  ◌≡◌, refl, ap, ◌∙◌, ℤ, ℕ, String, Bool, true, false, Option, none, some, if◌then◌else◌,
}
use mariadb_ha_operator.Api.{MariaDbHa}
use mariadb_ha_operator.World.Sql.{MariaDbConnectionInfo, Query}
use mariadb_ha_operator.World.{
  Error, Result, ok, err, Env, State, Go, Body, Flow, next, exit, continue, merge, ◌>>=◌, return,
  pass, call, function, deferring, gets, on_some, on_result,
}
use mariadb_ha_operator.World.Outcome.{try, try_error}
use mariadb_ha_operator.World.Calls.{
  calls, fetch_secret, fetch_pod, dial, sql_open, sql_ping, sql_query, sql_close,
}

-- The object with another limit of the lag, or with none.
abbrev pub limited : Option ℤ → MariaDbHa → MariaDbHa
limited max ha = record ha {
  spec = record ha.spec { replication = record ha.spec.replication { max_lag_seconds = max } };
}

abbrev pub with_limit : Option ℤ → State → State
with_limit max s = record s { ha = limited max s.ha }

-- What `n` does in a state, `m` does in the state with the limit `max`.
pub record Alike (max : Option ℤ) {A : Type 0} (m n : Go A) : Type 0 where
  pub at : (s : State) → m (with_limit max s) ≡ ((n s).0, with_limit max (n s).1)

module _ {max : Option ℤ} {R A : Type 0} where
  pub Alike-return : (r : R) → Alike max (return {A = A} r) (return r)
  unfolding return
  Alike-return r = record { at = λ s. refl }

  pub Alike-call : (m n : Go A) → Alike max m n → Alike max (call {R = R} m) (call n)
  unfolding call
  Alike-call m n k = record { at = λ s. ap (λ (x : A × State). (next x.0, x.1)) (k.at s) }

  pub Alike-if :
      (b : Bool) (m n m' n' : Body R A)
      → Alike max m m'
      → Alike max n n'
      → Alike max (if b then m else n) (if b then m' else n')
  Alike-if true m n m' n' f g = f
  Alike-if false m n m' n' f g = g

  Alike-continue :
      {B : Type 0} (r : Flow R B) (k l : B → Body R A) (s : State)
      → ((b : B) → Alike max (k b) (l b))
      → continue r k (with_limit max s) ≡ ((continue r l s).0, with_limit max (continue r l s).1)
  Alike-continue (next b) k l s f = (f b).at s
  Alike-continue (exit r) k l s f = refl

  pub Alike-bind :
      {B : Type 0} (m n : Body R B) (k l : B → Body R A)
      → Alike max m n
      → ((b : B) → Alike max (k b) (l b))
      → Alike max (m >>= k) (n >>= l)
  unfolding ◌>>=◌
  Alike-bind m n k l a f = record {
    at = λ s.
        ap (λ (x : Flow R _ × State). continue x.0 k x.1) (a.at s)
        ∙ Alike-continue (n s).0 k l (n s).1 f;
  }

  pub Alike-gets :
      {B : Type 0} (g : MariaDbHa → B) (k l : B → Body R A)
      → ((ha : MariaDbHa) → Alike max (k (g (limited max ha))) (l (g ha)))
      → Alike max (gets g >>= k) (gets g >>= l)
  unfolding ◌>>=◌ gets
  Alike-gets g k l f = record { at = λ s. (f s.ha).at s }

  pub Alike-on_some :
      {B : Type 0} (o : Option B) (k l : B → Body R A) (m n : Body R A)
      → ((b : B) → Alike max (k b) (l b))
      → Alike max m n
      → Alike max (on_some o k m) (on_some o l n)
  unfolding on_some
  Alike-on_some none k l m n f g = g
  Alike-on_some (some b) k l m n f g = f b

  pub Alike-on_result :
      {B : Type 0} (r : Result B) (k l : Error → Body R A) (k' l' : B → Body R A)
      → ((e : Error) → Alike max (k e) (l e))
      → ((b : B) → Alike max (k' b) (l' b))
      → Alike max (on_result r k k') (on_result r l l')
  unfolding on_result
  Alike-on_result (err e) k l k' l' f g = f e
  Alike-on_result (ok b) k l k' l' f g = g b

module _ {max : Option ℤ} {R : Type 0} where
  pub Alike-pass : Alike max (pass {R = R}) pass
  unfolding pass
  Alike-pass = record { at = λ s. refl }

  pub Alike-function : (b c : Body R R) → Alike max b c → Alike max (function b) (function c)
  unfolding function
  Alike-function b c k = record {
    at = λ s. ap (λ (x : Flow R R × State). (merge x.0, x.1)) (k.at s);
  }

  pub Alike-deferring :
      (d : Go (Unit {0})) (m n : Go R)
      → Alike max d d
      → Alike max m n
      → Alike max (deferring d m) (deferring d n)
  unfolding deferring
  Alike-deferring d m n a k = record {
    at = λ s.
        ap (λ (x : R × State). (x.0, (d x.1).1)) (k.at s)
        ∙ ap (λ (x : Unit {0} × State). ((n s).0, x.1)) (a.at (n s).1);
  }

module _ {max : Option ℤ} (env : Env) where
  pub Alike-fetch_secret : (n : String) → Alike max (fetch_secret env n) (fetch_secret env n)
  unfolding calls
  Alike-fetch_secret n = record { at = λ s. refl }

  pub Alike-fetch_pod : (n : String) → Alike max (fetch_pod env n) (fetch_pod env n)
  unfolding calls
  Alike-fetch_pod n = record { at = λ s. refl }

  pub Alike-dial :
      (host : String) (port : ℕ) (timeout : ℤ)
      → Alike max (dial env host port timeout) (dial env host port timeout)
  unfolding calls
  Alike-dial host port timeout = record { at = λ s. refl }

  pub Alike-sql_open : (i : MariaDbConnectionInfo) → Alike max (sql_open env i) (sql_open env i)
  unfolding calls
  Alike-sql_open i = record { at = λ s. refl }

  pub Alike-sql_ping : (i : MariaDbConnectionInfo) → Alike max (sql_ping env i) (sql_ping env i)
  unfolding calls
  Alike-sql_ping i = record { at = λ s. refl }

  pub Alike-sql_query :
      (i : MariaDbConnectionInfo) (q : Query) → Alike max (sql_query env i q) (sql_query env i q)
  unfolding calls
  Alike-sql_query i q = record { at = λ s. refl }

pub Alike-sql_close :
    {max : Option ℤ} (i : MariaDbConnectionInfo) → Alike max (sql_close i) (sql_close i)
unfolding calls
Alike-sql_close i = record { at = λ s. refl }

module _ {max : Option ℤ} {R : Type 0} where
  pub Alike-try : {A : Type 0} (r : Result A) → Alike max (try {R = R} r) (try r)
  unfolding try return
  Alike-try (ok a) = record { at = λ s. refl }
  Alike-try (err e) = record { at = λ s. refl }

  pub Alike-try_error : (o : Option Error) → Alike max (try_error {R = R} o) (try_error o)
  unfolding try_error return pass
  Alike-try_error none = record { at = λ s. refl }
  Alike-try_error (some e) = record { at = λ s. refl }

pub ruleset alike_rules = (
  Alike-return, Alike-call, Alike-if, Alike-bind, Alike-gets, Alike-on_some, Alike-on_result,
  Alike-pass, Alike-function, Alike-deferring, Alike-fetch_secret, Alike-fetch_pod, Alike-dial,
  Alike-sql_open, Alike-sql_ping, Alike-sql_query, Alike-sql_close, Alike-try, Alike-try_error,
)
