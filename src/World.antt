-- ===== src/World.antt =====
-- The program's interaction with what it does not implement. A Go function of the controller is an
-- action on the `MariaDbHa` in memory and on the history of the calls that were made so far. What
-- the Kubernetes API, the database servers, the network and the clock answer is an argument, an
-- `Env`: any function of that history, so that nothing is assumed of the order of other events.
-- The Recorder's events are calls with their type and reason; log lines are not modelled.
pub mod Sql
pub mod Calls
pub mod Outcome
pub mod Laws
pub mod Frame
pub mod Keeps
pub mod Alike
pub mod Answers
pub mod Ensures
pub mod Ask
pub mod InPhase
use mariadb_ha_operator.Base.{
  ℕ, String, ◌<>◌, ℤ, Bool, true, false, Option, none, some, List, ◌∷◌, if◌then◌else◌,
}
use mariadb_ha_operator.StringMap.{StringMap}
use mariadb_ha_operator.Api.{Opaque, Time, MariaDbHa}
use mariadb_ha_operator.Kube.{StatefulSet, Service, ConfigMap, Secret, Pod}
use Sql.{MariaDbConnectionInfo, Statement, Query, Rows}

pub data Error : Type 0 where
  not_found : Error
  other : String → Error
  wrapped : String → Error → Error
  -- A panic, which controller-runtime turns into the error of the reconcile call.
  panicked : String → Error

-- `(T, error)`
pub data Result {ℓ} (A : Type ℓ) : Type ℓ where
  ok : A → Result A
  err : Error → Result A

-- errors.IsNotFound
abbrev pub is_not_found : Error → Bool
is_not_found not_found = true
is_not_found _ = false

pub record ObjectKey : Type 0 where
  pub namespace : String
  pub name : String

pub data Kind : Type 0 where
  mariadb_ha stateful_set service config_map secret pod : Kind

pub data Object : Type 0 where
  stateful_set_object : StatefulSet → Object
  service_object : Service → Object
  config_map_object : ConfigMap → Object

pub data EventType : Type 0 where
  normal warning : EventType

pub data Call : Type 0 where
  get : Kind → ObjectKey → Call
  create update : Object → Call
  delete : Kind → ObjectKey → Call
  set_controller_reference : Object → Call
  update_mariadb_ha update_status : MariaDbHa → Call
  event : EventType → String → Call
  dial : String → ℕ → ℤ → Call
  sql_open sql_ping sql_close : MariaDbConnectionInfo → Call
  sql_exec : MariaDbConnectionInfo → Statement → Call
  sql_query : MariaDbConnectionInfo → Query → Call
  read_clock : Call

-- The newest call stands first.
abbrev pub History : Type 0
History = List Call

-- The answers. A written MariaDBHA comes back as the API server stored it; `none` is success.
pub record Env : Type 0 where
  pub get_mariadb_ha : History → ObjectKey → Result MariaDbHa
  pub get_stateful_set : History → ObjectKey → Result StatefulSet
  pub get_service : History → ObjectKey → Result Service
  pub get_config_map : History → ObjectKey → Result ConfigMap
  pub get_secret : History → ObjectKey → Result Secret
  pub get_pod : History → ObjectKey → Result Pod
  pub create : History → Object → Option Error
  pub update : History → Object → Option Error
  pub delete : History → Kind → ObjectKey → Option Error
  pub set_controller_reference : History → Object → Option Error
  pub update_mariadb_ha : History → MariaDbHa → Result MariaDbHa
  pub update_status : History → MariaDbHa → Result MariaDbHa
  pub dial : History → String → ℕ → ℤ → Bool
  pub sql_open : History → MariaDbConnectionInfo → Option Error
  pub sql_ping : History → MariaDbConnectionInfo → Option Error
  pub sql_exec : History → MariaDbConnectionInfo → Statement → Option Error
  pub sql_query : History → MariaDbConnectionInfo → Query → Result Rows
  pub now : History → Time
  -- The order in which a `range` loop goes through a map.
  pub range : History → StringMap → StringMap
  -- resource.ParseQuantity, `none` where it fails
  pub parse_quantity : String → Option Opaque

pub record State : Type 0 where
  pub ha : MariaDbHa
  pub history : History

-- A Go function, with its arguments given.
abbrev pub Go : Type 0 → Type 0
Go A = State → A × State

-- The statements of a function that returns `R`: they go on with an `A`, or have returned.
pub data Flow (R A : Type 0) : Type 0 where
  next : A → Flow R A
  exit : R → Flow R A

abbrev pub Body : Type 0 → Type 0 → Type 0
Body R A = State → Flow R A × State

abbrev pub continue : {R A B : Type 0} → Flow R A → (A → Body R B) → Body R B
continue (next a) f s = f a s
continue (exit r) f s = (exit r, s)

infixl 5 ◌>>=◌ ◌>>◌
unfoldable pub ◌>>=◌ : {R A B : Type 0} → Body R A → (A → Body R B) → Body R B
◌>>=◌ m f s = let (a, s') = m s in continue a f s'

abbrev pub ◌>>◌ : {R B : Type 0} → Body R (Unit {0}) → Body R B → Body R B
m >> k = m >>= λ _. k

unfoldable pub return : {R A : Type 0} → R → Body R A
return r s = (exit r, s)

unfoldable pub pass : {R : Type 0} → Body R (Unit {0})
pass s = (next tt, s)

-- A call of another function, or of the outside.
unfoldable pub call : {R A : Type 0} → Go A → Body R A
call m s = let (a, s') = m s in (next a, s')

abbrev pub merge : {R : Type 0} → Flow R R → R
merge (next r) = r
merge (exit r) = r

-- The function whose statements are `b`.
unfoldable pub function : {R : Type 0} → Body R R → Go R
function b s = let (r, s') = b s in (merge r, s')

-- `defer d` in a function whose other statements are `m`.
unfoldable pub deferring : {R : Type 0} → Go (Unit {0}) → Go R → Go R
deferring d m s = let (r, s') = m s in (r, (d s').1)

unfoldable pub gets : {R A : Type 0} → (MariaDbHa → A) → Body R A
gets f s = (next (f s.ha), s)

unfoldable pub modify : {R : Type 0} → (MariaDbHa → MariaDbHa) → Body R (Unit {0})
modify f s = (next tt, record s { ha = f s.ha })

-- `if p != nil { … *p … } else { … }`, for an error too
unfoldable pub on_some : {R A B : Type 0} → Option B → (B → Body R A) → Body R A → Body R A
on_some none f m = m
on_some (some b) f m = f b

-- `v, err := …; if err != nil { … err … } else { … v … }`
unfoldable pub on_result :
    {R A B : Type 0} → Result B → (Error → Body R A) → (B → Body R A) → Body R A
on_result (err e) f g = f e
on_result (ok b) f g = g b

abbrev pub made : Call → State → State
made c s = record s { history = c ∷ s.history }

-- `unfolding statements` opens the ways to build a function.
unfoldable pub statements : Unit {0}
unfolding ◌>>=◌ return pass call function deferring gets modify on_some on_result
statements = tt
