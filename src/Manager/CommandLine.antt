-- ===== src/Manager/CommandLine.antt =====
-- The flags of cmd/main.go, as Go's package flag reads them: each argument sets one, and a later one
-- overrides an earlier one.
use mariadb_ha_operator.Base.{
  String, Bool, true, false, Option, none, some, List, [], ◌∷◌, ℕ, ◌==◌, string_eq, if◌then◌else◌,
  ◌||◌,
}

pub record Flags : Type 0 where
  pub metrics_addr : String
  pub probe_addr : String
  pub enable_leader_election : Bool
  pub secure_metrics : Bool
  pub enable_http2 : Bool

abbrev pub default_flags : Flags
default_flags = record {
  metrics_addr = "0";
  probe_addr = ":8081";
  enable_leader_election = false;
  secure_metrics = true;
  enable_http2 = false;
}

-- strconv.ParseBool
unfoldable pub parse_bool : String → Option Bool
parse_bool s =
    if s == "1" || s == "t" || s == "T" || s == "true" || s == "TRUE" || s == "True"
    then some true
    else if s == "0" || s == "f" || s == "F" || s == "false" || s == "FALSE" || s == "False"
    then some false
    else none

-- flag.BoolVar, for the field that `f` sets
unfoldable pub bool_var : String → (Bool → Flags) → Option Flags
bool_var value f = elim (parse_bool value) [ none ↦ none | some b ↦ some (f b) ]

-- What flag.Parse ends with: the flags, or an exit code of the program.
pub data Parsed : Type 0 where
  parsed : Flags → Parsed
  stopped : ℕ → Parsed

-- The flags that other packages define, those of BindFlags of zap's Options and the kubeconfig flag of
-- controller-runtime, take a value or refuse it.
module _ (others : String → Option (String → Bool)) where
  -- One argument; `none` for a flag that is not defined, or a value that it does not take.
  unfoldable pub set_flag : String → String → Flags → Option Flags
  unfolding bool_var
  set_flag name value flags =
      if name == "metrics-bind-address"
      then some (record flags { metrics_addr = value })
      else if name == "health-probe-bind-address"
      then some (record flags { probe_addr = value })
      else if name == "leader-elect"
      then bool_var value (λ b. record flags { enable_leader_election = b })
      else if name == "metrics-secure"
      then bool_var value (λ b. record flags { secure_metrics = b })
      else if name == "enable-http2"
      then bool_var value (λ b. record flags { enable_http2 = b })
      else elim (others name) [
        | none ↦ none
        | some takes ↦ if takes value then some flags else none
      ]

  -- flag.Parse with ExitOnError: 0 for the usage text that -h asks for, 2 for an error.
  unfoldable pub parse_from : Flags → List (String × String) → Parsed
  unfolding set_flag
  parse_from flags [] = parsed flags
  parse_from flags ((name, value) ∷ rest) = elim (set_flag name value flags) [
    | none ↦ stopped (if name == "help" || name == "h" then 0 else 2)
    | some changed ↦ parse_from changed rest
  ]

  abbrev pub parse_flags : List (String × String) → Parsed
  parse_flags = parse_from default_flags
