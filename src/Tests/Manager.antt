-- ===== src/Tests/Manager.antt =====
-- The operator with the arguments of config/manager/manager.yaml and manager_metrics_patch.yaml.
use mariadb_ha_operator.Base.{
  ◌≡◌, ◌≢◌, refl, String, Bool, true, false, Option, none, List, [], ◌∷◌, eq_iff, ◌==◌, string_eq,
}
use mariadb_ha_operator.World.{Error}
use mariadb_ha_operator.Manager.CommandLine.{
  Flags, parsed, bool_var, parse_bool, set_flag, parse_from, parse_flags,
}
use mariadb_ha_operator.Manager.{
  Action, add_to_scheme, client_go, scheme_builder, main, manager_options,
}
use mariadb_ha_operator.Manager.Startup.{Takes, Reads, main-Takes}
use mariadb_ha_operator.Manager.Hardened.{IsHardened, AsksNothing, manager_options-IsHardened}

abbrev no_others : String → Option (String → Bool)
no_others = λ name. none

-- Every step succeeds.
abbrev succeeds : List Action → Action → Option Error
succeeds h a = none

-- A flag without a value is true.
abbrev arguments : List (String × String)
arguments =
    ("metrics-bind-address", ":8443")
    ∷ ("leader-elect", "true")
    ∷ ("health-probe-bind-address", ":8081")
    ∷ []

abbrev flags : Flags
flags = record {
  metrics_addr = ":8443";
  probe_addr = ":8081";
  enable_leader_election = true;
  secure_metrics = true;
  enable_http2 = false;
}

flags_are_read : parse_flags no_others arguments ≡ parsed flags
unfolding parse_from set_flag bool_var parse_bool
flags_are_read = refl

main-Takes_example :
    Takes succeeds 2
      (Reads succeeds (parse_flags no_others arguments))
      (add_to_scheme client_go ∷ add_to_scheme scheme_builder ∷ [])
      []
      (main succeeds no_others arguments)
main-Takes_example = main-Takes succeeds no_others arguments

differ : (a b : String) → (a == b) ≡ false → a ≢ b
differ a b n = λ e. let same = (eq_iff a b).1 e in cc

asks_nothing : AsksNothing arguments
asks_nothing = (
  (differ _ _ refl, differ _ _ refl),
  ((differ _ _ refl, differ _ _ refl), ((differ _ _ refl, differ _ _ refl), tt)),
)

manager_options-IsHardened_example : IsHardened (manager_options flags)
manager_options-IsHardened_example =
    manager_options-IsHardened no_others arguments flags asks_nothing flags_are_read
