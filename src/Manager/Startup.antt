-- ===== src/Manager/Startup.antt =====
-- In which order cmd/main.go takes its steps, and where it stops.
use mariadb_ha_operator.Base.{◌≡◌, refl, String, Bool, Option, none, some, List, [], ◌∷◌, ℕ}
use mariadb_ha_operator.World.{Error}
use mariadb_ha_operator.Manager.CommandLine.{Flags, Parsed, parsed, stopped, parse_flags}
use mariadb_ha_operator.Manager.{
  Action, add_to_scheme, get_config, new_manager, complete, add_healthz_check, add_readyz_check,
  start, Run, client_go, scheme_builder, manager_options, mariadb_ha_controller, or_exit,
  init_scheme, run_manager, main,
}

-- The steps of main, in order.
abbrev pub steps : Flags → List Action
steps flags =
    get_config
    ∷ new_manager (manager_options flags)
    ∷ complete mariadb_ha_controller
    ∷ add_healthz_check "healthz"
    ∷ add_readyz_check "readyz"
    ∷ start
    ∷ []

module _ (answer : List Action → Action → Option Error) where
  -- After the actions `h` the planned ones were taken one by one, each because the one before it
  -- succeeded, to the first that failed, with the exit code, or to the end, where `End` holds.
  pub data Takes (code : ℕ) (End : List Action → Run → Type 0)
      : List Action → List Action → Run → Type 0 where
    ends : (h : List Action) (r : Run) → End h r → Takes code End [] h r
    fails :
        (a : Action) (plan h : List Action) (e : Error)
        → answer h a ≡ some e
        → Takes code End (a ∷ plan) h (record { code = code; actions = a ∷ h })
    goes_on :
        (a : Action) (plan h : List Action) (r : Run)
        → answer h a ≡ none
        → Takes code End plan (a ∷ h) r
        → Takes code End (a ∷ plan) h r

  or_exit-Takes :
      {End : List Action → Run → Type 0} (code : ℕ) (a : Action) (plan : List Action)
      (rest : List Action → Run)
      → ((h : List Action) → Takes code End plan h (rest h))
      → (h : List Action) → Takes code End (a ∷ plan) h (or_exit answer code a rest h)
  unfolding or_exit
  or_exit-Takes {End = End} code a plan rest f h = answered (answer h a) refl
    where
      answered :
          (o : Option Error)
          → answer h a ≡ o
          → Takes code End
              (a ∷ plan)
              h
              (elim o [ none ↦ rest (a ∷ h) | some e ↦ record { code = code; actions = a ∷ h } ])
      answered none e = goes_on a plan h _ e (f (a ∷ h))
      answered (some x) e = fails a plan h x e

  -- The end of main: the manager was stopped.
  abbrev pub Ended : List Action → Run → Type 0
  Ended h r = r ≡ record { code = 0; actions = h }

  run_manager-Takes :
      (flags : Flags) (h : List Action) → Takes 1 Ended (steps flags) h (run_manager answer flags h)
  unfolding run_manager
  run_manager-Takes flags = or_exit-Takes 1 _ _ _ (
      or_exit-Takes 1 _ _ _ (
        or_exit-Takes 1 _ _ _ (
          or_exit-Takes 1 _ _ _
            (or_exit-Takes 1 _ _ _ (or_exit-Takes 1 _ _ _ (λ h. ends h _ refl))))))

  -- The command line is refused with an exit code, or the manager is run with its flags.
  abbrev pub Reads : Parsed → List Action → Run → Type 0
  Reads (stopped code) h r = r ≡ record { code = code; actions = h }
  Reads (parsed flags) h r = Takes 1 Ended (steps flags) h r

  reads :
      (p : Parsed) (h : List Action)
      → Reads p h (elim p [
        | parsed flags ↦ run_manager answer flags h
        | stopped code ↦ record { code = code; actions = h }
      ])
  reads (parsed flags) h = run_manager-Takes flags h
  reads (stopped code) h = refl

-- The program takes its steps in order, each only after the one before it succeeded: the two parts of
-- the scheme, where a failure is a panic with exit code 2, then the command line, which is refused
-- with its exit code, and then the configuration, the manager with the options of the flags, the
-- controller, the two probes and the start, where a failure gives exit code 1. The exit code is 0 once
-- the manager, started last, has stopped without an error. This is so whatever controller-runtime
-- answers and whatever flags other packages define.
pub main-Takes :
    (answer : List Action → Action → Option Error) (others : String → Option (String → Bool))
    (arguments : List (String × String))
    → Takes answer 2
        (Reads answer (parse_flags others arguments))
        (add_to_scheme client_go ∷ add_to_scheme scheme_builder ∷ [])
        []
        (main answer others arguments)
unfolding main init_scheme
main-Takes answer others arguments =
    or_exit-Takes answer 2 _ _ _
      (or_exit-Takes answer 2 _ _ _ (λ h. ends h _ (reads answer (parse_flags others arguments) h)))
      []
