-- ===== src/Manager.antt =====
-- cmd/main.go and SetupWithManager of internal/controller/mariadbha_controller.go: how the operator
-- starts. The steps that controller-runtime takes answer through `answer`, the flags that
-- other packages define are `others`.
pub mod CommandLine
pub mod Startup
pub mod Hardened
use mariadb_ha_operator.Base.{
  String, Bool, true, false, Option, none, some, List, [], ◌∷◌, ◌++◌, ℕ, if◌then◌else◌,
}
use mariadb_ha_operator.World.{Error, Kind, mariadb_ha, stateful_set, service}
use CommandLine.{Flags, Parsed, parsed, stopped, parse_flags}

-- schema.GroupVersion
pub record GroupVersion : Type 0 where
  pub group : String
  pub version : String

abbrev pub group_version : GroupVersion
group_version = record { group = "database.cpf-it.fr"; version = "v1alpha1" }

-- What an AddToScheme adds: the Kubernetes types, or the types that a SchemeBuilder has registered.
pub data SchemePart : Type 0 where
  client_go : SchemePart
  registered : GroupVersion → List String → SchemePart

-- SchemeBuilder, after the init of api/v1alpha1/mariadbha_types.go
abbrev pub scheme_builder : SchemePart
scheme_builder = registered group_version ("MariaDBHA" ∷ "MariaDBHAList" ∷ [])

-- The field of a tls.Config that is set.
pub record TlsConfig : Type 0 where
  pub next_protos : List String

-- metricsserver.Options; `filter` is set to WithAuthenticationAndAuthorization
pub record MetricsOptions : Type 0 where
  pub bind_address : String
  pub secure_serving : Bool
  pub tls_opts : List (TlsConfig → TlsConfig)
  pub filter : Bool

-- ctrl.Options; `webhook_tls_opts` are those of its webhook server
pub record ManagerOptions : Type 0 where
  pub metrics : MetricsOptions
  pub webhook_tls_opts : List (TlsConfig → TlsConfig)
  pub health_probe_bind_address : String
  pub leader_election : Bool
  pub leader_election_id : String

-- The controller that the builder of SetupWithManager completes, and its reconciler's recorder.
pub record Controller : Type 0 where
  pub watches : Kind
  pub owns : List Kind
  pub recorder : String

pub data Action : Type 0 where
  add_to_scheme : SchemePart → Action
  get_config : Action
  new_manager : ManagerOptions → Action
  complete : Controller → Action
  add_healthz_check add_readyz_check : String → Action
  start : Action

-- The exit code, and what was done, the newest first.
pub record Run : Type 0 where
  pub code : ℕ
  pub actions : List Action

abbrev disable_http2 : TlsConfig → TlsConfig
disable_http2 c = record c { next_protos = "http/1.1" ∷ [] }

unfoldable pub tls_opts : Flags → List (TlsConfig → TlsConfig)
tls_opts flags = if flags.enable_http2 then [] else disable_http2 ∷ []

unfoldable pub metrics_server_options : Flags → MetricsOptions
metrics_server_options flags =
    let options : MetricsOptions = record {
      bind_address = flags.metrics_addr;
      secure_serving = flags.secure_metrics;
      tls_opts = tls_opts flags;
      filter = false;
    } in
    if flags.secure_metrics then record options { filter = true } else options

unfoldable pub manager_options : Flags → ManagerOptions
manager_options flags = record {
  metrics = metrics_server_options flags;
  webhook_tls_opts = tls_opts flags;
  health_probe_bind_address = flags.probe_addr;
  leader_election = flags.enable_leader_election;
  leader_election_id = "bdc64cb1.cpf-it.fr";
}

-- SetupWithManager
abbrev pub mariadb_ha_controller : Controller
mariadb_ha_controller = record {
  watches = mariadb_ha;
  owns = stateful_set ∷ service ∷ [];
  recorder = "mariadbha-controller";
}

module _ (answer : List Action → Action → Option Error) where
  -- `if err := …; err != nil { os.Exit(code) }` before `rest`
  unfoldable pub or_exit : ℕ → Action → (List Action → Run) → List Action → Run
  or_exit code a rest h = elim (answer h a) [
    | none ↦ rest (a ∷ h)
    | some e ↦ record { code = code; actions = a ∷ h }
  ]

  -- The init of cmd/main.go: utilruntime.Must panics, which is exit code 2.
  unfoldable pub init_scheme : (List Action → Run) → List Action → Run
  unfolding or_exit
  init_scheme rest =
      or_exit 2 (add_to_scheme client_go) (or_exit 2 (add_to_scheme scheme_builder) rest)

  -- main, with the flags that were parsed
  unfoldable pub run_manager : Flags → List Action → Run
  unfolding or_exit
  run_manager flags = or_exit 1 get_config (
      or_exit 1 (new_manager (manager_options flags)) (
        or_exit 1 (complete mariadb_ha_controller) (
          or_exit 1 (add_healthz_check "healthz") (
            or_exit 1 (add_readyz_check "readyz")
              (or_exit 1 start (λ h. record { code = 0; actions = h }))))))

  -- The program, from the names and values of the flags on its command line.
  unfoldable pub main : (String → Option (String → Bool)) → List (String × String) → Run
  unfolding init_scheme
  main others arguments =
      init_scheme
        (λ h. elim (parse_flags others arguments) [
          | parsed flags ↦ run_manager flags h
          | stopped code ↦ record { code = code; actions = h }
        ])
        []
