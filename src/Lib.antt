-- ===== src/Lib.antt =====
-- A Kubernetes operator that runs a pair of MariaDB servers, a primary and a secondary, for each
-- MariaDBHA object: it creates their StatefulSets and Services, sets up the replication, watches the
-- health of the servers and fails over to the secondary.
--
-- The parts, and the file of each. Paths are those of the repository.
--   Api             api/v1alpha1/mariadbha_types.go: the custom resource.
--   Kube            the Kubernetes objects that the program builds or reads, with the fields it uses.
--   World           how the program meets the outside: a function of the controller is a function
--                   on a state of the MariaDBHA in memory and the history of the calls made so far.
--                   The answers of the API server, the database servers, the network and the clock
--                   are an argument `Env`, arbitrary functions of that history.
--   Names, Config   names, labels and server configuration, from internal/controller/statefulset.go.
--   StatefulSets    internal/controller/statefulset.go.
--   Services        internal/controller/service.go.
--   Health          internal/controller/health_check.go: connections, replication status, conditions,
--                   failure counters and the checks.
--   Failover        internal/controller/failover.go: promotion, rerouting, recovery and the guards of
--                   an automatic and a manual failover.
--   Sessions        the functions of these parts that open a database handle, and the number of handles
--                   that are open.
--   Replication     reconcileReplication and setupReplication of
--                   internal/controller/mariadbha_controller.go.
--   Deletion        handleDeletion of the same file.
--   Reconciler      Reconcile and checkHealth of the same file, which call all the parts above in
--                   the order StatefulSets, Services, replication, phase.
--   Phases          the state machine of the phases and the invariants over a whole reconcile call.
--   Manager         cmd/main.go, api/v1alpha1/groupversion_info.go and SetupWithManager: the flags, the
--                   options of the manager and the steps of the start, which controller-runtime
--                   answers.
--   Base, StringMap, Decimal
--                   shared helpers: Boolean tests, lists, integers, Go maps, strconv.Itoa and Atoi.
--   Tests           a concrete cluster, and the theorems applied to it.
--
-- A function of the source has the same name here, in snake case: `handleFailover` is
-- `Failover.handle_failover`. A Go function's early returns are the `exit` of a `Flow`; an error is a
-- `Result`, an `Option Error` or an `Outcome`. There is no fuel: every loop of the source goes through
-- a list, and the digits of Itoa are produced by recursion on accessibility. An `int` is bounded where
-- it is parsed and counted, `int32(x)` wraps around. How often the work queue calls a function again is
-- a number, for which a bound is proved.
--
-- Not modelled: log lines, the texts of events, the text of SQL statements (which are constructors of
-- `World.Sql.Statement`), connection-pool settings, the flags that other
-- packages define, which are a parameter, a phase that is no constant of the program, how package
-- flag splits an argument into name and value, and generated code.
-- handlePrimaryFailure, which the source calls and does not declare, is a parameter of the
-- reconciler; HealthCheckResult, not declared either, is the record of the fields that are used.
-- What the theorems assume of the API server stands in World.Laws, StatefulSets.Stuck, Services.Store
-- and Deletion.Deletes.
pub mod Base
pub mod StringMap
pub mod Decimal
pub mod Api
pub mod Kube
pub mod World
pub mod Names
pub mod Config
pub mod StatefulSets
pub mod Services
pub mod Health
pub mod Failover
pub mod Replication
pub mod Sessions
pub mod Deletion
pub mod Reconciler
pub mod Phases
pub mod Manager
pub mod Tests
