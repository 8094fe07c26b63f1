-- ===== src/Health.antt =====
-- The health of the two servers: internal/controller/health_check.go. `Connection` reaches a server,
-- `Replication` reads its replication status, `Conditions` and `Counters` are the helpers on the
-- status and the annotations, and `Checks` is the whole check.
pub mod Connection
pub mod Replication
pub mod Conditions
pub mod Counters
pub mod Checks
pub mod Keeps
pub mod Complete
pub mod LagLimit
pub mod Evidence
