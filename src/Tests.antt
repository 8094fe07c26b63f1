-- ===== src/Tests.antt =====
-- The theorems at concrete inputs: a small cluster and an API server that stores what it is sent.
mod Manager
pub mod Data
mod Phases
mod Failover
mod Objects
mod Store
mod Checks
mod SetUp
mod Deleted
