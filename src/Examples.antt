-- ===== src/Examples.antt =====
-- The theorems at concrete inputs, one file for each part of the program.
pub mod Kv
pub mod Logs
pub mod Storage
pub mod Hosts
pub mod Service
pub mod Cluster
pub mod Election
pub mod Heartbeats
pub mod Elections
pub mod Members
pub mod Start
pub mod Gateway
