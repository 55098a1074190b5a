-- ===== src/Kv.antt =====
-- The key-value state machine (ddbr-server/infra/state_machine.go).
pub mod Command
pub mod Machine
pub mod Format
pub mod Apply
