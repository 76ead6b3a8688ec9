-- ===== src/Store.antt =====
-- packages/agent/pkg/store/fs_store.go: the event log, the checkpoints, the state and the artifacts,
-- and the permission rules.
pub mod Events
pub mod Rules
pub mod Checkpoints
pub mod Artifacts
pub mod Tests
