-- ===== src/Session.antt =====
-- packages/agent/pkg/api/service: the sessions of the server, and the way back to a checkpoint.
pub mod Service
pub mod Lifecycle
pub mod Rewind
mod Tests
