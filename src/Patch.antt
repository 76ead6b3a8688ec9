-- ===== src/Patch.antt =====
-- packages/agent/pkg/patch: patches with backups, and the tracker of the changes they make.
pub mod Engine
pub mod Rollback
pub mod Backups
mod Tests
