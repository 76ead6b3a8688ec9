-- ===== src/Tools.antt =====
-- packages/agent/pkg/agent/tools: the handlers of the built-in tools.
pub mod Basic
pub mod Catalog
pub mod Edit
pub mod Search
mod Tests
