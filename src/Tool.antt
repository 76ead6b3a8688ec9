-- ===== src/Tool.antt =====
-- pkg/tool: the registry of tools, the policy that gates them, and the executor.
pub mod Registry
pub mod Policy
pub mod Executor
mod Tests
