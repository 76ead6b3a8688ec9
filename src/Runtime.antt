-- ===== src/Runtime.antt =====
-- pkg/runtime: the event loop and its parts.
pub mod Permission
pub mod Goals
pub mod History
pub mod Reducer
pub mod Core
pub mod Services
pub mod Dispatcher
pub mod Loop
mod Tests
