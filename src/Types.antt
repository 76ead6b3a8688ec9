-- ===== src/Types.antt =====
-- pkg/types: the data that the components share.
pub mod Json
pub mod Tool
pub mod State
pub mod Event
pub mod Command
pub mod Clone
