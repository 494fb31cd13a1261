-- ===== src/ActivityLog.antt =====
-- The Activity Log's recipes and the projection of its events, services/activity_log/.
pub mod Recipes
pub mod Projection
pub mod Assembly
pub mod Collection
pub mod Replay
mod Tests
