-- ===== src/Scheduler.antt =====
-- The data-collection scheduler: services/data_collection/ and the stores storage/scheduler_*.py.
pub mod Cadence
pub mod ConfigStore
pub mod Dispatcher
pub mod HistoryStore
pub mod Progress
pub mod Registry
pub mod Routes
pub mod StateStore
mod Tests
