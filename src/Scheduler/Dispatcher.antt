-- ===== src/Scheduler/Dispatcher.antt =====
-- services/data_collection/dispatcher.py, in parts: what it calls (Effects), the configuration
-- merge and edits (Config), the concurrency gate and the start point (Gate), the tick
-- (Tick), the lists for the pages and the deletion of runs (Views), the notifications feed
-- (Notifications).
pub mod Effects
pub mod Config
pub mod Gate
pub mod Tick
pub mod Views
pub mod Notifications
