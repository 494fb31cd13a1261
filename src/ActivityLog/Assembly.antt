-- ===== src/ActivityLog/Assembly.antt =====
-- services/activity_log/assembly.py: source events become operations.
pub mod Events
pub mod Operations
pub mod Groups
pub mod Merged
pub mod Parts
pub mod Whole
