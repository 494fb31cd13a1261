-- ===== src/Scheduler/Tests.antt =====
-- Runs of the scheduler at concrete inputs, and its theorems there.
mod Sample
mod Stores
mod Dispatches
mod Requests
