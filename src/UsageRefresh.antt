-- ===== src/UsageRefresh.antt =====
-- The daily-usage refresh of services/usage_refresh.py: the scope and its conflicts with what is
-- stored (Scope), the work units of a load (Units), the plan and the status (Plan), the records
-- of a page (Records).
pub mod Scope
pub mod Units
pub mod Plan
pub mod Coverage
pub mod Status
pub mod Records
mod Tests
