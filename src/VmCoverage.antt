-- ===== src/VmCoverage.antt =====
-- The on-demand capacity reservations of VMs, services/odcr_coverage.py: physical zones (Zones),
-- the reservations that may serve a VM (Candidates), the lifecycle status (Lifecycle), the
-- prerequisites (Requirements) and their compact form (Compact).
pub mod Zones
pub mod Candidates
pub mod Lifecycle
pub mod Requirements
pub mod Supportability
pub mod Compact
mod Tests
