-- ===== src/Scripts.antt =====
-- The tools of the load tests: scripts/lustre_safe_write_budget.py and scripts/av_lustre_workload.py.
pub mod Budget
pub mod Roots
pub mod Outputs
pub mod Payload
pub mod Shards
pub mod Selection
pub mod Slo
pub mod WriteOnly
pub mod Read
pub mod ReadRun
mod Examples
