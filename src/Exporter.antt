-- ===== src/Exporter.antt =====
-- src/vmss_metrics_exporter/collector.py: the gauges, their updates and the leadership transitions.
pub mod Gauge
pub mod Family
pub mod Samples
pub mod Vmss
pub mod Vm
pub mod Lustre
pub mod State
pub mod Fixtures
mod Examples
