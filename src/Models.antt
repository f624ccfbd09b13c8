-- ===== src/Models.antt =====
-- src/vmss_metrics_exporter/models.py: the records of the collected resources and their labels.
pub mod Vmss
pub mod Vm
pub mod Lustre
pub mod Aggregates
