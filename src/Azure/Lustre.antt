-- ===== src/Azure/Lustre.antt =====
-- src/vmss_metrics_exporter/azure_managed_lustre.py: the names of the metrics, the time series of a
-- response, their normalization, and the collection.
pub mod Names
pub mod Series
pub mod Tables
pub mod Normalize
pub mod Batches
pub mod Duration
pub mod Collect
pub mod Outcomes
mod Examples
