-- ===== src/Exporter/Lustre.antt =====
-- The gauges of `_update_lustre_metrics`, and what it writes to them from the samples of a
-- collection.
pub mod Update
use azure_lustre_vmss_metric.Prelude.{Option, some, List, map}
use azure_lustre_vmss_metric.Prelude.Number.{Floats, of_nat}
use azure_lustre_vmss_metric.Models.Vmss.{Labels}
use azure_lustre_vmss_metric.Models.Lustre.{
  Filesystem, OstMetric, MdtMetric, OperationMetric, AggregateMetric, ost_bytes_available_percent,
  ost_bytes_used_percent, mdt_bytes_available_percent, mdt_bytes_used_percent, files_free_percent,
  files_used_percent,
}
use azure_lustre_vmss_metric.Exporter.Family.{Family, Write, put, set_or_remove, set_if_some}

pub data FilesystemGauge : Type 0 where
  lustre_filesystem_info : FilesystemGauge
  lustre_discovered_filesystem_info : FilesystemGauge

pub data CapacityGauge : Type 0 where
  lustre_filesystem_storage_capacity_tib : CapacityGauge

pub data AggregateGauge : Type 0 where
  lustre_filesystem_connected_clients : AggregateGauge
  lustre_filesystem_client_evictions : AggregateGauge
  lustre_metadata_amplification_ratio : AggregateGauge
  lustre_filesystem_sample_max_age : AggregateGauge

pub data OstGauge : Type 0 where
  lustre_ost_bytes_available : OstGauge
  lustre_ost_bytes_used : OstGauge
  lustre_ost_bytes_total : OstGauge
  lustre_ost_bytes_available_percent : OstGauge
  lustre_ost_bytes_used_percent : OstGauge
  lustre_client_read_ops : OstGauge
  lustre_client_read_throughput : OstGauge
  lustre_client_write_ops : OstGauge
  lustre_client_write_throughput : OstGauge
  lustre_ost_connected_clients : OstGauge
  lustre_ost_sample_timestamp : OstGauge

pub data OstOperationGauge : Type 0 where
  lustre_ost_client_latency : OstOperationGauge
  lustre_ost_client_ops : OstOperationGauge
  lustre_ost_operation_sample_timestamp : OstOperationGauge

pub data MdtGauge : Type 0 where
  lustre_mdt_bytes_available : MdtGauge
  lustre_mdt_bytes_used : MdtGauge
  lustre_mdt_bytes_total : MdtGauge
  lustre_mdt_bytes_available_percent : MdtGauge
  lustre_mdt_bytes_used_percent : MdtGauge
  lustre_mdt_files_free : MdtGauge
  lustre_mdt_files_used : MdtGauge
  lustre_mdt_files_total : MdtGauge
  lustre_mdt_files_free_percent : MdtGauge
  lustre_mdt_files_used_percent : MdtGauge
  lustre_mdt_sample_timestamp : MdtGauge
  lustre_hsm_action_errors : MdtGauge
  lustre_hsm_current_requests : MdtGauge
  lustre_mdt_client_evictions : MdtGauge
  lustre_mdt_connected_clients : MdtGauge

pub data MdtOperationGauge : Type 0 where
  lustre_mdt_client_latency : MdtOperationGauge
  lustre_mdt_client_ops : MdtOperationGauge
  lustre_mdt_operation_sample_timestamp : MdtOperationGauge

pub record LustreGauges (G : Type 0) : Type 0 where
  pub filesystems : Family FilesystemGauge G
  pub capacities : Family CapacityGauge G
  pub aggregates : Family AggregateGauge G
  pub osts : Family OstGauge G
  pub ost_operations : Family OstOperationGauge G
  pub mdts : Family MdtGauge G
  pub mdt_operations : Family MdtOperationGauge G

-- What `_update_lustre_metrics` receives, less `remove_stale`.
pub record LustreSamples (F : Type 0) : Type 0 where
  pub filesystems : List (Filesystem F)
  pub metrics : List (OstMetric F)
  pub operation_metrics : List (OperationMetric F)
  pub mdt_metrics : List (MdtMetric F)
  pub mdt_operation_metrics : List (OperationMetric F)
  pub filesystem_aggregate_metrics : List (AggregateMetric F)

module _ {F : Type 0} (floats : Floats F) where
  unfoldable pub filesystem_writes : Filesystem F → FilesystemGauge → Write F
  filesystem_writes f gauge = put (of_nat floats 1)

  unfoldable pub ost_writes : OstMetric F → OstGauge → Write F
  unfolding set_or_remove set_if_some ost_bytes_available_percent ost_bytes_used_percent
  ost_writes m lustre_ost_bytes_available = set_or_remove m.bytes_available
  ost_writes m lustre_ost_bytes_used = set_or_remove m.bytes_used
  ost_writes m lustre_ost_bytes_total = set_or_remove m.bytes_total
  ost_writes m lustre_ost_bytes_available_percent =
      set_or_remove (ost_bytes_available_percent floats m)
  ost_writes m lustre_ost_bytes_used_percent = set_or_remove (ost_bytes_used_percent floats m)
  ost_writes m lustre_client_read_ops = set_or_remove m.client_read_ops
  ost_writes m lustre_client_read_throughput =
      set_or_remove m.client_read_throughput_bytes_per_second
  ost_writes m lustre_client_write_ops = set_or_remove m.client_write_ops
  ost_writes m lustre_client_write_throughput =
      set_or_remove m.client_write_throughput_bytes_per_second
  ost_writes m lustre_ost_connected_clients = set_or_remove m.connected_clients
  ost_writes m lustre_ost_sample_timestamp = set_if_some m.sample_timestamp_seconds

  unfoldable pub mdt_writes : MdtMetric F → MdtGauge → Write F
  unfolding set_or_remove set_if_some mdt_bytes_available_percent mdt_bytes_used_percent
      files_free_percent files_used_percent
  mdt_writes m lustre_mdt_bytes_available = set_or_remove m.bytes_available
  mdt_writes m lustre_mdt_bytes_used = set_or_remove m.bytes_used
  mdt_writes m lustre_mdt_bytes_total = set_or_remove m.bytes_total
  mdt_writes m lustre_mdt_bytes_available_percent =
      set_or_remove (mdt_bytes_available_percent floats m)
  mdt_writes m lustre_mdt_bytes_used_percent = set_or_remove (mdt_bytes_used_percent floats m)
  mdt_writes m lustre_mdt_files_free = set_or_remove m.files_free
  mdt_writes m lustre_mdt_files_used = set_or_remove m.files_used
  mdt_writes m lustre_mdt_files_total = set_or_remove m.files_total
  mdt_writes m lustre_mdt_files_free_percent = set_or_remove (files_free_percent floats m)
  mdt_writes m lustre_mdt_files_used_percent = set_or_remove (files_used_percent floats m)
  mdt_writes m lustre_hsm_action_errors = set_or_remove m.hsm_action_errors
  mdt_writes m lustre_hsm_current_requests = set_or_remove m.hsm_current_requests
  mdt_writes m lustre_mdt_client_evictions = set_or_remove m.client_evictions
  mdt_writes m lustre_mdt_connected_clients = set_or_remove m.connected_clients
  mdt_writes m lustre_mdt_sample_timestamp = set_if_some m.sample_timestamp_seconds

module _ {F : Type 0} where
  unfoldable pub capacity_writes : Filesystem F → CapacityGauge → Write F
  capacity_writes f gauge = put f.storage_capacity_tib

  unfoldable pub aggregate_writes : AggregateMetric F → AggregateGauge → Write F
  unfolding set_or_remove
  aggregate_writes m lustre_filesystem_connected_clients = set_or_remove m.connected_clients
  aggregate_writes m lustre_filesystem_client_evictions = set_or_remove m.client_evictions
  aggregate_writes m lustre_metadata_amplification_ratio =
      set_or_remove m.metadata_amplification_ratio
  aggregate_writes m lustre_filesystem_sample_max_age = set_or_remove m.sample_max_age_seconds

  unfoldable pub ost_operation_writes : OperationMetric F → OstOperationGauge → Write F
  unfolding set_or_remove set_if_some
  ost_operation_writes m lustre_ost_client_latency = set_or_remove m.client_latency_milliseconds
  ost_operation_writes m lustre_ost_client_ops = set_or_remove m.client_ops
  ost_operation_writes m lustre_ost_operation_sample_timestamp =
      set_if_some m.sample_timestamp_seconds

  unfoldable pub mdt_operation_writes : OperationMetric F → MdtOperationGauge → Write F
  unfolding set_or_remove set_if_some
  mdt_operation_writes m lustre_mdt_client_latency = set_or_remove m.client_latency_milliseconds
  mdt_operation_writes m lustre_mdt_client_ops = set_or_remove m.client_ops
  mdt_operation_writes m lustre_mdt_operation_sample_timestamp =
      set_if_some m.sample_timestamp_seconds
