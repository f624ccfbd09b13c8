-- ===== src/Azure/Lustre/Normalize.antt =====
-- `normalize_lustre_metrics_response`: the samples that it makes of the tables.
use azure_lustre_vmss_metric.Prelude.{String, List, map, string_eq, pair_eq}
use azure_lustre_vmss_metric.Prelude.Dict.{Dict, lookup}
use azure_lustre_vmss_metric.Prelude.Number.{Floats}
use azure_lustre_vmss_metric.Prelude.Result.{Result, ok, ◌>>=◌}
use azure_lustre_vmss_metric.Models.Lustre.{
  Filesystem, Place, OstMetric, MdtMetric, OperationMetric,
}
use azure_lustre_vmss_metric.Azure.Value.{Value, Python}
use azure_lustre_vmss_metric.Azure.Lustre.Tables.{OperationKey, Table, Tables, fill_tables}

-- The samples of a table, in the order in which their keys came.
module _ {F : Type 0} (filesystem : Filesystem F) where
  unfoldable pub place_of : Place
  place_of = record {
    subscription_id = filesystem.subscription_id;
    resource_group = filesystem.resource_group;
    filesystem_name = filesystem.filesystem_name;
    location = filesystem.location;
  }

  unfoldable pub ost_sample : Table String F → String × Dict String F → OstMetric F
  unfolding place_of lookup
  ost_sample table (ostnum, values) = record {
    place = place_of;
    ostnum = ostnum;
    bytes_available = lookup "OSTBytesAvailable" values;
    bytes_used = lookup "OSTBytesUsed" values;
    bytes_total = lookup "OSTBytesTotal" values;
    client_read_ops = lookup "ClientReadOps" values;
    client_read_throughput_bytes_per_second = lookup "ClientReadThroughput" values;
    client_write_ops = lookup "ClientWriteOps" values;
    client_write_throughput_bytes_per_second = lookup "ClientWriteThroughput" values;
    connected_clients = lookup "OSTConnectedClients" values;
    sample_timestamp_seconds = lookup ostnum table.timestamps;
  }

  unfoldable pub ost_operation_sample :
      Table OperationKey F → OperationKey × Dict String F → OperationMetric F
  unfolding place_of lookup
  ost_operation_sample table (key, values) = record {
    place = place_of;
    num = key.0;
    operation = key.1;
    client_latency_milliseconds = lookup "OSTClientLatency" values;
    client_ops = lookup "OSTClientOps" values;
    sample_timestamp_seconds = lookup key table.timestamps;
  }

  unfoldable pub mdt_sample : Table String F → String × Dict String F → MdtMetric F
  unfolding place_of lookup
  mdt_sample table (mdtnum, values) = record {
    place = place_of;
    mdtnum = mdtnum;
    bytes_available = lookup "MDTBytesAvailable" values;
    bytes_used = lookup "MDTBytesUsed" values;
    bytes_total = lookup "MDTBytesTotal" values;
    files_free = lookup "MDTFilesFree" values;
    files_used = lookup "MDTFilesUsed" values;
    files_total = lookup "MDTFilesTotal" values;
    hsm_action_errors = lookup "HSMActionErrors" values;
    hsm_current_requests = lookup "HSMCurrentRequests" values;
    client_evictions = lookup "LustreClientEvictions" values;
    connected_clients = lookup "MDTConnectedClients" values;
    sample_timestamp_seconds = lookup mdtnum table.timestamps;
  }

  unfoldable pub mdt_operation_sample :
      Table OperationKey F → OperationKey × Dict String F → OperationMetric F
  unfolding place_of lookup
  mdt_operation_sample table (key, values) = record {
    place = place_of;
    num = key.0;
    operation = key.1;
    client_latency_milliseconds = lookup "MDTClientLatency" values;
    client_ops = lookup "MDTClientOps" values;
    sample_timestamp_seconds = lookup key table.timestamps;
  }

-- The samples of one filesystem, or of several together.
pub record Collected (F : Type 0) : Type 0 where
  pub metrics : List (OstMetric F)
  pub operation_metrics : List (OperationMetric F)
  pub mdt_metrics : List (MdtMetric F)
  pub mdt_operation_metrics : List (OperationMetric F)

module _ {F : Type 0} where
  unfoldable pub samples_of : Filesystem F → Tables F → Collected F
  unfolding ost_sample ost_operation_sample mdt_sample mdt_operation_sample
  samples_of filesystem tables = record {
    metrics = map (ost_sample filesystem tables.ost) tables.ost.values;
    operation_metrics =
        map (ost_operation_sample filesystem tables.ost_operation) tables.ost_operation.values;
    mdt_metrics = map (mdt_sample filesystem tables.mdt) tables.mdt.values;
    mdt_operation_metrics =
        map (mdt_operation_sample filesystem tables.mdt_operation) tables.mdt_operation.values;
  }

module _ {F : Type 0} (floats : Floats F) (py : Python F) where
  unfoldable pub normalize_lustre_metrics_response :
      Filesystem F → Value F → Result String (Collected F)
  unfolding fill_tables samples_of
  normalize_lustre_metrics_response filesystem response =
      fill_tables floats py response >>= λ tables. ok (samples_of filesystem tables)

  -- `normalize_ost_metrics_response`
  unfoldable pub normalize_ost_metrics_response :
      Filesystem F → Value F → Result String (List (OstMetric F) × List (OperationMetric F))
  unfolding normalize_lustre_metrics_response
  normalize_ost_metrics_response filesystem response =
      normalize_lustre_metrics_response filesystem response >>= λ samples.
      ok (samples.metrics, samples.operation_metrics)

  -- `normalize_ost_capacity_response`, which `normalize_ost_bytes_available_response` calls
  unfoldable pub normalize_ost_capacity_response :
      Filesystem F → Value F → Result String (List (OstMetric F))
  unfolding normalize_ost_metrics_response
  normalize_ost_capacity_response filesystem response =
      normalize_ost_metrics_response filesystem response >>= λ samples. ok samples.0
