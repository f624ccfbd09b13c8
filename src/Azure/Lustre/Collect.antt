-- ===== src/Azure/Lustre/Collect.antt =====
-- `AzureManagedLustreCollector`: its discovery, and the queries for a filesystem.
use azure_lustre_vmss_metric.Prelude.{
  ℕ, suc, String, Option, none, some, List, [], ◌∷◌, ◌++◌, map, length, if◌then◌else◌, string_eq,
  list_eq,
}
use azure_lustre_vmss_metric.Prelude.Number.{Floats, of_nat}
use azure_lustre_vmss_metric.Prelude.Result.{Result, ok, err, ◌>>=◌}
use azure_lustre_vmss_metric.Models.Lustre.{Filesystem}
use azure_lustre_vmss_metric.Azure.Value.{
  Value, mapping, sequence, Items, nil, cons, Entries, end, entry, Python, get, required_str,
  optional_str, float_value, iter_sequence_attr,
}
use azure_lustre_vmss_metric.Azure.ResourceGraph.{
  Client, Reply, replied, failed, out_of_fuel, execute_with_retry,
}
use azure_lustre_vmss_metric.Azure.ResourceGraph.Paging.{QueryRequest, plain_exception}
use azure_lustre_vmss_metric.Azure.ResourceGraph.Collectors.{Settings, run_paged_query, collected}
use azure_lustre_vmss_metric.Azure.Lustre.Names.{
  ost_operation_metrics, mdt_operation_metrics, mdt_total_metrics, lustre_simple_average_metrics,
}
use azure_lustre_vmss_metric.Azure.Lustre.Batches.{chunks}
use azure_lustre_vmss_metric.Azure.Lustre.Normalize.{Collected, normalize_lustre_metrics_response}

-- The arguments of `query_resource` that differ between the queries.
pub record MetricsQuery : Type 0 where
  pub resource_uri : String
  pub metric_names : List String
  pub aggregations : List String
  pub filter : Option String

-- `AZURE_MONITOR_METRIC_NAMES_PER_REQUEST`
abbrev pub metric_names_per_request : ℕ
metric_names_per_request = 20

abbrev batches : List String → List (List String)
unfolding chunks
batches names = chunks (length names) metric_names_per_request names

module _ {F : Type 0} where
  abbrev query : Filesystem F → String → Option String → List String → MetricsQuery
  query filesystem aggregation filter batch = record {
    resource_uri = filesystem.resource_id;
    metric_names = batch;
    aggregations = aggregation ∷ [];
    filter = filter;
  }

  -- The queries for a filesystem, in their order.
  unfoldable pub filesystem_queries : Filesystem F → List MetricsQuery
  unfolding batches
  filesystem_queries filesystem =
      map (query filesystem "Average" none) (batches lustre_simple_average_metrics)
      ++ query filesystem "Average" (some "ostnum eq '*' and operation eq '*'")
          ost_operation_metrics
        ∷ query filesystem "Average" (some "mdtnum eq '*' and operation eq '*'")
            mdt_operation_metrics
        ∷ map (query filesystem "Total" none) (batches mdt_total_metrics)

module _ {F : Type 0} (py : Python F) (zero : F) where
  unfoldable pub normalize_filesystem_row : Entries F → Result String (Filesystem F)
  unfolding required_str optional_str float_value get
  normalize_filesystem_row row = required_str py row "subscriptionId" >>= λ subscription_id.
      required_str py row "resourceGroup" >>= λ resource_group.
      required_str py row "filesystemName" >>= λ filesystem_name.
      required_str py row "id" >>= λ resource_id.
      float_value py (get "storageCapacityTiB" row) zero >>= λ capacity. ok (record {
        subscription_id = subscription_id;
        resource_group = resource_group;
        filesystem_name = filesystem_name;
        resource_id = resource_id;
        location = optional_str py row "location" "unknown";
        sku_tier = optional_str py row "skuTier" "unknown";
        storage_capacity_tib = capacity;
      })

-- The list of a response
abbrev items_of : {F : Type 0} → List (Value F) → Items F
items_of [] = nil
items_of (v ∷ vs) = cons v (items_of vs)

-- `{"metrics": merged_metrics}`
abbrev pub merged_response : {F : Type 0} → List (Value F) → Value F
merged_response metrics = mapping (entry "metrics" (sequence (items_of metrics)) end)

abbrev normalized : {A : Type 0} → Result String A → Reply A
normalized (ok a) = replied a
normalized (err e) = failed plain_exception

module _ {W F : Type 0} (floats : Floats F) (py : Python F)
    (client : Client W MetricsQuery (Value F) F) (max_retries : ℕ)
    (retry_base_delay_seconds request_jitter_seconds : F) where
  -- `_execute_with_retry`, with fuel for every retry
  unfoldable pub fetch_metrics : MetricsQuery → W → Reply (Value F) × W
  unfolding execute_with_retry
  fetch_metrics query w =
      execute_with_retry floats client retry_base_delay_seconds (suc max_retries) max_retries query
        w

  abbrev after_metrics :
      (List (Value F) → W → Reply (List (Value F)) × W)
      → List (Value F)
      → Reply (Value F)
      → W
      → Reply (List (Value F)) × W
  after_metrics next merged (replied response) w =
      next (merged ++ iter_sequence_attr response "metrics" none) w
  after_metrics next merged (failed exc) w = (failed exc, w)
  after_metrics next merged out_of_fuel w = (out_of_fuel, w)

  -- `merged_metrics` after the queries
  unfoldable pub merge_queries : List MetricsQuery → List (Value F) → W → Reply (List (Value F)) × W
  unfolding fetch_metrics iter_sequence_attr
  merge_queries [] merged w = (replied merged, w)
  merge_queries (query ∷ queries) merged w =
      let (reply, w') = fetch_metrics query w in
      after_metrics (merge_queries queries) merged reply w'

  -- `_apply_request_jitter`
  unfoldable pub apply_request_jitter : W → W
  apply_request_jitter w =
      let (delay, w') = client.uniform (of_nat floats 0) request_jitter_seconds w in
      if floats.le request_jitter_seconds (of_nat floats 0) then w else client.sleep delay w'

  abbrev normalize_merged : Filesystem F → Reply (List (Value F)) → Reply (Collected F)
  unfolding normalize_lustre_metrics_response
  normalize_merged filesystem (replied metrics) =
      normalized (normalize_lustre_metrics_response floats py filesystem (merged_response metrics))
  normalize_merged filesystem (failed exc) = failed exc
  normalize_merged filesystem out_of_fuel = out_of_fuel

  -- `_collect_filesystem_metrics`
  unfoldable pub collect_filesystem_metrics : Filesystem F → W → Reply (Collected F) × W
  unfolding merge_queries apply_request_jitter filesystem_queries normalize_merged
  collect_filesystem_metrics filesystem w =
      let (metrics, w') =
        merge_queries (filesystem_queries filesystem) [] (apply_request_jitter w) in
      (normalize_merged filesystem metrics, w')

-- `discover_filesystems`, where `settings` has the text of `AMLFS_FILESYSTEMS_QUERY`
module _ {W F : Type 0} (floats : Floats F) (py : Python F)
    (client : Client W (QueryRequest F) (Value F) F) (settings : Settings F) where
  unfoldable pub discover_filesystems : ℕ → W → Reply (List (Filesystem F)) × W
  unfolding run_paged_query normalize_filesystem_row
  discover_filesystems fuel w =
      let (rows, w') = run_paged_query floats client settings fuel w in
      (collected (normalize_filesystem_row py (of_nat floats 0)) rows, w')
