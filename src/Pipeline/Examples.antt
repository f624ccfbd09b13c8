-- ===== src/Pipeline/Examples.antt =====
-- Two filesystems, one of which has an OST.
use azure_lustre_vmss_metric.Prelude.{
  ℕ, String, ◌≡◌, refl, none, some, List, [], ◌∷◌, string_eq, list_eq, nat_beq,
}
use azure_lustre_vmss_metric.Prelude.Fixtures.{floats}
use azure_lustre_vmss_metric.Prelude.Sorting.{tuple_le}
use azure_lustre_vmss_metric.Prelude.Result.{ok}
use azure_lustre_vmss_metric.Models.Lustre.{
  Filesystem, OstMetric, place_label_values, aggregate_label_values, capacity_label_values,
}
use azure_lustre_vmss_metric.Models.Aggregates.{
  Inputs, aggregate_of, samples_at, build_lustre_filesystem_aggregate_metrics,
}
use azure_lustre_vmss_metric.Azure.Fixtures.{py}
use azure_lustre_vmss_metric.Azure.Value.{
  Value, text, number, moment, sequence, nil, cons, mapping, end, entry,
}
use azure_lustre_vmss_metric.Azure.Lustre.Normalize.{Collected, normalize_lustre_metrics_response}
use azure_lustre_vmss_metric.Azure.Lustre.Tables.Notes.{last_noted}
use azure_lustre_vmss_metric.Azure.Lustre.Tables.Readings.{Reading, readings}
use azure_lustre_vmss_metric.Azure.ResourceGraph.{replied}
use azure_lustre_vmss_metric.Azure.Lustre.Outcomes.{Outcome, collection_result}
use azure_lustre_vmss_metric.Exporter.Fixtures.{api}
use azure_lustre_vmss_metric.Exporter.State.{fresh_shown}
use azure_lustre_vmss_metric.Exporter.State.Steps.Follower.{fresh_shown-Hidden}
use azure_lustre_vmss_metric.Exporter.State.Steps.Noted.{Hidden-Noted}
use azure_lustre_vmss_metric.Pipeline.Collection.{Elsewhere, update_lustre_metrics-collection}
use azure_lustre_vmss_metric.Exporter.Samples.{last_with}
use azure_lustre_vmss_metric.Exporter.Lustre.{lustre_ost_bytes_used}
use azure_lustre_vmss_metric.Exporter.Lustre.Update.{LustreTracked, update_lustre_metrics}
use azure_lustre_vmss_metric.Pipeline.Osts.{metric_of, ost_notes, ost_labels}
use azure_lustre_vmss_metric.Pipeline.Aggregates.{build_lustre_filesystem_aggregate_metrics_lem}

abbrev filesystem : String → Filesystem ℕ
filesystem name = record {
  subscription_id = "s";
  resource_group = "g";
  filesystem_name = name;
  resource_id = name;
  location = "west";
  sku_tier = "AMLFS";
  storage_capacity_tib = 48;
}

abbrev point : ℕ → ℕ → Value ℕ
point value time = mapping (entry "average" (number value) (entry "timestamp" (moment time) end))

abbrev series : Value ℕ
series = mapping (
    entry "metadata_values"
      (sequence
        (cons (mapping (entry "name" (text "ostnum") (entry "value" (text "OST0000") end))) nil))
      (entry "data" (sequence (cons (point 5 100) (cons (point 7 160) nil))) end))

abbrev response : Value ℕ
response = mapping (
    entry "metrics"
      (sequence (
        cons
          (mapping (
            entry "name" (text "OSTBytesUsed")
              (entry "timeseries" (sequence (cons series nil)) end)))
          nil))
      end)

abbrev ost : OstMetric ℕ
ost = record {
  place = record {
    subscription_id = "s";
    resource_group = "g";
    filesystem_name = "a";
    location = "west";
  };
  ostnum = "OST0000";
  bytes_available = none;
  bytes_used = some 7;
  bytes_total = none;
  client_read_ops = none;
  client_read_throughput_bytes_per_second = none;
  client_write_ops = none;
  client_write_throughput_bytes_per_second = none;
  connected_clients = none;
  sample_timestamp_seconds = some 160;
}

abbrev samples : Collected ℕ
samples = record {
  metrics = ost ∷ [];
  operation_metrics = [];
  mdt_metrics = [];
  mdt_operation_metrics = [];
}

made : normalize_lustre_metrics_response floats py (filesystem "a") response ≡ ok samples
unfolding normalize_lustre_metrics_response
made = refl

-- The worker of the other filesystem ended first, with a response that has no metrics.
abbrev nothing : Collected ℕ
nothing = record {
  metrics = [];
  operation_metrics = [];
  mdt_metrics = [];
  mdt_operation_metrics = [];
}

abbrev other : Outcome ℕ
other = (filesystem "b", replied nothing)

other-Elsewhere : Elsewhere floats py (filesystem "a") other
unfolding normalize_lustre_metrics_response capacity_label_values
other-Elsewhere = ((mapping end, refl), refl)

fresh : LustreTracked floats api (fresh_shown floats api).lustre
fresh = (Hidden-Noted floats api (fresh_shown floats api) (fresh_shown-Hidden floats api)).lustre

update_lustre_metrics-collection_example :
    let result =
      collection_result floats
        (λ xs. 0)
        (filesystem "a" ∷ filesystem "b" ∷ [])
        (other ∷ (filesystem "a", replied samples) ∷ [])
        200 in
    (rs : List (Reading ℕ)) × (readings floats py response ≡ ok rs)
    × (api.value
          ((update_lustre_metrics floats api result.samples
              (nat_beq result.error_count 0)
              (fresh_shown floats api).lustre).osts.gauge
            lustre_ost_bytes_used)
          (ost_labels (filesystem "a") "OST0000")
        ≡ last_noted (ost_notes rs) "OST0000" "OSTBytesUsed")
unfolding metric_of
update_lustre_metrics-collection_example =
    update_lustre_metrics-collection floats py api (λ xs. 0) (filesystem "a" ∷ filesystem "b" ∷ [])
      (filesystem "a") (other ∷ []) [] response samples 200 (fresh_shown floats api).lustre
      lustre_ost_bytes_used "OSTBytesUsed" "OST0000" made (other-Elsewhere, tt) tt refl refl fresh

abbrev inputs : Inputs ℕ
inputs = record {
  filesystems = filesystem "a" ∷ filesystem "b" ∷ [];
  metrics = ost ∷ [];
  operation_metrics = [];
  mdt_metrics = [];
  mdt_operation_metrics = [];
}

build_lustre_filesystem_aggregate_metrics_lem_example :
    last_with aggregate_label_values
      (build_lustre_filesystem_aggregate_metrics floats (λ xs. 0) inputs 200)
      (place_label_values ost.place)
    ≡ aggregate_of floats (λ xs. 0) 200 ost.place (samples_at ost.place inputs)
build_lustre_filesystem_aggregate_metrics_lem_example =
    build_lustre_filesystem_aggregate_metrics_lem floats (λ xs. 0) inputs 200 ost.place

-- Only the filesystem with a sample has a derived sample; the sample is 40 seconds old.
derived :
    build_lustre_filesystem_aggregate_metrics floats (λ xs. 0) inputs 200
    ≡ record {
      place = ost.place;
      connected_clients = none;
      client_evictions = none;
      metadata_amplification_ratio = some 0;
      sample_max_age_seconds = some 40;
    }
      ∷ []
unfolding build_lustre_filesystem_aggregate_metrics place_label_values tuple_le
derived = refl
