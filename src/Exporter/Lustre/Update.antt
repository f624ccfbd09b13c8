-- ===== src/Exporter/Lustre/Update.antt =====
-- `_update_lustre_metrics` under the lock, and what a scrape shows after it.
use azure_lustre_vmss_metric.Prelude.{
  ◌≡◌, refl, Bool, true, false, Option, none, List, map, map-map, string_eq, list_eq, ◌∙◌,
  if◌then◌else◌, ◌≢◌, not, ◌||◌,
}
use azure_lustre_vmss_metric.Prelude.Sets.{contains}
use azure_lustre_vmss_metric.Prelude.Number.{Floats}
use azure_lustre_vmss_metric.Models.Vmss.{Labels}
use azure_lustre_vmss_metric.Models.Lustre.{
  OstMetric, info_label_values, capacity_label_values, ost_label_values, mdt_label_values,
  operation_label_values, aggregate_label_values, ost_bytes_available_percent,
  ost_bytes_used_percent,
}
use azure_lustre_vmss_metric.Exporter.Gauge.{Gauges}
use azure_lustre_vmss_metric.Exporter.Family.{
  Family, Write, set_or_remove, set_if_some, update, Tracked, update-Tracked, value-update,
  value-write_all,
}
use azure_lustre_vmss_metric.Exporter.Samples.{
  Covers-labels, samples_of, last_with, last_or, last_value, value_or, after_samples-last,
  after_samples-latest, last_or-stale,
}
use azure_lustre_vmss_metric.Exporter.Lustre.{
  LustreGauges, LustreSamples, OstGauge, lustre_ost_bytes_available, lustre_ost_bytes_used,
  lustre_ost_bytes_total, lustre_ost_bytes_available_percent, lustre_ost_bytes_used_percent,
  lustre_client_read_ops, lustre_client_read_throughput, lustre_client_write_ops,
  lustre_client_write_throughput, lustre_ost_connected_clients, lustre_ost_sample_timestamp,
  filesystem_writes, ost_writes, mdt_writes, capacity_writes, aggregate_writes,
  ost_operation_writes, mdt_operation_writes,
}

module _ {A N G F : Type 0} (api : Gauges G F) (remove_stale : Bool) (f : A → Labels)
    (w : A → N → Write F) where
  -- The update of a family to which each item writes one sample.
  unfoldable pub update_from : List A → Family N G → Family N G
  unfolding update
  update_from xs family = update api remove_stale (map f xs) (samples_of f w xs) family

  pub update_from-Tracked :
      (xs : List A) (family : Family N G) → Tracked api family → Tracked api (update_from xs family)
  unfolding update_from
  update_from-Tracked xs family h =
      update-Tracked api remove_stale _ _ family (Covers-labels _ _ (map-map (λ s. s.0) _ xs)) h

module _ {G F : Type 0} (floats : Floats F) (api : Gauges G F) where
  unfoldable pub update_lustre_metrics : LustreSamples F → Bool → LustreGauges G → LustreGauges G
  unfolding update_from filesystem_writes ost_writes mdt_writes capacity_writes aggregate_writes
      ost_operation_writes mdt_operation_writes
  update_lustre_metrics samples remove_stale gauges = record {
    filesystems =
        update_from api remove_stale info_label_values (filesystem_writes floats)
          samples.filesystems gauges.filesystems;
    capacities =
        update_from api remove_stale capacity_label_values capacity_writes samples.filesystems
          gauges.capacities;
    aggregates =
        update_from api remove_stale aggregate_label_values aggregate_writes
          samples.filesystem_aggregate_metrics gauges.aggregates;
    osts =
        update_from api remove_stale ost_label_values (ost_writes floats) samples.metrics
          gauges.osts;
    ost_operations =
        update_from api remove_stale operation_label_values ost_operation_writes
          samples.operation_metrics gauges.ost_operations;
    mdts =
        update_from api remove_stale mdt_label_values (mdt_writes floats) samples.mdt_metrics
          gauges.mdts;
    mdt_operations =
        update_from api remove_stale operation_label_values mdt_operation_writes
          samples.mdt_operation_metrics gauges.mdt_operations;
  }

  pub record LustreTracked (gauges : LustreGauges G) : Type 0 where
    pub filesystems_noted : Tracked api gauges.filesystems
    pub capacities_noted : Tracked api gauges.capacities
    pub aggregates_noted : Tracked api gauges.aggregates
    pub osts_noted : Tracked api gauges.osts
    pub ost_operations_noted : Tracked api gauges.ost_operations
    pub mdts_noted : Tracked api gauges.mdts
    pub mdt_operations_noted : Tracked api gauges.mdt_operations

  pub update_lustre_metrics-LustreTracked :
      (samples : LustreSamples F) (remove_stale : Bool) (gauges : LustreGauges G)
      → LustreTracked gauges
      → LustreTracked (update_lustre_metrics samples remove_stale gauges)
  unfolding update_lustre_metrics
  update_lustre_metrics-LustreTracked samples remove_stale gauges h = record {
    filesystems_noted = update_from-Tracked api remove_stale _ _ _ _ h.filesystems_noted;
    capacities_noted = update_from-Tracked api remove_stale _ _ _ _ h.capacities_noted;
    aggregates_noted = update_from-Tracked api remove_stale _ _ _ _ h.aggregates_noted;
    osts_noted = update_from-Tracked api remove_stale _ _ _ _ h.osts_noted;
    ost_operations_noted = update_from-Tracked api remove_stale _ _ _ _ h.ost_operations_noted;
    mdts_noted = update_from-Tracked api remove_stale _ _ _ _ h.mdts_noted;
    mdt_operations_noted = update_from-Tracked api remove_stale _ _ _ _ h.mdt_operations_noted;
  }

module _ {F : Type 0} (floats : Floats F) where
  -- What an OST sample says of each gauge.
  unfoldable pub ost_reading : OstGauge → OstMetric F → Option F
  unfolding ost_bytes_available_percent ost_bytes_used_percent
  ost_reading lustre_ost_bytes_available m = m.bytes_available
  ost_reading lustre_ost_bytes_used m = m.bytes_used
  ost_reading lustre_ost_bytes_total m = m.bytes_total
  ost_reading lustre_ost_bytes_available_percent m = ost_bytes_available_percent floats m
  ost_reading lustre_ost_bytes_used_percent m = ost_bytes_used_percent floats m
  ost_reading lustre_client_read_ops m = m.client_read_ops
  ost_reading lustre_client_read_throughput m = m.client_read_throughput_bytes_per_second
  ost_reading lustre_client_write_ops m = m.client_write_ops
  ost_reading lustre_client_write_throughput m = m.client_write_throughput_bytes_per_second
  ost_reading lustre_ost_connected_clients m = m.connected_clients
  ost_reading lustre_ost_sample_timestamp m = m.sample_timestamp_seconds

  ost_writes-reading :
      (n : OstGauge) (m : OstMetric F)
      → n ≢ lustre_ost_sample_timestamp
      → ost_writes floats m n ≡ set_or_remove (ost_reading n m)
  unfolding ost_writes ost_reading
  ost_writes-reading lustre_ost_bytes_available m h = refl
  ost_writes-reading lustre_ost_bytes_used m h = refl
  ost_writes-reading lustre_ost_bytes_total m h = refl
  ost_writes-reading lustre_ost_bytes_available_percent m h = refl
  ost_writes-reading lustre_ost_bytes_used_percent m h = refl
  ost_writes-reading lustre_client_read_ops m h = refl
  ost_writes-reading lustre_client_read_throughput m h = refl
  ost_writes-reading lustre_client_write_ops m h = refl
  ost_writes-reading lustre_client_write_throughput m h = refl
  ost_writes-reading lustre_ost_connected_clients m h = refl
  ost_writes-reading lustre_ost_sample_timestamp m h = elim (h refl) [ ]

  ost_writes-timestamp :
      (m : OstMetric F)
      → ost_writes floats m lustre_ost_sample_timestamp ≡ set_if_some m.sample_timestamp_seconds
  unfolding ost_writes
  ost_writes-timestamp m = refl

module _ {G F : Type 0} (floats : Floats F) (api : Gauges G F) where
  -- After a collection, every OST gauge but the sample timestamp shows what the last sample for the
  -- series says. A series without a sample is gone after a collection without errors, and is as it
  -- was after one with errors.
  pub update_lustre_metrics-osts :
      (samples : LustreSamples F) (remove_stale : Bool) (gauges : LustreGauges G) (n : OstGauge)
      (l : Labels)
      → LustreTracked floats api gauges
      → n ≢ lustre_ost_sample_timestamp
      → api.value ((update_lustre_metrics floats api samples remove_stale gauges).osts.gauge n) l
        ≡ last_or
            (ost_reading floats n)
            (last_with ost_label_values samples.metrics l)
            (if remove_stale then none else api.value (gauges.osts.gauge n) l)
  unfolding update_lustre_metrics update_from update
  update_lustre_metrics-osts samples true gauges n l h other =
      value-update api _ _ gauges.osts n l h.osts_noted
      ∙ after_samples-last ost_label_values (ost_writes floats) (ost_reading floats n)
          samples.metrics n l _ (λ m. ost_writes-reading floats n m other)
      ∙ last_or-stale (ost_reading floats n) ost_label_values samples.metrics l _
  update_lustre_metrics-osts samples false gauges n l h other =
      value-write_all api (samples_of ost_label_values (ost_writes floats) samples.metrics)
        gauges.osts.gauge n l
      ∙ after_samples-last ost_label_values (ost_writes floats) (ost_reading floats n)
          samples.metrics n l _ (λ m. ost_writes-reading floats n m other)

  -- The sample timestamp of an OST shows the last timestamp that a sample carries. Where samples
  -- for the series carry none it stays as it was, so that it can age. A series without a sample is
  -- gone after a collection without errors, and keeps its timestamp after one with errors.
  pub update_lustre_metrics-timestamp :
      (samples : LustreSamples F) (remove_stale : Bool) (gauges : LustreGauges G) (l : Labels)
      → LustreTracked floats api gauges
      → api.value
          ((update_lustre_metrics floats api samples remove_stale gauges).osts.gauge
            lustre_ost_sample_timestamp)
          l
        ≡ value_or
            (last_value (λ m. m.sample_timestamp_seconds) ost_label_values samples.metrics l)
            (if not remove_stale || contains (map ost_label_values samples.metrics) l
              then api.value (gauges.osts.gauge lustre_ost_sample_timestamp) l
              else none)
  unfolding update_lustre_metrics update_from update
  update_lustre_metrics-timestamp samples true gauges l h =
      value-update api _ _ gauges.osts lustre_ost_sample_timestamp l h.osts_noted
      ∙ after_samples-latest ost_label_values (ost_writes floats) (λ m. m.sample_timestamp_seconds)
          samples.metrics lustre_ost_sample_timestamp l _ (ost_writes-timestamp floats)
  update_lustre_metrics-timestamp samples false gauges l h =
      value-write_all api (samples_of ost_label_values (ost_writes floats) samples.metrics)
        gauges.osts.gauge lustre_ost_sample_timestamp l
      ∙ after_samples-latest ost_label_values (ost_writes floats) (λ m. m.sample_timestamp_seconds)
          samples.metrics lustre_ost_sample_timestamp l _ (ost_writes-timestamp floats)
