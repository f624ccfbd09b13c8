-- ===== src/Pipeline/Osts.antt =====
-- The OST gauges against the time series of an Azure Monitor response.
use azure_lustre_vmss_metric.Prelude.{
  String, ◌≡◌, ◌≢◌, refl, sym, ap, ◌∙◌, Option, none, some, List, [], ◌∷◌, map, ◌==◌, string_eq,
  list_eq, pair_eq, arith, beq_refl, subst, Bool-cases, inl, inr,
}
use azure_lustre_vmss_metric.Prelude.Dict.{Dict, lookup, Distinct}
use azure_lustre_vmss_metric.Prelude.Number.{Floats}
use azure_lustre_vmss_metric.Prelude.Result.{ok, bind-ok, ok-injective}
use azure_lustre_vmss_metric.Models.Vmss.{Labels}
use azure_lustre_vmss_metric.Models.Lustre.{Filesystem, OstMetric, ost_label_values}
use azure_lustre_vmss_metric.Azure.Value.{Value, Python}
use azure_lustre_vmss_metric.Azure.Lustre.Tables.{
  Table, Tables, to_ost, to_ost_operation, to_mdt, to_mdt_operation, empty_table, empty_tables,
  or_default, fill_tables,
}
use azure_lustre_vmss_metric.Azure.Lustre.Normalize.{
  ost_sample, place_of, samples_of, Collected, normalize_lustre_metrics_response,
}
use azure_lustre_vmss_metric.Azure.Lustre.Tables.{store}
use azure_lustre_vmss_metric.Azure.Lustre.Tables.Notes.{
  Note, note_all, noted_value, last_noted, or_old, or_old-none, noted_value-note_all,
  note_all-Distinct,
}
use azure_lustre_vmss_metric.Azure.Lustre.Tables.Readings.{
  Reading, readings, store_all, fill_tables-readings,
}
use azure_lustre_vmss_metric.Exporter.Samples.{last_with, last_or}
use azure_lustre_vmss_metric.Exporter.Lustre.{
  OstGauge, lustre_ost_bytes_available, lustre_ost_bytes_used, lustre_ost_bytes_total,
  lustre_ost_bytes_available_percent, lustre_ost_bytes_used_percent, lustre_client_read_ops,
  lustre_client_read_throughput, lustre_client_write_ops, lustre_client_write_throughput,
  lustre_ost_connected_clients, lustre_ost_sample_timestamp,
}
use azure_lustre_vmss_metric.Exporter.Lustre.Update.{ost_reading}

-- The Azure Monitor metric that a gauge shows as it is.
unfoldable pub metric_of : OstGauge → Option String
metric_of lustre_ost_bytes_available = some "OSTBytesAvailable"
metric_of lustre_ost_bytes_used = some "OSTBytesUsed"
metric_of lustre_ost_bytes_total = some "OSTBytesTotal"
metric_of lustre_ost_bytes_available_percent = none
metric_of lustre_ost_bytes_used_percent = none
metric_of lustre_client_read_ops = some "ClientReadOps"
metric_of lustre_client_read_throughput = some "ClientReadThroughput"
metric_of lustre_client_write_ops = some "ClientWriteOps"
metric_of lustre_client_write_throughput = some "ClientWriteThroughput"
metric_of lustre_ost_connected_clients = some "OSTConnectedClients"
metric_of lustre_ost_sample_timestamp = none

pub metric_of-other :
    (n : OstGauge) (metric : String) → metric_of n ≡ some metric → n ≢ lustre_ost_sample_timestamp
unfolding metric_of
metric_of-other n metric h same = absurd (ground (arith, sym h ∙ ap metric_of same))

-- The readings of OSTs.
unfoldable pub ost_notes : {F : Type 0} → List (Reading F) → List (Note String F)
ost_notes [] = []
ost_notes ((metric, latest, none) ∷ rest) = ost_notes rest
ost_notes ((metric, latest, some (to_ost ostnum)) ∷ rest) =
    (ostnum, metric, latest) ∷ ost_notes rest
ost_notes ((metric, latest, some (to_ost_operation key)) ∷ rest) = ost_notes rest
ost_notes ((metric, latest, some (to_mdt mdtnum)) ∷ rest) = ost_notes rest
ost_notes ((metric, latest, some (to_mdt_operation key)) ∷ rest) = ost_notes rest

module _ {F : Type 0} (filesystem : Filesystem F) where
  -- The labels of the series of an OST.
  unfoldable pub ost_labels : String → Labels
  ost_labels ostnum =
      filesystem.subscription_id ∷ filesystem.resource_group ∷ filesystem.filesystem_name
      ∷ filesystem.location ∷ ostnum ∷ []

  ost_labels-beq : (j k : String) → (ost_labels j == ost_labels k) ≡ (j == k)
  unfolding ost_labels
  ost_labels-beq j k = ground (
    arith,
    beq_refl filesystem.subscription_id,
    beq_refl filesystem.resource_group,
    beq_refl filesystem.filesystem_name,
    beq_refl filesystem.location,
  )

  pub ost_label_values-sample :
      (table : Table String F) (j : String) (row : Dict String F)
      → ost_label_values (ost_sample filesystem table (j, row)) ≡ ost_labels j
  unfolding ost_sample place_of ost_labels ost_label_values
  ost_label_values-sample table j row = refl

  unfoldable sample_at : Table String F → String → Option (Dict String F) → Option (OstMetric F)
  sample_at table k none = none
  sample_at table k (some row) = some (ost_sample filesystem table (k, row))

  last_with-row :
      (table : Table String F) (d : Dict String (Dict String F)) (k : String)
      → Distinct d
      → last_with ost_label_values (map (ost_sample filesystem table) d) (ost_labels k)
        ≡ sample_at table k (lookup k d)
  unfolding last_with lookup sample_at
  last_with-row table [] k h = refl
  last_with-row table ((j, row) ∷ d) k h =
      let rest = last_with-row table d k h.1 in
      let same =
        ap (λ l. l == ost_labels k) (ost_label_values-sample table j row) ∙ ost_labels-beq j k in
      elim (Bool-cases (j == k)) [
        | inl is ↦
            let eq = (string_eq.equals_iff j k).0 is in
            let none_left = rw eq at h.0 in
            rw eq (ground (arith, is, none_left, rest, rw eq at same, beq_refl k))
        | inr isnt ↦ ground (arith, isnt, rest, same)
      ]

module _ {F : Type 0} (floats : Floats F) where
  store_all-ost :
      (rs : List (Reading F)) (tables : Tables F)
      → (store_all floats rs tables).ost ≡ note_all floats (ost_notes rs) tables.ost
  unfolding store_all store ost_notes note_all
  store_all-ost [] tables = refl
  store_all-ost ((m, l, none) ∷ rs) tables = store_all-ost rs _
  store_all-ost ((m, l, some (to_ost k)) ∷ rs) tables = store_all-ost rs _
  store_all-ost ((m, l, some (to_ost_operation k)) ∷ rs) tables = store_all-ost rs _
  store_all-ost ((m, l, some (to_mdt k)) ∷ rs) tables = store_all-ost rs _
  store_all-ost ((m, l, some (to_mdt_operation k)) ∷ rs) tables = store_all-ost rs _

module _ {F : Type 0} (floats : Floats F) (filesystem : Filesystem F) where
  ost_reading-sample :
      (n : OstGauge) (name : String) (table : Table String F) (k : String) (row : Dict String F)
      → metric_of n ≡ some name
      → ost_reading floats n (ost_sample filesystem table (k, row)) ≡ lookup name row
  unfolding ost_reading ost_sample metric_of
  ost_reading-sample lustre_ost_bytes_available name table k row h = ground (arith, h)
  ost_reading-sample lustre_ost_bytes_used name table k row h = ground (arith, h)
  ost_reading-sample lustre_ost_bytes_total name table k row h = ground (arith, h)
  ost_reading-sample lustre_ost_bytes_available_percent name table k row h =
      absurd (ground (arith, h))
  ost_reading-sample lustre_ost_bytes_used_percent name table k row h = absurd (ground (arith, h))
  ost_reading-sample lustre_client_read_ops name table k row h = ground (arith, h)
  ost_reading-sample lustre_client_read_throughput name table k row h = ground (arith, h)
  ost_reading-sample lustre_client_write_ops name table k row h = ground (arith, h)
  ost_reading-sample lustre_client_write_throughput name table k row h = ground (arith, h)
  ost_reading-sample lustre_ost_connected_clients name table k row h = ground (arith, h)
  ost_reading-sample lustre_ost_sample_timestamp name table k row h = absurd (ground (arith, h))

  sample_at-value :
      (n : OstGauge) (name : String) (table : Table String F) (k : String)
      (row : Option (Dict String F))
      → metric_of n ≡ some name
      → last_or (ost_reading floats n) (sample_at filesystem table k row) none
        ≡ lookup name (or_default row [])
  unfolding sample_at last_or lookup
  sample_at-value n name table k none h = refl
  sample_at-value n name table k (some row) h = ost_reading-sample n name table k row h

  -- What a gauge makes of the samples of the OST in the tables.
  sample_of_tables :
      (rs : List (Reading F)) (n : OstGauge) (name ostnum : String)
      → metric_of n ≡ some name
      → last_or
          (ost_reading floats n)
          (last_with ost_label_values
            (samples_of filesystem (store_all floats rs empty_tables)).metrics
            (ost_labels filesystem ostnum))
          none
        ≡ last_noted (ost_notes rs) ostnum name
  unfolding samples_of noted_value lookup or_old
  sample_of_tables rs n name ostnum h =
      let table = (store_all floats rs empty_tables).ost in
      let notes = note_all floats (ost_notes rs) empty_table in
      let same = store_all-ost floats rs empty_tables in
      let distinct =
        subst (λ t. Distinct t.values) (sym same)
          (note_all-Distinct floats (ost_notes rs) empty_table tt) in
      ap (λ o. last_or (ost_reading floats n) o none)
        (last_with-row filesystem table table.values ostnum distinct)
      ∙ sample_at-value n name table ostnum (lookup ostnum table.values) h
      ∙ ap (λ t. noted_value t ostnum name) same
      ∙ noted_value-note_all floats (ost_notes rs) empty_table ostnum name
      ∙ or_old-none (last_noted (ost_notes rs) ostnum name)

module _ {F : Type 0} (floats : Floats F) (py : Python F) (filesystem : Filesystem F) where
  -- The samples that are made of a response make each OST gauge that shows an Azure Monitor metric
  -- as it is show, for every OST, the last reading of that metric in the response, and nothing
  -- where the response has none.
  pub normalize_lustre_metrics_response-osts :
      (response : Value F) (collected : Collected F) (n : OstGauge) (metric ostnum : String)
      → normalize_lustre_metrics_response floats py filesystem response ≡ ok collected
      → metric_of n ≡ some metric
      → (rs : List (Reading F)) × (readings floats py response ≡ ok rs)
        × (last_or
              (ost_reading floats n)
              (last_with ost_label_values collected.metrics (ost_labels filesystem ostnum))
              none
            ≡ last_noted (ost_notes rs) ostnum metric)
  unfolding normalize_lustre_metrics_response
  normalize_lustre_metrics_response-osts response collected n metric ostnum h shows =
      let (tables, filled, made) =
        bind-ok (fill_tables floats py response) (λ tables. ok (samples_of filesystem tables))
          collected h in
      let (rs, read, stored) =
        bind-ok (readings floats py response) (λ rs. ok (store_all floats rs empty_tables)) tables
          (sym (fill_tables-readings floats py response) ∙ filled) in
      let same = ap (samples_of filesystem) (ok-injective _ _ stored) ∙ ok-injective _ _ made in
      (
        rs,
        read,
        subst
            (λ c.
              last_or (ost_reading floats n)
                (last_with ost_label_values c.metrics (ost_labels filesystem ostnum)) none
              ≡ last_noted (ost_notes rs) ostnum metric)
            same (sample_of_tables floats filesystem rs n metric ostnum shows),
      )
