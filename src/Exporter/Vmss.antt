-- ===== src/Exporter/Vmss.antt =====
-- The gauges of `_update_metrics`, and what it writes to them from the counts of a collection.
use azure_lustre_vmss_metric.Prelude.{
  ◌≡◌, refl, true, none, some, List, map, flat_map, map-map, map-flat_map, string_eq, list_eq, ◌∙◌,
}
use azure_lustre_vmss_metric.Prelude.Number.{Floats, of_nat}
use azure_lustre_vmss_metric.Models.Vmss.{
  Labels, VmssCount, vmss_instance_states, label_values, state_counts, state_label_values,
  info_label_values,
}
use azure_lustre_vmss_metric.Exporter.Gauge.{Gauges}
use azure_lustre_vmss_metric.Exporter.Family.{
  Family, Write, put, Sample, Covers, update, Tracked, update-Tracked, value-update, set_or_remove,
}
use azure_lustre_vmss_metric.Exporter.Samples.{
  Covers-labels, last_with, last_or, after_samples-last, last_or-stale,
}

-- The gauges with `VMSS_LABELS`, with `VMSS_INSTANCE_STATE_LABELS` and with `VMSS_INFO_LABELS`.
pub data CountGauge : Type 0 where
  instance_count : CountGauge
  capacity : CountGauge

pub data StateGauge : Type 0 where
  instance_count_by_state : StateGauge

pub data InfoGauge : Type 0 where
  info : InfoGauge

pub record VmssGauges (G : Type 0) : Type 0 where
  pub counts : Family CountGauge G
  pub states : Family StateGauge G
  pub infos : Family InfoGauge G

unfoldable pub new_labelsets : List VmssCount → List Labels
new_labelsets counts = map label_values counts

unfoldable pub new_state_labelsets : List VmssCount → List Labels
new_state_labelsets counts =
    flat_map (λ count. map (state_label_values count) vmss_instance_states) counts

unfoldable pub new_info_labelsets : List VmssCount → List Labels
new_info_labelsets counts = map info_label_values counts

module _ {F : Type 0} (floats : Floats F) where
  open floats use {of_int}

  unfoldable pub count_writes : VmssCount → CountGauge → Write F
  count_writes count instance_count = put (of_int count.actual_instance_count)
  count_writes count CountGauge.capacity = put (of_int count.capacity)

  unfoldable pub count_samples : List VmssCount → List (Sample CountGauge F)
  unfolding count_writes
  count_samples counts = map (λ count. (label_values count, count_writes count)) counts

  unfoldable pub count_state_samples : VmssCount → List (Sample StateGauge F)
  count_state_samples count =
      map (λ entry. (state_label_values count entry.0, λ _. put (of_int entry.1)))
        (state_counts count)

  unfoldable pub state_samples : List VmssCount → List (Sample StateGauge F)
  unfolding count_state_samples
  state_samples counts = flat_map count_state_samples counts

  unfoldable pub info_samples : List VmssCount → List (Sample InfoGauge F)
  info_samples counts = map (λ count. (info_label_values count, λ _. put (of_nat floats 1))) counts

  count_samples-Covers :
      (counts : List VmssCount) → Covers (new_labelsets counts) (count_samples counts)
  unfolding count_samples new_labelsets
  count_samples-Covers counts = Covers-labels _ _ (map-map (λ s. s.0) _ counts)

  state_samples-Covers :
      (counts : List VmssCount) → Covers (new_state_labelsets counts) (state_samples counts)
  unfolding state_samples new_state_labelsets state_counts
  state_samples-Covers counts =
      Covers-labels _ _ (map-flat_map (λ s. s.0) count_state_samples counts)

  info_samples-Covers :
      (counts : List VmssCount) → Covers (new_info_labelsets counts) (info_samples counts)
  unfolding info_samples new_info_labelsets
  info_samples-Covers counts = Covers-labels _ _ (map-map (λ s. s.0) _ counts)

module _ {G F : Type 0} (floats : Floats F) (api : Gauges G F) where
  -- The body of `_update_metrics` under the lock, once writing is allowed.
  unfoldable pub update_metrics : List VmssCount → VmssGauges G → VmssGauges G
  unfolding new_labelsets new_state_labelsets new_info_labelsets count_samples state_samples
      info_samples update
  update_metrics new_counts gauges = record {
    counts =
        update api true (new_labelsets new_counts) (count_samples floats new_counts) gauges.counts;
    states =
        update api true (new_state_labelsets new_counts) (state_samples floats new_counts)
          gauges.states;
    infos =
        update api true (new_info_labelsets new_counts) (info_samples floats new_counts)
          gauges.infos;
  }

  pub record VmssTracked (gauges : VmssGauges G) : Type 0 where
    pub counts_noted : Tracked api gauges.counts
    pub states_noted : Tracked api gauges.states
    pub infos_noted : Tracked api gauges.infos

  pub update_metrics-VmssTracked :
      (new_counts : List VmssCount) (gauges : VmssGauges G)
      → VmssTracked gauges
      → VmssTracked (update_metrics new_counts gauges)
  unfolding update_metrics
  update_metrics-VmssTracked new_counts gauges h = record {
    counts_noted =
        update-Tracked api true _ _ _ (count_samples-Covers floats new_counts) h.counts_noted;
    states_noted =
        update-Tracked api true _ _ _ (state_samples-Covers floats new_counts) h.states_noted;
    infos_noted =
        update-Tracked api true _ _ _ (info_samples-Covers floats new_counts) h.infos_noted;
  }

module _ {F : Type 0} (floats : Floats F) where
  -- What a count says of each of its gauges.
  unfoldable pub counted : CountGauge → VmssCount → F
  counted instance_count count = floats.of_int count.actual_instance_count
  counted CountGauge.capacity count = floats.of_int count.capacity

  count_writes-counted :
      (n : CountGauge) (count : VmssCount)
      → count_writes floats count n ≡ set_or_remove (some (counted n count))
  unfolding count_writes counted set_or_remove
  count_writes-counted instance_count count = refl
  count_writes-counted CountGauge.capacity count = refl

module _ {G F : Type 0} (floats : Floats F) (api : Gauges G F) where
  -- After an update, `azure_vmss_instance_count` and `azure_vmss_capacity` show for every series
  -- the last count with its labels, and nothing for labels that no count has.
  pub update_metrics-counts :
      (new_counts : List VmssCount) (gauges : VmssGauges G) (n : CountGauge) (l : Labels)
      → VmssTracked floats api gauges
      → api.value ((update_metrics floats api new_counts gauges).counts.gauge n) l
        ≡ last_or
            (λ count. some (counted floats n count))
            (last_with label_values new_counts l)
            none
  unfolding update_metrics new_labelsets count_samples
  update_metrics-counts new_counts gauges n l h =
      value-update api (new_labelsets new_counts) (count_samples floats new_counts) gauges.counts n
        l h.counts_noted
      ∙ after_samples-last label_values (count_writes floats)
          (λ count. some (counted floats n count)) new_counts n l _ (count_writes-counted floats n)
      ∙ last_or-stale (λ count. some (counted floats n count)) label_values new_counts l _
