-- ===== src/Models/Aggregates.antt =====
-- `build_lustre_filesystem_aggregate_metrics`: the derived samples of each filesystem that has
-- samples of its own.
--
-- `sum` is a parameter, as the rounding of Python's `sum` depends on its version.
use azure_lustre_vmss_metric.Prelude.{
  Bool, ◌&&◌, ◌||◌, not, Option, none, some, List, [], ◌∷◌, ◌++◌, map, ◌==◌, string_eq, list_eq,
  if◌then◌else◌, is_empty, keep,
}
use azure_lustre_vmss_metric.Prelude.Sets.{unique_by}
use azure_lustre_vmss_metric.Prelude.Sorting.{tuple_le, sorted}
use azure_lustre_vmss_metric.Prelude.Number.{Floats, of_nat}
use azure_lustre_vmss_metric.Models.Lustre.{
  Filesystem, Place, OstMetric, MdtMetric, OperationMetric, AggregateMetric, place_label_values,
}

-- What the function is given, less the time.
pub record Inputs (F : Type 0) : Type 0 where
  pub filesystems : List (Filesystem F)
  pub metrics : List (OstMetric F)
  pub operation_metrics : List (OperationMetric F)
  pub mdt_metrics : List (MdtMetric F)
  pub mdt_operation_metrics : List (OperationMetric F)

-- `[x for x in xs if x is not None]`
abbrev pub present {ℓ} : {A : Type ℓ} → List (Option A) → List A
present [] = []
present (none ∷ xs) = present xs
present (some x ∷ xs) = x ∷ present xs

module _ {F : Type 0} (floats : Floats F) where
  open floats use {lt, le, add, sub, div}

  -- `max(xs)` and `min(xs)` of a list that starts with `x`: the first of the greatest or least.
  unfoldable pub max_of : F → List F → F
  max_of x [] = x
  max_of x (y ∷ ys) = max_of (if lt x y then y else x) ys

  unfoldable pub min_of : F → List F → F
  min_of x [] = x
  min_of x (y ∷ ys) = min_of (if lt y x then y else x) ys

  abbrev greatest : List F → Option F
  unfolding max_of
  greatest [] = none
  greatest (x ∷ xs) = some (max_of x xs)

  -- `_max_optional`
  unfoldable pub max_optional : List (Option F) → Option F
  unfolding max_of
  max_optional values = greatest (present values)

  -- `value or 0.0`
  unfoldable pub or_zero : Option F → F
  or_zero none = of_nat floats 0
  or_zero (some v) = let zero = of_nat floats 0 in if le v zero && le zero v then zero else v

  -- `max(0.0, now_seconds - min(timestamps)) if timestamps else None`
  unfoldable pub max_age : F → List F → Option F
  unfolding min_of
  max_age now [] = none
  max_age now (t ∷ ts) =
      let age = sub now (min_of t ts) in
      let zero = of_nat floats 0 in some (if lt zero age then age else zero)

module _ {F : Type 0} (sum : List F → F) where
  abbrev total : List F → Option F
  total [] = none
  total (x ∷ xs) = some (sum (x ∷ xs))

  -- `_sum_optional`
  unfoldable pub sum_optional : List (Option F) → Option F
  sum_optional values = total (present values)

-- `_filesystem_metric_key(metric) == key`, where the keys are tuples
abbrev pub is_at : Place → Place → Bool
is_at key place = place_label_values place == place_label_values key

module _ {F : Type 0} where
  -- `filesystem.capacity_label_values`
  abbrev pub filesystem_key : Filesystem F → Place
  filesystem_key f = record {
    subscription_id = f.subscription_id;
    resource_group = f.resource_group;
    filesystem_name = f.filesystem_name;
    location = f.location;
  }

  -- The samples at a key.
  unfoldable pub samples_at : Place → Inputs F → Inputs F
  samples_at key inputs = record inputs {
    metrics = keep (λ m. is_at key m.place) inputs.metrics;
    operation_metrics = keep (λ m. is_at key m.place) inputs.operation_metrics;
    mdt_metrics = keep (λ m. is_at key m.place) inputs.mdt_metrics;
    mdt_operation_metrics = keep (λ m. is_at key m.place) inputs.mdt_operation_metrics;
  }

  unfoldable pub has_samples : Inputs F → Bool
  has_samples inputs =
      not (is_empty inputs.metrics)
      || not (is_empty inputs.operation_metrics)
      || not (is_empty inputs.mdt_metrics)
      || not (is_empty inputs.mdt_operation_metrics)

  unfoldable pub timestamps_of : Inputs F → List F
  timestamps_of inputs = present (
      map (λ m. m.sample_timestamp_seconds) inputs.metrics
      ++ map (λ m. m.sample_timestamp_seconds) inputs.operation_metrics
      ++ map (λ m. m.sample_timestamp_seconds) inputs.mdt_metrics
      ++ map (λ m. m.sample_timestamp_seconds) inputs.mdt_operation_metrics)

  -- Every key that an input has, in the order of the updates of the set.
  unfoldable pub all_keys : Inputs F → List Place
  all_keys inputs =
      map filesystem_key inputs.filesystems
      ++ map (λ m. m.place) inputs.metrics
      ++ map (λ m. m.place) inputs.operation_metrics
      ++ map (λ m. m.place) inputs.mdt_metrics
      ++ map (λ m. m.place) inputs.mdt_operation_metrics

abbrev pub place_le : Place → Place → Bool
place_le p q = tuple_le (place_label_values p) (place_label_values q)

module _ {F : Type 0} (floats : Floats F) (sum : List F → F) where
  open floats use {lt, add, div}

  -- The ratio of metadata operations to data operations
  unfoldable pub amplification : Inputs F → F
  unfolding or_zero
  amplification inputs =
      let metadata_ops =
        sum (map (λ m. or_zero floats m.client_ops) inputs.mdt_operation_metrics) in
      let client_data_ops = sum (
        map (λ m. add (or_zero floats m.client_read_ops) (or_zero floats m.client_write_ops))
          inputs.metrics) in
      let one = of_nat floats 1 in
      div metadata_ops (if lt client_data_ops one then one else client_data_ops)

  -- The body of the loop; `none` is a `continue`.
  unfoldable pub aggregate_of : F → Place → Inputs F → Option (AggregateMetric F)
  unfolding has_samples amplification max_optional sum_optional max_age timestamps_of
  aggregate_of now key inputs =
      if has_samples inputs
      then some (record {
        place = key;
        connected_clients = max_optional floats (map (λ m. m.connected_clients) inputs.mdt_metrics);
        client_evictions = sum_optional sum (map (λ m. m.client_evictions) inputs.mdt_metrics);
        metadata_amplification_ratio = some (amplification inputs);
        sample_max_age_seconds = max_age floats now (timestamps_of inputs);
      })
      else none

  unfoldable pub build_lustre_filesystem_aggregate_metrics : Inputs F → F → List (AggregateMetric F)
  unfolding aggregate_of samples_at sorted unique_by all_keys
  build_lustre_filesystem_aggregate_metrics inputs now = present (
      map (λ key. aggregate_of now key (samples_at key inputs))
        (sorted place_le (unique_by place_label_values (all_keys inputs))))
