-- ===== src/Azure/Lustre/Outcomes.antt =====
-- `collect`: what a collection makes of the outcomes for all filesystems, whose workers may end in
-- any order.
use azure_lustre_vmss_metric.Prelude.{
  ℕ, ◌+◌, String, Bool, List, [], ◌∷◌, map, length, flat_map, string_eq, list_eq,
}
use azure_lustre_vmss_metric.Prelude.Number.{Floats}
use azure_lustre_vmss_metric.Prelude.Sorting.{tuple_le, sorted}
use azure_lustre_vmss_metric.Models.Lustre.{Filesystem, OstMetric, MdtMetric, OperationMetric}
use azure_lustre_vmss_metric.Models.Aggregates.{build_lustre_filesystem_aggregate_metrics}
use azure_lustre_vmss_metric.Azure.ResourceGraph.{Reply, replied}
use azure_lustre_vmss_metric.Azure.Lustre.Normalize.{Collected}
use azure_lustre_vmss_metric.Exporter.State.Collection.{LustreResult}

-- A filesystem and what its worker returned or raised.
abbrev pub Outcome : Type 0 → Type 0
Outcome F = Filesystem F × Reply (Collected F)

abbrev pub no_samples : {F : Type 0} → Collected F
no_samples = record {
  metrics = [];
  operation_metrics = [];
  mdt_metrics = [];
  mdt_operation_metrics = [];
}

-- The samples of an outcome
abbrev pub samples_of_reply : {F : Type 0} → Reply (Collected F) → Collected F
samples_of_reply (replied samples) = samples
samples_of_reply _ = no_samples

abbrev is_error : {F : Type 0} → Reply (Collected F) → ℕ
is_error (replied samples) = 0
is_error _ = 1

abbrev pub errors_of : {F : Type 0} → List (Outcome F) → ℕ
errors_of [] = 0
errors_of (outcome ∷ outcomes) = is_error outcome.1 + errors_of outcomes

-- The keys by which `collect` sorts
abbrev pub ost_sort_key : {F : Type 0} → OstMetric F → List String
ost_sort_key m = m.subscription_id ∷ m.resource_group ∷ m.filesystem_name ∷ m.ostnum ∷ []

abbrev mdt_sort_key : {F : Type 0} → MdtMetric F → List String
mdt_sort_key m = m.subscription_id ∷ m.resource_group ∷ m.filesystem_name ∷ m.mdtnum ∷ []

abbrev operation_sort_key : {F : Type 0} → OperationMetric F → List String
operation_sort_key m =
    m.subscription_id ∷ m.resource_group ∷ m.filesystem_name ∷ m.num ∷ m.operation ∷ []

abbrev pub by_key {ℓ} : {A : Type ℓ} → (A → List String) → A → A → Bool
by_key key a b = tuple_le (key a) (key b)

module _ {F : Type 0} where
  -- The four lists of a collection, for the outcomes in the order in which the workers ended.
  unfoldable pub merge_outcomes : List (Outcome F) → Collected F
  unfolding sorted
  merge_outcomes outcomes =
      let samples = map (λ outcome. samples_of_reply outcome.1) outcomes in
      record {
        metrics = sorted (by_key ost_sort_key) (flat_map (λ s. s.metrics) samples);
        operation_metrics =
            sorted (by_key operation_sort_key) (flat_map (λ s. s.operation_metrics) samples);
        mdt_metrics = sorted (by_key mdt_sort_key) (flat_map (λ s. s.mdt_metrics) samples);
        mdt_operation_metrics =
            sorted (by_key operation_sort_key) (flat_map (λ s. s.mdt_operation_metrics) samples);
      }

module _ {F : Type 0} (floats : Floats F) (sum : List F → F) where
  -- What `collect` returns for the filesystems that it discovered. Without any, the workers are not
  -- started and there are no outcomes.
  unfoldable pub collection_result : List (Filesystem F) → List (Outcome F) → F → LustreResult F
  unfolding merge_outcomes build_lustre_filesystem_aggregate_metrics
  collection_result filesystems outcomes now =
      let merged = merge_outcomes outcomes in
      record {
        samples = record {
          filesystems = filesystems;
          metrics = merged.metrics;
          operation_metrics = merged.operation_metrics;
          mdt_metrics = merged.mdt_metrics;
          mdt_operation_metrics = merged.mdt_operation_metrics;
          filesystem_aggregate_metrics =
              build_lustre_filesystem_aggregate_metrics floats sum
                (record {
                  filesystems = filesystems;
                  metrics = merged.metrics;
                  operation_metrics = merged.operation_metrics;
                  mdt_metrics = merged.mdt_metrics;
                  mdt_operation_metrics = merged.mdt_operation_metrics;
                })
                now;
        };
        filesystem_count = length filesystems;
        error_count = errors_of outcomes;
      }
