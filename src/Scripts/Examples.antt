-- ===== src/Scripts/Examples.antt =====
-- Small runs of the tools.
use azure_lustre_vmss_metric.Prelude.{
  ℕ, ◌≤◌, String, ◌≡◌, ◌≢◌, ◌⊎◌, refl, true, false, ◌&&◌, not, Option, none, some, List, [], ◌∷◌,
  string_eq, list_eq, All, all, length, ◌==◌,
}
use azure_lustre_vmss_metric.Prelude.Dict.{Dict, lookup}
use azure_lustre_vmss_metric.Prelude.Sets.{contains}
use azure_lustre_vmss_metric.Prelude.Fixtures.{floats}
use azure_lustre_vmss_metric.Prelude.Number.{ℤ, pos}
use azure_lustre_vmss_metric.Prelude.Result.{ok}
use azure_lustre_vmss_metric.Scripts.Budget.{Arguments, SafeWriteBudget, calculate_budget}
use azure_lustre_vmss_metric.Scripts.Roots.{
  Paths, Resolved, is_inside, assert_disjoint_roots, resolve_walk_root, resolve_walk_root-apart,
}
use azure_lustre_vmss_metric.Scripts.Outputs.{
  IsResolving, pod_output_dir, check_output, check_output-apart,
}
use azure_lustre_vmss_metric.Scripts.Payload.{
  write_chunks, sum, planned_output_payload_bytes, planned_output_payload_bytes-write_chunks,
}
use azure_lustre_vmss_metric.Scripts.Shards.{
  FileEntry, sum_over, shard_count, shard_files, shard_files-partition,
}
use azure_lustre_vmss_metric.Scripts.Selection.{select_files, Sublist, select_files-IsSelection}
use azure_lustre_vmss_metric.Scripts.Slo.{evaluate_slo, exceeds, size_buckets, evaluate_slo_lem}

abbrev arguments : Arguments ℕ
arguments = record {
  capacity_bytes = pos 1000;
  used_bytes = pos 100;
  max_used_percent = 100;
  safety_reserve_bytes = pos 50;
  planned_write_bytes = pos 850;
}

abbrev budget : SafeWriteBudget ℕ
budget = record {
  capacity_bytes = 1000;
  used_bytes = 100;
  max_used_percent = 100;
  safety_reserve_bytes = 50;
  planned_write_bytes = 850;
  max_allowed_used_bytes = 1000;
  safe_write_budget_bytes = 850;
  projected_used_bytes = 950;
  projected_used_percent = 0;
  allowed = true;
  reason = "planned write fits within the safe write budget";
}

calculated : calculate_budget floats (λ x. x) arguments ≡ ok budget
unfolding calculate_budget
calculated = refl

-- Paths without links
abbrev appended : Resolved → Resolved → Resolved
appended [] ys = ys
appended (x ∷ xs) ys = x ∷ appended xs ys

abbrev paths : Paths Resolved
paths = record {
  resolve = λ p. ok p;
  path = λ s. s ∷ [];
  strip = λ s. s;
  is_absolute = λ p. false;
  parts = λ p. p;
  join = appended;
  as_path = λ p. p;
}

abbrev data_root : Resolved
data_root = "lustre" ∷ "data" ∷ []

abbrev results : Resolved
results = "lustre" ∷ "results" ∷ []

accepted : assert_disjoint_roots paths data_root results ≡ ok (data_root, results)
unfolding assert_disjoint_roots
accepted = refl

resolve_walk_root-apart_example :
    (is_inside ("lustre" ∷ "data" ∷ "train" ∷ "a" ∷ []) data_root ≡ true)
    × (is_inside ("lustre" ∷ "data" ∷ "train" ∷ "a" ∷ []) results ≡ false)
unfolding resolve_walk_root
resolve_walk_root-apart_example =
    resolve_walk_root-apart paths data_root results data_root results (some "train")
      ("lustre" ∷ "data" ∷ "train" ∷ []) ("lustre" ∷ "data" ∷ "train" ∷ "a" ∷ []) accepted refl refl

resolving : IsResolving paths
resolving = record { idempotent = λ p r h. refl }

check_output-apart_example :
    (is_inside ("lustre" ∷ "results" ∷ "run" ∷ "pod" ∷ "x" ∷ []) results ≡ true)
    × (is_inside ("lustre" ∷ "results" ∷ "run" ∷ "pod" ∷ "x" ∷ []) data_root ≡ false)
unfolding pod_output_dir check_output
check_output-apart_example =
    check_output-apart paths resolving data_root results data_root results "run" "pod"
      ("lustre" ∷ "results" ∷ "run" ∷ "pod" ∷ []) ("lustre" ∷ "results" ∷ "run" ∷ "pod" ∷ "x" ∷ [])
      ("lustre" ∷ "results" ∷ "run" ∷ "pod" ∷ "x" ∷ []) accepted refl refl

planned_output_payload_bytes-write_chunks_example :
    (1500 ≤ 1500)
    × (sum (write_chunks 1500 1500) ≡ 1500)
    × All (λ chunk. (1 ≤ chunk) × (chunk ≤ 1024)) (write_chunks 1500 1500)
unfolding planned_output_payload_bytes
planned_output_payload_bytes-write_chunks_example =
    planned_output_payload_bytes-write_chunks floats (λ x. x) (pos 3000) 1 1500 1500 refl

shard_files-partition_example :
    sum_over 2 (λ k.
      shard_count
        (λ (name : String). name == "b")
        (shard_files ("a" ∷ "b" ∷ "b" ∷ []) (pos k) (pos 2)))
    ≡ 2
shard_files-partition_example =
    shard_files-partition (λ (name : String). name == "b") ("a" ∷ "b" ∷ "b" ∷ []) 1

abbrev file : String → ℕ → FileEntry
file path size = record { path = path; size = size; bucket = "small" }

abbrev no_limit : Option ℤ
no_limit = none

-- The third file is not reached, and no limit of bytes is given.
select_files-IsSelection_example :
    (2 ≤ 2)
    × Unit {0}
    × Sublist (file "a" 5 ∷ file "b" 7 ∷ []) (file "a" 5 ∷ file "b" 7 ∷ file "c" 4 ∷ [])
    × ((some (pos 2) ≡ some (pos (length (file "a" 5 ∷ file "b" 7 ∷ []))))
        ⊎ ((no_limit ≢ none)
            ⊎ (file "a" 5 ∷ file "b" 7 ∷ [] ≡ file "a" 5 ∷ file "b" 7 ∷ file "c" 4 ∷ [])))
unfolding select_files
select_files-IsSelection_example =
    select_files-IsSelection (λ seed files. files) (file "a" 5 ∷ file "b" 7 ∷ file "c" 4 ∷ [])
      (some (pos 2)) no_limit (pos 1) (file "a" 5 ∷ file "b" 7 ∷ []) refl

abbrev latencies : Dict String (List ℕ)
latencies = ("small", 7 ∷ []) ∷ ("large", 9 ∷ []) ∷ []

abbrev thresholds : Dict String ℕ
thresholds = ("small", 5) ∷ ("medium", 5) ∷ []

evaluate_slo_lem_example :
    (contains (evaluate_slo floats (λ xs. 7) latencies thresholds).failures "small" ≡ (
      contains size_buckets "small"
      && exceeds floats (λ xs. 7) (lookup "small" latencies) (lookup "small" thresholds)))
    × ((evaluate_slo floats (λ xs. 7) latencies thresholds).pass
        ≡ all
            (λ b. not (exceeds floats (λ xs. 7) (lookup b latencies) (lookup b thresholds)))
            size_buckets)
evaluate_slo_lem_example = evaluate_slo_lem floats (λ xs. 7) latencies thresholds "small"
