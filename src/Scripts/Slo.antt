-- ===== src/Scripts/Slo.antt =====
-- scripts/av_lustre_workload.py: `evaluate_slo`. `percentile xs 95` is the parameter `p95`, of
-- samples that are not empty.
use azure_lustre_vmss_metric.Prelude.{
  ℕ, String, ◌≡◌, refl, Bool, false, ◌&&◌, not, Option, none, some, List, [], ◌∷◌, string_eq,
  if◌then◌else◌, arith, length, is_empty, keep, all, ap, ◌∙◌,
}
use azure_lustre_vmss_metric.Prelude.Dict.{Dict, lookup}
use azure_lustre_vmss_metric.Prelude.Sets.{contains, contains-keep}
use azure_lustre_vmss_metric.Prelude.Number.{Floats, of_nat}

abbrev pub size_buckets : List String
size_buckets = "small" ∷ "medium" ∷ "large" ∷ "xlarge" ∷ []

-- `d.get(bucket) or []`
abbrev pub samples_or : {F : Type 0} → Option (List F) → List F
samples_or none = []
samples_or (some samples) = samples

pub record BucketResult (F : Type 0) : Type 0 where
  pub count : ℕ
  pub p95_ms : F
  pub threshold_ms : Option F
  pub pass : Option Bool

pub record SloResult (F : Type 0) : Type 0 where
  pub pass : Bool
  pub failures : List String
  pub per_bucket : Dict String (BucketResult F)

module _ {F : Type 0} (floats : Floats F) (p95 : List F → F) where
  abbrev p95_or_zero : List F → F
  p95_or_zero samples = if is_empty samples then of_nat floats 0 else p95 samples

  -- `entry["pass"]`
  unfoldable pub verdict : List F → Option F → Option Bool
  verdict samples none = none
  verdict samples (some threshold) =
      if is_empty samples then none else some (floats.le (p95 samples) threshold)

  unfoldable pub bucket_result : Dict String (List F) → Dict String F → String → BucketResult F
  unfolding verdict lookup
  bucket_result latencies thresholds bucket =
      let samples = samples_or (lookup bucket latencies) in
      let threshold = lookup bucket thresholds in
      record {
        count = length samples;
        p95_ms = p95_or_zero samples;
        threshold_ms = threshold;
        pass = verdict samples threshold;
      }

  abbrev is_failure : Option Bool → Bool
  is_failure none = false
  is_failure (some passed) = not passed

  -- The loop over the buckets
  unfoldable pub per_bucket_of :
      Dict String (List F) → Dict String F → List String → Dict String (BucketResult F)
  unfolding bucket_result
  per_bucket_of latencies thresholds [] = []
  per_bucket_of latencies thresholds (bucket ∷ buckets) =
      (bucket, bucket_result latencies thresholds bucket)
      ∷ per_bucket_of latencies thresholds buckets

  unfoldable pub failures_of : Dict String (List F) → Dict String F → List String → List String
  unfolding bucket_result
  failures_of latencies thresholds [] = []
  failures_of latencies thresholds (bucket ∷ buckets) =
      let rest = failures_of latencies thresholds buckets in
      if is_failure (bucket_result latencies thresholds bucket).pass then bucket ∷ rest else rest

  unfoldable pub evaluate_slo : Dict String (List F) → Dict String F → SloResult F
  unfolding per_bucket_of failures_of
  evaluate_slo latencies thresholds =
      let failures = failures_of latencies thresholds size_buckets in
      record {
        pass = is_empty failures;
        failures = failures;
        per_bucket = per_bucket_of latencies thresholds size_buckets;
      }

  -- There are samples and a threshold, and the p95 of the samples exceeds it.
  abbrev pub exceeds : Option (List F) → Option F → Bool
  exceeds none threshold = false
  exceeds (some []) threshold = false
  exceeds (some (x ∷ xs)) none = false
  exceeds (some (x ∷ xs)) (some threshold) = not (floats.le (p95 (x ∷ xs)) threshold)

  verdict-exceeds :
      (samples : Option (List F)) (threshold : Option F)
      → is_failure (verdict (samples_or samples) threshold) ≡ exceeds samples threshold
  unfolding verdict
  verdict-exceeds none none = refl
  verdict-exceeds none (some t) = refl
  verdict-exceeds (some []) none = refl
  verdict-exceeds (some []) (some t) = refl
  verdict-exceeds (some (x ∷ xs)) none = refl
  verdict-exceeds (some (x ∷ xs)) (some t) = refl

  failures_of-keep :
      (latencies : Dict String (List F)) (thresholds : Dict String F) (buckets : List String)
      → failures_of latencies thresholds buckets
        ≡ keep (λ b. exceeds (lookup b latencies) (lookup b thresholds)) buckets
  unfolding failures_of bucket_result
  failures_of-keep latencies thresholds [] = refl
  failures_of-keep latencies thresholds (bucket ∷ buckets) = ground (
    arith,
    failures_of-keep latencies thresholds buckets,
    verdict-exceeds (lookup bucket latencies) (lookup bucket thresholds),
  )

  is_empty-keep :
      (p : String → Bool) (buckets : List String)
      → is_empty (keep p buckets) ≡ all (λ b. not (p b)) buckets
  is_empty-keep p [] = refl
  is_empty-keep p (bucket ∷ buckets) = ground (arith, is_empty-keep p buckets)

  -- A run fails exactly the buckets of files whose samples have a p95 above the threshold that is set
  -- for them, and it passes exactly if there is no such bucket. A bucket without samples or without
  -- a threshold does not fail it.
  pub evaluate_slo_lem :
      (latencies : Dict String (List F)) (thresholds : Dict String F) (bucket : String)
      → (contains (evaluate_slo latencies thresholds).failures bucket ≡ (
          contains size_buckets bucket
          && exceeds (lookup bucket latencies) (lookup bucket thresholds)))
        × ((evaluate_slo latencies thresholds).pass
            ≡ all (λ b. not (exceeds (lookup b latencies) (lookup b thresholds))) size_buckets)
  unfolding evaluate_slo
  evaluate_slo_lem latencies thresholds bucket =
      let slow = λ (b : String). exceeds (lookup b latencies) (lookup b thresholds) in
      let kept = failures_of-keep latencies thresholds size_buckets in
      (
        ap (λ failures. contains failures bucket) kept ∙ contains-keep slow size_buckets bucket,
        ap is_empty kept ∙ is_empty-keep slow size_buckets,
      )
