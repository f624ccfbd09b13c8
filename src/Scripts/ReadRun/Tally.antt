-- ===== src/Scripts/ReadRun/Tally.antt =====
-- The counters of `run_read` agree with one another and with the samples.
use azure_lustre_vmss_metric.Prelude.{
  ℕ, ◌+◌, ◌≤◌, String, ◌≡◌, refl, Bool, true, false, not, ◌&&◌, ◌||◌, List, [], ◌∷◌, ◌++◌, leb, ltb,
  length, length-append, string_eq, arith, ◌==◌, Bool-cases, inl, inr, ◌⊎◌,
}
use azure_lustre_vmss_metric.Prelude.Dict.{Dict, lookup, insert}
use azure_lustre_vmss_metric.Scripts.Slo.{samples_or}
use azure_lustre_vmss_metric.Scripts.ReadRun.{
  FileReadResult, Options, Tallies, Flow, goes_on, aborts, raises, count_or_zero, add_to,
  record_error, append_to, start, failed, counted, sampled,
}

-- The sum over the buckets
abbrev pub sum_of : Dict String ℕ → ℕ
sum_of [] = 0
sum_of ((bucket, n) ∷ counts) = n + sum_of counts

sum_of-insert :
    (k : String) (v : ℕ) (d : Dict String ℕ)
    → sum_of (insert k v d) + count_or_zero (lookup k d) ≡ sum_of d + v
unfolding insert lookup
sum_of-insert k v [] = omega arith
sum_of-insert k v ((j, w) ∷ d) = elim (Bool-cases (j == k)) [
  | inl is ↦ rw is (omega arith)
  | inr isnt ↦ rw isnt (omega (arith, sum_of-insert k v d))
]

sum_of-add_to : (k : String) (n : ℕ) (d : Dict String ℕ) → sum_of (add_to k n d) ≡ sum_of d + n
unfolding add_to
sum_of-add_to k n d = omega (arith, sum_of-insert k (count_or_zero (lookup k d) + n) d)

record_error-kept :
    (most n : ℕ) (path message : String) (errors : List (String × String))
    → length errors ≤ most
    → length errors ≤ n
    → (length (record_error most path message errors) ≤ most)
      × (length (record_error most path message errors) ≤ n + 1)
record_error-kept most n path message errors h k =
    ground (arith, length-append errors ((path, message) ∷ []))

-- A failure always aborts the run.
abbrev pub is_strict : Options → Bool
is_strict options =
    options.fail_on_read_error && (not options.write_outputs || options.fail_on_write_error)

module _ {F : Type 0} where
  -- How many samples the buckets hold
  abbrev pub samples_in : Dict String (List F) → ℕ
  samples_in [] = 0
  samples_in ((bucket, samples) ∷ rest) = length samples + samples_in rest

  samples_in-insert :
      (k : String) (v : List F) (d : Dict String (List F))
      → samples_in (insert k v d) + length (samples_or (lookup k d)) ≡ samples_in d + length v
  unfolding insert lookup
  samples_in-insert k v [] = omega arith
  samples_in-insert k v ((j, w) ∷ d) = elim (Bool-cases (j == k)) [
    | inl is ↦ rw is (omega arith)
    | inr isnt ↦ rw isnt (omega (arith, samples_in-insert k v d))
  ]

  pub samples_in-append_to :
      (k : String) (x : F) (d : Dict String (List F))
      → samples_in (append_to k x d) ≡ samples_in d + 1
  unfolding append_to
  samples_in-append_to k x d = omega (
    arith,
    samples_in-insert k (samples_or (lookup k d) ++ x ∷ []) d,
    length-append (samples_or (lookup k d)) (x ∷ []),
  )

  pub record IsTallied (options : Options) (t : Tallies F) : Type 0 where
    pub covered : t.files_attempted ≤ t.files_succeeded + t.files_failed
    pub exact :
        (options.write_outputs || leb (t.files_succeeded + t.files_failed) t.files_attempted) ≡ true
    pub succeeded : t.files_succeeded ≤ t.files_attempted
    pub counts : sum_of t.per_bucket_counts ≡ t.files_succeeded
    pub bytes : sum_of t.per_bucket_bytes ≡ t.bytes_read
    pub samples :
        length t.steady_latencies + length t.warmup_latencies + length t.hotset_latencies
        ≡ t.files_succeeded
    pub steady : samples_in t.per_bucket_steady ≡ length t.steady_latencies
    pub hotset : samples_in t.per_bucket_hotset ≡ length t.hotset_latencies
    pub outputs : samples_in t.per_bucket_write ≡ length t.write_latencies
    pub errors_kept :
        (length t.errors ≤ options.max_recorded_errors) × (length t.errors ≤ t.files_failed)

  -- What a run comes to.
  abbrev pub Ensures : Options → Flow F → Type 0
  Ensures options (goes_on t) =
      IsTallied options t × ((not (is_strict options) || not (ltb 0 t.files_failed)) ≡ true)
  Ensures options (aborts code t) =
      IsTallied options t
      × (1 ≤ t.files_failed)
      × ((code ≡ 2) × (options.fail_on_read_error ≡ true)
          ⊎ (code ≡ 3) × (options.fail_on_write_error ≡ true))
  Ensures options (raises message t) =
      IsTallied options t × ((not (is_strict options) || not (ltb 0 t.files_failed)) ≡ true)

  pub start-IsTallied : (options : Options) → IsTallied options start
  start-IsTallied options = record {
    covered = omega arith;
    exact = ground arith;
    succeeded = omega arith;
    counts = refl;
    bytes = refl;
    samples = refl;
    steady = refl;
    hotset = refl;
    outputs = refl;
    errors_kept = (omega arith, omega arith);
  }

  -- a read that failed
  pub failed-IsTallied :
      (options : Options) (path message : String) (t : Tallies F)
      → IsTallied options t
      → IsTallied options
          (failed options path message (record t { files_attempted = t.files_attempted + 1 }))
  unfolding failed
  failed-IsTallied options path message t h = record {
    covered = omega (arith, h.covered);
    exact = ground (arith, h.exact);
    succeeded = omega (arith, h.succeeded);
    counts = h.counts;
    bytes = h.bytes;
    samples = h.samples;
    steady = h.steady;
    hotset = h.hotset;
    outputs = h.outputs;
    errors_kept =
        record_error-kept options.max_recorded_errors t.files_failed path message t.errors
          h.errors_kept.0 h.errors_kept.1;
  }

  -- an output that failed
  pub output_failed-IsTallied :
      (options : Options) (path message : String) (t : Tallies F)
      → options.write_outputs ≡ true
      → IsTallied options t
      → IsTallied options (failed options path message t)
  unfolding failed
  output_failed-IsTallied options path message t writes h = record {
    covered = omega (arith, h.covered);
    exact = ground (arith, writes);
    succeeded = h.succeeded;
    counts = h.counts;
    bytes = h.bytes;
    samples = h.samples;
    steady = h.steady;
    hotset = h.hotset;
    outputs = h.outputs;
    errors_kept =
        record_error-kept options.max_recorded_errors t.files_failed path message t.errors
          h.errors_kept.0 h.errors_kept.1;
  }

  -- a read that succeeded
  pub sampled-IsTallied :
      (options : Options) (is_hotset warm : Bool) (latency_ms : F) (r : FileReadResult F)
      (t : Tallies F)
      → IsTallied options t
      → IsTallied options (
          sampled is_hotset warm latency_ms r
            (counted r (record t { files_attempted = t.files_attempted + 1 })))
  unfolding sampled counted
  sampled-IsTallied options true warm latency_ms r t h = record {
    covered = omega (arith, h.covered);
    exact = ground (arith, h.exact);
    succeeded = omega (arith, h.succeeded);
    counts = omega (arith, h.counts, sum_of-add_to r.bucket 1 t.per_bucket_counts);
    bytes = omega (arith, h.bytes, sum_of-add_to r.bucket r.bytes_read t.per_bucket_bytes);
    samples = omega (arith, h.samples, length-append t.hotset_latencies (latency_ms ∷ []));
    steady = h.steady;
    hotset = omega (
      arith,
      h.hotset,
      samples_in-append_to r.bucket latency_ms t.per_bucket_hotset,
      length-append t.hotset_latencies (latency_ms ∷ []),
    );
    outputs = h.outputs;
    errors_kept = h.errors_kept;
  }
  sampled-IsTallied options false true latency_ms r t h = record {
    covered = omega (arith, h.covered);
    exact = ground (arith, h.exact);
    succeeded = omega (arith, h.succeeded);
    counts = omega (arith, h.counts, sum_of-add_to r.bucket 1 t.per_bucket_counts);
    bytes = omega (arith, h.bytes, sum_of-add_to r.bucket r.bytes_read t.per_bucket_bytes);
    samples = omega (arith, h.samples, length-append t.warmup_latencies (latency_ms ∷ []));
    steady = h.steady;
    hotset = h.hotset;
    outputs = h.outputs;
    errors_kept = h.errors_kept;
  }
  sampled-IsTallied options false false latency_ms r t h = record {
    covered = omega (arith, h.covered);
    exact = ground (arith, h.exact);
    succeeded = omega (arith, h.succeeded);
    counts = omega (arith, h.counts, sum_of-add_to r.bucket 1 t.per_bucket_counts);
    bytes = omega (arith, h.bytes, sum_of-add_to r.bucket r.bytes_read t.per_bucket_bytes);
    samples = omega (arith, h.samples, length-append t.steady_latencies (latency_ms ∷ []));
    steady = omega (
      arith,
      h.steady,
      samples_in-append_to r.bucket latency_ms t.per_bucket_steady,
      length-append t.steady_latencies (latency_ms ∷ []),
    );
    hotset = h.hotset;
    outputs = h.outputs;
    errors_kept = h.errors_kept;
  }
