-- ===== src/Scripts/ReadRun.antt =====
-- scripts/av_lustre_workload.py: the epochs of `run_read`, and what it counts.
--
-- `World` gives the result of each read and of each output, by the number of those before it, and
-- says whether a read ended within the warm-up. The files are those of the pod's shard, selected
-- anew for each epoch, and the hot set. Progress lines are left out.
pub mod Tally
pub mod Runs
mod Examples
use azure_lustre_vmss_metric.Prelude.{
  ℕ, zero, suc, ◌+◌, String, Bool, true, false, ◌&&◌, ◌||◌, Option, none, some, List, [], ◌∷◌, ◌++◌,
  ltb, length, if◌then◌else◌, string_eq,
}
use azure_lustre_vmss_metric.Prelude.Dict.{Dict, lookup, insert}
use azure_lustre_vmss_metric.Prelude.Result.{Result, ok, err, ◌>>=◌}
use azure_lustre_vmss_metric.Scripts.Shards.{FileEntry}
use azure_lustre_vmss_metric.Scripts.Read.{FileReadResult}
use azure_lustre_vmss_metric.Scripts.Slo.{size_buckets, samples_or}

pub record World (F : Type 0) : Type 0 where
  pub read : ℕ → FileEntry → FileReadResult F
  -- the bytes written and the time that it took
  pub write_per_pod_output : ℕ → FileReadResult F → Result String (ℕ × F)
  -- `elapsed_seconds * 1000.0`
  pub milliseconds : F → F
  pub is_warming_up : ℕ → Bool
  -- `planned_output_payload_bytes` of a size, with the arguments of the run
  pub payload_bytes : ℕ → Result String ℕ

pub record Options : Type 0 where
  pub write_outputs : Bool
  pub fail_on_read_error : Bool
  pub fail_on_write_error : Bool
  pub max_recorded_errors : ℕ

-- The summary, and the samples that `run_read` keeps beside it.
pub record Tallies (F : Type 0) : Type 0 where
  pub files_attempted : ℕ
  pub files_succeeded : ℕ
  pub files_failed : ℕ
  pub bytes_read : ℕ
  pub bytes_written : ℕ
  pub planned_output_bytes : ℕ
  pub epochs_completed : ℕ
  pub errors : List (String × String)
  pub per_bucket_counts : Dict String ℕ
  pub per_bucket_bytes : Dict String ℕ
  pub steady_latencies : List F
  pub warmup_latencies : List F
  pub hotset_latencies : List F
  pub write_latencies : List F
  pub per_bucket_steady : Dict String (List F)
  pub per_bucket_hotset : Dict String (List F)
  pub per_bucket_write : Dict String (List F)

-- `_abort_with_summary` raises SystemExit with a code. What is planned may raise a ValueError.
pub data Flow (F : Type 0) : Type 0 where
  goes_on : Tallies F → Flow F
  aborts : ℕ → Tallies F → Flow F
  raises : String → Tallies F → Flow F

-- `counts.get(bucket, 0)`
abbrev pub count_or_zero : Option ℕ → ℕ
count_or_zero none = 0
count_or_zero (some n) = n

unfoldable pub add_to : String → ℕ → Dict String ℕ → Dict String ℕ
unfolding insert lookup
add_to bucket n counts = insert bucket (count_or_zero (lookup bucket counts) + n) counts

-- `dict.fromkeys(SIZE_BUCKETS, …)`
abbrev pub for_each : {V : Type 0} → List String → V → Dict String V
for_each [] v = []
for_each (bucket ∷ buckets) v = (bucket, v) ∷ for_each buckets v

abbrev pub record_error : ℕ → String → String → List (String × String) → List (String × String)
record_error most path message errors =
    if ltb (length errors) most then errors ++ (path, message) ∷ [] else errors

module _ {F : Type 0} where
  -- `samples.setdefault(bucket, []).append(x)`
  unfoldable pub append_to : String → F → Dict String (List F) → Dict String (List F)
  unfolding insert lookup
  append_to bucket x samples = insert bucket (samples_or (lookup bucket samples) ++ x ∷ []) samples

  abbrev pub start : Tallies F
  start = record {
    files_attempted = 0;
    files_succeeded = 0;
    files_failed = 0;
    bytes_read = 0;
    bytes_written = 0;
    planned_output_bytes = 0;
    epochs_completed = 0;
    errors = [];
    per_bucket_counts = for_each size_buckets 0;
    per_bucket_bytes = for_each size_buckets 0;
    steady_latencies = [];
    warmup_latencies = [];
    hotset_latencies = [];
    write_latencies = [];
    per_bucket_steady = for_each size_buckets [];
    per_bucket_hotset = for_each size_buckets [];
    per_bucket_write = for_each size_buckets [];
  }

  -- a failure is counted, and its text kept where there is room
  unfoldable pub failed : Options → String → String → Tallies F → Tallies F
  failed options path message t = record t {
    files_failed = t.files_failed + 1;
    errors = record_error options.max_recorded_errors path message t.errors;
  }

  -- a read that succeeded, before its sample is kept
  unfoldable pub counted : FileReadResult F → Tallies F → Tallies F
  unfolding add_to
  counted r t = record t {
    files_succeeded = t.files_succeeded + 1;
    bytes_read = t.bytes_read + r.bytes_read;
    per_bucket_counts = add_to r.bucket 1 t.per_bucket_counts;
    per_bucket_bytes = add_to r.bucket r.bytes_read t.per_bucket_bytes;
  }

  -- where the latency of a read goes
  unfoldable pub sampled : Bool → Bool → F → FileReadResult F → Tallies F → Tallies F
  unfolding append_to
  sampled true warm latency_ms r t = record t {
    hotset_latencies = t.hotset_latencies ++ latency_ms ∷ [];
    per_bucket_hotset = append_to r.bucket latency_ms t.per_bucket_hotset;
  }
  sampled false true latency_ms r t = record t {
    warmup_latencies = t.warmup_latencies ++ latency_ms ∷ [];
  }
  sampled false false latency_ms r t = record t {
    steady_latencies = t.steady_latencies ++ latency_ms ∷ [];
    per_bucket_steady = append_to r.bucket latency_ms t.per_bucket_steady;
  }

  abbrev pub then_go : (Tallies F → Flow F) → Flow F → Flow F
  then_go next (goes_on t) = next t
  then_go next (aborts code t) = aborts code t
  then_go next (raises message t) = raises message t

  module _ (world : World F) (options : Options) where
    abbrev pub recorded : Option String → Bool → FileReadResult F → Tallies F → Flow F
    recorded (some message) is_hotset r t =
        let t' = failed options r.path message t in
        if options.fail_on_read_error then aborts 2 t' else goes_on t'
    recorded none is_hotset r t = goes_on (
        sampled is_hotset (world.is_warming_up t.files_attempted)
          (world.milliseconds r.elapsed_seconds) r (counted r t))

    -- `_record`
    unfoldable pub record_result : Bool → FileReadResult F → Tallies F → Flow F
    unfolding failed counted sampled
    record_result is_hotset r t =
        recorded r.error is_hotset r (record t { files_attempted = t.files_attempted + 1 })

    abbrev pub output_done : Result String (ℕ × F) → FileReadResult F → Tallies F → Flow F
    output_done (ok (n, ms)) r t = goes_on (record t {
      write_latencies = t.write_latencies ++ ms ∷ [];
      per_bucket_write = append_to r.bucket ms t.per_bucket_write;
      bytes_written = t.bytes_written + n;
    })
    output_done (err message) r t =
        let t' = failed options r.path message t in
        if options.fail_on_write_error then aborts 3 t' else goes_on t'

    abbrev pub output_after : Option String → FileReadResult F → Tallies F → Flow F
    output_after (some message) r t = goes_on t
    output_after none r t =
        if options.write_outputs
        then output_done (world.write_per_pod_output t.files_attempted r) r t
        else goes_on t

    -- `_maybe_write_output`
    unfoldable pub maybe_write_output : FileReadResult F → Tallies F → Flow F
    unfolding failed append_to
    maybe_write_output r t = output_after r.error r t

    -- the files that were selected
    unfoldable pub read_selected : List FileEntry → Tallies F → Flow F
    unfolding record_result maybe_write_output
    read_selected [] t = goes_on t
    read_selected (entry ∷ entries) t =
        let r = world.read t.files_attempted entry in
        let rest = read_selected entries in
        then_go (λ t. then_go rest (maybe_write_output r t)) (record_result false r t)

    unfoldable pub read_hotset : List FileEntry → Tallies F → Flow F
    unfolding record_result
    read_hotset [] t = goes_on t
    read_hotset (entry ∷ entries) t =
        let rest = read_hotset entries in
        then_go rest (record_result true (world.read t.files_attempted entry) t)

    -- `sum(planned_output_payload_bytes(…) for entry in selected)`
    unfoldable pub planned_bytes : ℕ → List FileEntry → Result String ℕ
    planned_bytes n [] = ok n
    planned_bytes n (entry ∷ entries) =
        world.payload_bytes entry.size >>= λ m. planned_bytes (n + m) entries

    abbrev pub add_planned : Result String ℕ → Tallies F → Flow F
    add_planned (ok n) t = goes_on (record t { planned_output_bytes = t.planned_output_bytes + n })
    add_planned (err message) t = raises message t

    unfoldable pub planned : List FileEntry → Tallies F → Flow F
    unfolding planned_bytes
    planned selected t =
        if options.write_outputs then add_planned (planned_bytes 0 selected) t else goes_on t

    unfoldable pub run_epoch : List FileEntry → List FileEntry → Tallies F → Flow F
    unfolding planned read_selected read_hotset
    run_epoch selected hotset t =
        then_go (λ t. goes_on (record t { epochs_completed = t.epochs_completed + 1 }))
          (then_go (read_hotset hotset) (then_go (read_selected selected) (planned selected t)))

    -- The epochs, each with the files that are selected for it
    unfoldable pub run_epochs : List (List FileEntry) → List FileEntry → Tallies F → Flow F
    unfolding run_epoch
    run_epochs [] hotset t = goes_on t
    run_epochs (selected ∷ epochs) hotset t =
        let rest = run_epochs epochs hotset in then_go rest (run_epoch selected hotset t)

    -- what `main` makes of a run that was not aborted and has no service level to check
    unfoldable pub read_exit_code : Tallies F → ℕ
    read_exit_code t =
        if ltb 0 t.files_failed
          && (options.fail_on_read_error || options.write_outputs && options.fail_on_write_error)
        then 1
        else 0
