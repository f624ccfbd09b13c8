-- ===== src/Scripts/ReadRun/Examples.antt =====
-- Two epochs of a pod that cannot read one of its two files.
use azure_lustre_vmss_metric.Prelude.{
  ℕ, ◌≡◌, refl, true, false, none, some, [], ◌∷◌, ◌==◌, string_eq, if◌then◌else◌,
}
use azure_lustre_vmss_metric.Prelude.Result.{ok}
use azure_lustre_vmss_metric.Scripts.Shards.{FileEntry}
use azure_lustre_vmss_metric.Scripts.Read.{FileReadResult}
use azure_lustre_vmss_metric.Scripts.ReadRun.{World, Options, Tallies, Flow, start, run_epochs}
use azure_lustre_vmss_metric.Scripts.ReadRun.Tally.{Ensures}
use azure_lustre_vmss_metric.Scripts.ReadRun.Runs.{run_epochs-IsTallied}

abbrev good : FileEntry
good = record { path = "a.bin"; size = 10; bucket = "small" }

abbrev bad : FileEntry
bad = record { path = "b.bin"; size = 20; bucket = "small" }

abbrev read : ℕ → FileEntry → FileReadResult ℕ
read n entry = record {
  path = entry.path;
  size = entry.size;
  bucket = entry.bucket;
  elapsed_seconds = 3;
  chunk_count = 1;
  checksum = none;
  pattern = "full";
  bytes_read = entry.size;
  error = if entry.path == "b.bin" then some "OSError" else none;
}

abbrev world : World ℕ
world = record {
  read = read;
  write_per_pod_output = λ n r. ok (1, 2);
  milliseconds = λ x. x;
  is_warming_up = λ n. false;
  payload_bytes = λ size. ok 0;
}

abbrev lenient : Options
lenient = record {
  write_outputs = false;
  fail_on_read_error = false;
  fail_on_write_error = true;
  max_recorded_errors = 1;
}

abbrev tallies_of : Flow ℕ → Tallies ℕ
tallies_of (Flow.goes_on t) = t
tallies_of (Flow.aborts code t) = t
tallies_of (Flow.raises message t) = t

lenient_counts :
    let t = tallies_of (run_epochs world lenient ((good ∷ bad ∷ []) ∷ (good ∷ []) ∷ []) [] start) in
    (t.files_attempted ≡ 3)
    × (t.files_succeeded ≡ 2)
    × (t.files_failed ≡ 1)
    × (t.bytes_read ≡ 20)
    × (t.steady_latencies ≡ 3 ∷ 3 ∷ [])
unfolding run_epochs
lenient_counts = (refl, refl, refl, refl, refl)

run_epochs-IsTallied_example :
    Ensures lenient (run_epochs world lenient ((good ∷ bad ∷ []) ∷ []) (good ∷ []) start)
run_epochs-IsTallied_example =
    run_epochs-IsTallied world lenient ((good ∷ bad ∷ []) ∷ []) (good ∷ [])
