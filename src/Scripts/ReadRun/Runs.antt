-- ===== src/Scripts/ReadRun/Runs.antt =====
-- A run of `run_read` keeps its counters in agreement, and a failure aborts it where it is asked to.
use azure_lustre_vmss_metric.Prelude.{
  ℕ, ◌+◌, String, ◌≡◌, refl, Bool, true, false, not, ◌||◌, ltb, Option, none, some, List, [], ◌∷◌,
  length-append, if◌then◌else◌, arith, inl, inr,
}
use azure_lustre_vmss_metric.Prelude.Result.{Result, ok, err}
use azure_lustre_vmss_metric.Scripts.Shards.{FileEntry}
use azure_lustre_vmss_metric.Scripts.Read.{FileReadResult}
use azure_lustre_vmss_metric.Scripts.ReadRun.{
  World, Options, Tallies, Flow, goes_on, aborts, raises, add_planned, planned_bytes, start, failed,
  counted, sampled, then_go, recorded, record_result, output_done, output_after, maybe_write_output,
  read_selected, read_hotset, planned, run_epoch, run_epochs,
}
use azure_lustre_vmss_metric.Scripts.ReadRun.Tally.{
  is_strict, IsTallied, Ensures, start-IsTallied, failed-IsTallied, output_failed-IsTallied,
  sampled-IsTallied, samples_in-append_to,
}

module _ {F : Type 0} (world : World F) (options : Options) where
  -- No failure was let pass that should have ended the run.
  abbrev Clean : Tallies F → Type 0
  Clean t = (not (is_strict options) || not (ltb 0 t.files_failed)) ≡ true

  branch :
      (test : Bool) (f g : Flow F)
      → (test ≡ true → Ensures options f)
      → (test ≡ false → Ensures options g)
      → Ensures options (if test then f else g)
  branch true f g yes_case no_case = yes_case refl
  branch false f g yes_case no_case = no_case refl

  then_go-Ensures :
      (next : Tallies F → Flow F) (f : Flow F)
      → Ensures options f
      → ((t : Tallies F) → IsTallied options t → Clean t → Ensures options (next t))
      → Ensures options (then_go next f)
  then_go-Ensures next (goes_on t) h each = each t h.0 h.1
  then_go-Ensures next (aborts code t) h each = h
  then_go-Ensures next (raises message t) h each = h

  sampled-Clean :
      (is_hotset warm : Bool) (latency_ms : F) (r : FileReadResult F) (t : Tallies F)
      → Clean t
      → Clean (sampled is_hotset warm latency_ms r t)
  unfolding sampled
  sampled-Clean true warm latency_ms r t clean = clean
  sampled-Clean false true latency_ms r t clean = clean
  sampled-Clean false false latency_ms r t clean = clean

  recorded-Ensures :
      (error : Option String) (is_hotset : Bool) (r : FileReadResult F) (t : Tallies F)
      → IsTallied options t
      → Clean t
      → Ensures options (
          recorded world options error is_hotset r
            (record t { files_attempted = t.files_attempted + 1 }))
  unfolding failed counted sampled
  recorded-Ensures none is_hotset r t h clean = (
    sampled-IsTallied options is_hotset _ _ r t h,
    sampled-Clean is_hotset _ _ r (counted r (record t { files_attempted = t.files_attempted + 1 }))
        clean,
  )
  recorded-Ensures (some message) is_hotset r t h clean =
      branch options.fail_on_read_error _ _
        (λ fails. (failed-IsTallied options r.path message t h, omega arith, inl (refl, fails)))
        (λ passes. (failed-IsTallied options r.path message t h, ground (arith, passes)))

  record_result-Ensures :
      (is_hotset : Bool) (r : FileReadResult F) (t : Tallies F)
      → IsTallied options t
      → Clean t
      → Ensures options (record_result world options is_hotset r t)
  unfolding record_result
  record_result-Ensures is_hotset r t h clean = recorded-Ensures r.error is_hotset r t h clean

  output_done-Ensures :
      (written : Result String (ℕ × F)) (r : FileReadResult F) (t : Tallies F)
      → options.write_outputs ≡ true
      → IsTallied options t
      → Clean t
      → Ensures options (output_done world options written r t)
  unfolding failed
  output_done-Ensures (ok (n, ms)) r t writes h clean = (
    record {
      covered = h.covered;
      exact = h.exact;
      succeeded = h.succeeded;
      counts = h.counts;
      bytes = h.bytes;
      samples = h.samples;
      steady = h.steady;
      hotset = h.hotset;
      outputs = omega (
        arith,
        h.outputs,
        samples_in-append_to r.bucket ms t.per_bucket_write,
        length-append t.write_latencies (ms ∷ []),
      );
      errors_kept = h.errors_kept;
    },
    clean,
  )
  output_done-Ensures (err message) r t writes h clean =
      branch options.fail_on_write_error _ _
        (λ fails. (
          output_failed-IsTallied options r.path message t writes h,
          omega arith,
          inr (refl, fails),
        ))
        (λ passes. (
          output_failed-IsTallied options r.path message t writes h,
          ground (arith, passes, writes),
        ))

  output_after-Ensures :
      (error : Option String) (r : FileReadResult F) (t : Tallies F)
      → IsTallied options t
      → Clean t
      → Ensures options (output_after world options error r t)
  output_after-Ensures (some message) r t h clean = (h, clean)
  output_after-Ensures none r t h clean =
      branch options.write_outputs
        (output_done world options (world.write_per_pod_output t.files_attempted r) r t) (goes_on t)
        (λ writes.
          output_done-Ensures (world.write_per_pod_output t.files_attempted r) r t writes h clean)
        (λ none_written. (h, clean))

  maybe_write_output-Ensures :
      (r : FileReadResult F) (t : Tallies F)
      → IsTallied options t
      → Clean t
      → Ensures options (maybe_write_output world options r t)
  unfolding maybe_write_output
  maybe_write_output-Ensures r t = output_after-Ensures r.error r t

  read_selected-Ensures :
      (entries : List FileEntry) (t : Tallies F)
      → IsTallied options t
      → Clean t
      → Ensures options (read_selected world options entries t)
  unfolding read_selected
  read_selected-Ensures [] t h clean = (h, clean)
  read_selected-Ensures (entry ∷ entries) t h clean =
      let r = world.read t.files_attempted entry in
      then_go-Ensures
        (λ t. then_go (read_selected world options entries) (maybe_write_output world options r t))
        (record_result world options false r t) (record_result-Ensures false r t h clean)
        λ t' h' clean'.
          then_go-Ensures (read_selected world options entries)
            (maybe_write_output world options r t') (maybe_write_output-Ensures r t' h' clean')
            (read_selected-Ensures entries)

  read_hotset-Ensures :
      (entries : List FileEntry) (t : Tallies F)
      → IsTallied options t
      → Clean t
      → Ensures options (read_hotset world options entries t)
  unfolding read_hotset
  read_hotset-Ensures [] t h clean = (h, clean)
  read_hotset-Ensures (entry ∷ entries) t h clean =
      then_go-Ensures (read_hotset world options entries)
        (record_result world options true (world.read t.files_attempted entry) t)
        (record_result-Ensures true (world.read t.files_attempted entry) t h clean)
        (read_hotset-Ensures entries)

  add_planned-Ensures :
      (n : Result String ℕ) (t : Tallies F)
      → IsTallied options t
      → Clean t
      → Ensures options (add_planned world options n t)
  add_planned-Ensures (ok n) t h clean = (
    record {
      covered = h.covered;
      exact = h.exact;
      succeeded = h.succeeded;
      counts = h.counts;
      bytes = h.bytes;
      samples = h.samples;
      steady = h.steady;
      hotset = h.hotset;
      outputs = h.outputs;
      errors_kept = h.errors_kept;
    },
    clean,
  )
  add_planned-Ensures (err message) t h clean = (h, clean)

  planned-Ensures :
      (selected : List FileEntry) (t : Tallies F)
      → IsTallied options t
      → Clean t
      → Ensures options (planned world options selected t)
  unfolding planned
  planned-Ensures selected t h clean =
      branch options.write_outputs
        (add_planned world options (planned_bytes world options 0 selected) t) (goes_on t)
        (λ writes. add_planned-Ensures (planned_bytes world options 0 selected) t h clean)
        (λ none_written. (h, clean))

  run_epoch-Ensures :
      (selected hotset : List FileEntry) (t : Tallies F)
      → IsTallied options t
      → Clean t
      → Ensures options (run_epoch world options selected hotset t)
  unfolding run_epoch
  run_epoch-Ensures selected hotset t h clean =
      let reads =
        then_go (read_selected world options selected) (planned world options selected t) in
      then_go-Ensures _ (then_go (read_hotset world options hotset) reads)
        (then_go-Ensures (read_hotset world options hotset) reads
          (then_go-Ensures (read_selected world options selected) (planned world options selected t)
            (planned-Ensures selected t h clean) (read_selected-Ensures selected))
          (read_hotset-Ensures hotset))
        λ t' h' clean'. (
          record {
            covered = h'.covered;
            exact = h'.exact;
            succeeded = h'.succeeded;
            counts = h'.counts;
            bytes = h'.bytes;
            samples = h'.samples;
            steady = h'.steady;
            hotset = h'.hotset;
            outputs = h'.outputs;
            errors_kept = h'.errors_kept;
          },
          clean',
        )

  epochs-Ensures :
      (epochs : List (List FileEntry)) (hotset : List FileEntry) (t : Tallies F)
      → IsTallied options t
      → Clean t
      → Ensures options (run_epochs world options epochs hotset t)
  unfolding run_epochs
  epochs-Ensures [] hotset t h clean = (h, clean)
  epochs-Ensures (selected ∷ epochs) hotset t h clean =
      then_go-Ensures (run_epochs world options epochs hotset)
        (run_epoch world options selected hotset t) (run_epoch-Ensures selected hotset t h clean)
        (epochs-Ensures epochs hotset)

  -- Whatever the reads and the outputs come to, the summary of a run agrees with itself: the counts
  -- and the bytes of the buckets add up to the totals, each read that succeeded has left one sample,
  -- steady, warm-up or hot, and the buckets hold as many samples as the lists of all; the files
  -- attempted are at most those that succeeded and those that failed together, and exactly where
  -- nothing is written; the errors kept are no more than the failures or than may be kept. A run
  -- that is aborted has a failure, with code 2 where read errors are fatal or code 3 where output
  -- errors are, and one that is not has none where each of those that can happen is fatal.
  pub run_epochs-IsTallied :
      (epochs : List (List FileEntry)) (hotset : List FileEntry)
      → Ensures options (run_epochs world options epochs hotset start)
  run_epochs-IsTallied epochs hotset =
      epochs-Ensures epochs hotset start (start-IsTallied options) (ground arith)
