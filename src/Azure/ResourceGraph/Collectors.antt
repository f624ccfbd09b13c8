-- ===== src/Azure/ResourceGraph/Collectors.antt =====
-- `AzureResourceGraphVmssCollector` and `AzureResourceGraphStandaloneVmCollector`.
use azure_lustre_vmss_metric.Prelude.{
  ℕ, suc, String, ◌≡◌, true, List, [], string_eq, arith, All, ap, ◌∙◌, length, concat, ◌≤◌,
}
use azure_lustre_vmss_metric.Prelude.Sets.{contains}
use azure_lustre_vmss_metric.Prelude.Number.{Floats}
use azure_lustre_vmss_metric.Prelude.Result.{Result, ok, err}
use azure_lustre_vmss_metric.Models.Vmss.{VmssCount}
use azure_lustre_vmss_metric.Models.Vm.{StandaloneVm, standalone_vm_power_states}
use azure_lustre_vmss_metric.Azure.Value.{Value, absent, Entries, Python}
use azure_lustre_vmss_metric.Azure.ResourceGraph.{
  Client, Reply, replied, failed, out_of_fuel, execute_with_retry,
}
use azure_lustre_vmss_metric.Azure.ResourceGraph.Rows.{
  normalize_rows, normalize_vmss_count_row, normalize_standalone_vm_row,
  normalize_rows-power_states,
}
use azure_lustre_vmss_metric.Azure.ResourceGraph.Paging.{
  QueryRequest, plain_exception, build_query_request, run_pages, IsPaged, run_pages_complete,
}

-- The arguments of a collector, less its client; `query` is the text of `VMSS_COUNTS_QUERY` or
-- `STANDALONE_VMS_QUERY`.
pub record Settings (F : Type 0) : Type 0 where
  pub subscription_ids : List String
  pub query : String
  pub page_size : ℕ
  pub max_retries : ℕ
  pub retry_base_delay_seconds : F

module _ {W F : Type 0} (floats : Floats F) (client : Client W (QueryRequest F) (Value F) F)
    (settings : Settings F) where
  -- `_execute_with_retry(build_query_request(...))`, with fuel for every retry
  unfoldable pub fetch : Value F → W → Reply (Value F) × W
  unfolding execute_with_retry build_query_request
  fetch token w =
      execute_with_retry floats client settings.retry_base_delay_seconds (suc settings.max_retries)
        settings.max_retries
        (build_query_request floats settings.subscription_ids settings.query settings.page_size
          token)
        w

  -- `_run_paged_query`
  unfoldable pub run_paged_query : ℕ → W → Reply (List (Value F)) × W
  unfolding run_pages fetch
  run_paged_query fuel w = run_pages floats fetch fuel absent [] w

abbrev answer : {A : Type 0} → Result String A → Reply A
answer (ok a) = replied a
answer (err e) = failed plain_exception

answer-ok : {A : Type 0} → (r : Result String A) (a : A) → answer r ≡ replied a → r ≡ ok a
answer-ok (ok b) a h = ground (arith, h)
answer-ok (err e) a h = absurd (ground (arith, h))

module _ {F : Type 0} where
  abbrev pub collected :
      {A : Type 0} → (Entries F → Result String A) → Reply (List (Value F)) → Reply (List A)
  collected normalize (replied rows) = answer (normalize_rows normalize rows)
  collected normalize (failed exc) = failed exc
  collected normalize out_of_fuel = out_of_fuel

module _ {W F : Type 0} (floats : Floats F) (py : Python F)
    (client : Client W (QueryRequest F) (Value F) F) (settings : Settings F) where
  -- `AzureResourceGraphVmssCollector.collect`
  unfoldable pub collect_vmss : ℕ → W → Reply (List VmssCount) × W
  unfolding run_paged_query normalize_vmss_count_row
  collect_vmss fuel w =
      let (rows, w') = run_paged_query floats client settings fuel w in
      (collected (normalize_vmss_count_row py) rows, w')

  -- `AzureResourceGraphStandaloneVmCollector.collect`
  unfoldable pub collect_standalone_vms : ℕ → W → Reply (List StandaloneVm) × W
  unfolding run_paged_query normalize_standalone_vm_row
  collect_standalone_vms fuel w =
      let (rows, w') = run_paged_query floats client settings fuel w in
      (collected (normalize_standalone_vm_row py) rows, w')

  collected-bounded :
      (rows : Reply (List (Value F))) (vms : List StandaloneVm)
      → collected (normalize_standalone_vm_row py) rows ≡ replied vms
      → All (λ vm. contains standalone_vm_power_states vm.power_state ≡ true) vms
  collected-bounded out_of_fuel vms h = absurd (ground (arith, h))
  collected-bounded (failed exc) vms h = absurd (ground (arith, h))
  collected-bounded (replied rows) vms h =
      normalize_rows-power_states py rows vms
        (answer-ok (normalize_rows (normalize_standalone_vm_row py) rows) vms h)

  -- Whatever Azure reports, every virtual machine of an inventory that is collected has one of the
  -- bounded power states.
  collect_standalone_vms-power_states :
      (fuel : ℕ) (w : W) (vms : List StandaloneVm) (w' : W)
      → collect_standalone_vms fuel w ≡ (replied vms, w')
      → All (λ vm. contains standalone_vm_power_states vm.power_state ≡ true) vms
  unfolding collect_standalone_vms
  collect_standalone_vms-power_states fuel w vms w' h =
      collected-bounded (run_paged_query floats client settings fuel w).0 vms (ap (λ r. r.0) h)

  -- With fuel for the pages, a collection reads every page, and it returns the records of the rows of
  -- all of them in their order, where no row is refused.
  pub collect_standalone_vms_complete :
      (fuel : ℕ) (w w' : W) (pages : List (List (Value F))) (vms : List StandaloneVm)
      → length pages ≤ fuel
      → IsPaged floats (fetch floats client settings) absent w pages w'
      → normalize_rows (normalize_standalone_vm_row py) (concat pages) ≡ ok vms
      → collect_standalone_vms fuel w ≡ (replied vms, w')
  unfolding collect_standalone_vms run_paged_query
  collect_standalone_vms_complete fuel w w' pages vms enough paged read =
      ap (λ r. (collected (normalize_standalone_vm_row py) r.0, r.1))
        (run_pages_complete floats (fetch floats client settings) fuel [] enough paged)
      ∙ ap (λ r. (answer r, w')) read
