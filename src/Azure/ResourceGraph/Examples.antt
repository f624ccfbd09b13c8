-- ===== src/Azure/ResourceGraph/Examples.antt =====
-- A client that is throttled twice.
use azure_lustre_vmss_metric.Prelude.{
  concat, String, List, [], ◌∷◌, ◌++◌, Option, arith, string_eq, ℕ, ◌+◌, ◌≡◌, refl, ltb, false,
  none, some, if◌then◌else◌,
}
use azure_lustre_vmss_metric.Prelude.Fixtures.{floats}
use azure_lustre_vmss_metric.Prelude.Result.{ok, err}
use azure_lustre_vmss_metric.Azure.ResourceGraph.{Client, Failure, replied, execute_with_retry}
use azure_lustre_vmss_metric.Models.Vm.{StandaloneVm}
use azure_lustre_vmss_metric.Azure.Fixtures.{py}
use azure_lustre_vmss_metric.Azure.Value.{
  Value, absent, text, sequence, nil, cons, mapping, object, end, entry, truthy, getattr,
}
use azure_lustre_vmss_metric.Azure.ResourceGraph.Rows.{normalize_rows, normalize_standalone_vm_row}
use azure_lustre_vmss_metric.Azure.ResourceGraph.Paging.{
  QueryRequest, IsPaged, last, more, page_data, run_pages, run_pages_complete, run_pages_sound,
}
use azure_lustre_vmss_metric.Azure.ResourceGraph.Collectors.{
  Settings, fetch, collect_standalone_vms, collect_standalone_vms_complete,
}

abbrev throttled : Failure
throttled = record { is_auth_error = false; response_status = some 429; own_status = none }

-- The state is the number of calls.
abbrev client : Client ℕ ℕ ℕ ℕ
client = record {
  resources =
      λ request calls. (if ltb calls 2 then err throttled else ok (request + calls), calls + 1);
  uniform = λ a b calls. (a, calls);
  sleep = λ t calls. calls;
}

answered : execute_with_retry floats client 1 4 3 40 0 ≡ (replied 42, 3)
unfolding execute_with_retry
answered = refl

-- Two pages of virtual machines: the first response has a skip token.
abbrev vm_row : String → String → Value ℕ
vm_row name state = mapping (
    entry "subscriptionId" (text "s") (
      entry "resourceGroup" (text "g")
        (entry "vmName" (text name) (entry "powerState" (text state) end))))

abbrev first_page : Value ℕ
first_page = object (
    entry "data" (sequence (cons (vm_row "a" "vm running") nil))
      (entry "skip_token" (text "next") end))

abbrev second_page : Value ℕ
second_page = object (entry "data" (sequence (cons (vm_row "b" "vm deallocating") nil)) end)

abbrev page_for : Option (Value ℕ) → Value ℕ
page_for none = first_page
page_for (some token) = second_page

abbrev paged_client : Client ℕ (QueryRequest ℕ) (Value ℕ) ℕ
paged_client = record {
  resources = λ request calls. (ok (page_for request.skip_token), calls + 1);
  uniform = λ a b calls. (a, calls);
  sleep = λ t calls. calls;
}

abbrev settings : Settings ℕ
settings = record {
  subscription_ids = "s" ∷ [];
  query = "Resources";
  page_size = 1000;
  max_retries = 3;
  retry_base_delay_seconds = 1;
}

abbrev vm : String → String → StandaloneVm
vm name state = record {
  subscription_id = "s";
  resource_group = "g";
  vm_name = name;
  vm_id = "unknown";
  location = "unknown";
  zone = "";
  vm_size = "unknown";
  os_type = "unknown";
  power_state = state;
}

abbrev rows : List (Value ℕ)
rows = vm_row "a" "vm running" ∷ vm_row "b" "vm deallocating" ∷ []

two_pages :
    IsPaged floats
      (fetch floats paged_client settings)
      absent
      0
      ((vm_row "a" "vm running" ∷ []) ∷ (vm_row "b" "vm deallocating" ∷ []) ∷ [])
      2
unfolding fetch execute_with_retry page_data truthy getattr
two_pages =
    more first_page (vm_row "a" "vm running" ∷ []) 1 refl refl refl
      (last second_page (vm_row "b" "vm deallocating" ∷ []) 2 refl refl refl)

run_pages_complete_example :
    run_pages floats (fetch floats paged_client settings) 2 absent [] 0 ≡ (replied rows, 2)
run_pages_complete_example =
    run_pages_complete floats (fetch floats paged_client settings) 2 [] (omega arith) two_pages

run_pages_sound_example :
    (pages : List (List (Value ℕ))) × IsPaged floats
      (fetch floats paged_client settings)
      absent
      0
      pages
      2
    × (rows ≡ [] ++ concat pages)
run_pages_sound_example =
    run_pages_sound floats (fetch floats paged_client settings) 2 absent [] 0 rows 2
      run_pages_complete_example

collect_standalone_vms_complete_example :
    collect_standalone_vms floats py paged_client settings 2 0
    ≡ (replied (vm "a" "running" ∷ vm "b" "stopping" ∷ []), 2)
unfolding normalize_rows normalize_standalone_vm_row
collect_standalone_vms_complete_example =
    collect_standalone_vms_complete floats py paged_client settings 2 0 2
      ((vm_row "a" "vm running" ∷ []) ∷ (vm_row "b" "vm deallocating" ∷ []) ∷ [])
      (vm "a" "running" ∷ vm "b" "stopping" ∷ []) (omega arith) two_pages refl
