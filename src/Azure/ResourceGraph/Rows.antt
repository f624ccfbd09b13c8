-- ===== src/Azure/ResourceGraph/Rows.antt =====
-- src/vmss_metrics_exporter/azure_resource_graph.py: the records that it makes of rows.
use azure_lustre_vmss_metric.Prelude.{
  ◌≡◌, refl, String, true, Option, List, [], ◌∷◌, ◌==◌, string_eq, if◌then◌else◌, arith, All, all,
  subst, Bool-cases, inl, inr,
}
use azure_lustre_vmss_metric.Prelude.Dict.{Dict, lookup}
use azure_lustre_vmss_metric.Prelude.Sets.{contains}
use azure_lustre_vmss_metric.Prelude.Number.{pos}
use azure_lustre_vmss_metric.Prelude.Result.{
  Result, ok, err, ◌>>=◌, map_all, map_all-All, bind-returns, bind-ok, ok-injective,
}
use azure_lustre_vmss_metric.Models.Vmss.{VmssCount}
use azure_lustre_vmss_metric.Models.Vm.{StandaloneVm, standalone_vm_power_states}
use azure_lustre_vmss_metric.Azure.Value.{
  Value, mapping, Entries, Python, is_absent, get, required_str, optional_str, int_value,
}

-- `d.get(key, default)`
abbrev pub known_or {ℓ} : {A : Type ℓ} → Option A → A → A
known_or Option.none default = default
known_or (Option.some a) default = a

-- `_POWER_STATE_MAPPING`
abbrev pub power_state_mapping : Dict String String
power_state_mapping =
    ("vm running", "running")
    ∷ ("vm stopped", "stopped")
    ∷ ("vm deallocated", "deallocated")
    ∷ ("vm starting", "starting")
    ∷ ("vm stopping", "stopping")
    ∷ ("vm deallocating", "stopping")
    ∷ []

module _ {F : Type 0} where
  -- `row.get` of a row that is not a mapping raises.
  abbrev as_row : Value F → Result String (Entries F)
  as_row (mapping row) = ok row
  as_row _ = err "AttributeError"

  -- `[normalize(row) for row in rows]`
  unfoldable pub normalize_rows :
      {A : Type 0} → (Entries F → Result String A) → List (Value F) → Result String (List A)
  normalize_rows normalize rows = map_all (λ row. as_row row >>= normalize) rows

module _ {F : Type 0} (py : Python F) where
  -- `_normalize_power_state`
  unfoldable pub normalize_power_state : Value F → String
  unfolding lookup
  normalize_power_state value =
      let text = py.lower (py.strip (py.str value)) in
      if is_absent value
      then "unknown"
      else if text == ""
      then "unknown"
      else known_or (lookup text power_state_mapping) "unknown"

  unfoldable pub normalize_standalone_vm_row : Entries F → Result String StandaloneVm
  unfolding required_str optional_str normalize_power_state get
  normalize_standalone_vm_row row = required_str py row "subscriptionId" >>= λ subscription_id.
      required_str py row "resourceGroup" >>= λ resource_group.
      required_str py row "vmName" >>= λ vm_name. ok (record {
        subscription_id = subscription_id;
        resource_group = resource_group;
        vm_name = vm_name;
        vm_id = optional_str py row "vmId" "unknown";
        location = optional_str py row "location" "unknown";
        zone = optional_str py row "zone" "";
        vm_size = optional_str py row "vmSize" "unknown";
        os_type = optional_str py row "osType" "unknown";
        power_state = normalize_power_state (get "powerState" row);
      })

  -- The counts of a row, which are read after its texts.
  unfoldable pub normalize_vmss_count_row : Entries F → Result String VmssCount
  unfolding required_str optional_str int_value get
  normalize_vmss_count_row row =
      let count = λ (key : String). int_value py (get key row) (pos 0) in
      required_str py row "subscriptionId" >>= λ subscription_id.
      required_str py row "resourceGroup" >>= λ resource_group.
      required_str py row "vmssName" >>= λ vmss_name. count "actualInstanceCount" >>= λ actual.
      count "capacity" >>= λ capacity. count "runningInstanceCount" >>= λ running.
      count "stoppedInstanceCount" >>= λ stopped.
      count "deallocatedInstanceCount" >>= λ deallocated. count "failedInstanceCount" >>= λ failed.
      count "unknownInstanceCount" >>= λ unknown. ok (record {
        subscription_id = subscription_id;
        resource_group = resource_group;
        vmss_name = vmss_name;
        location = optional_str py row "location" "unknown";
        orchestration_mode = optional_str py row "orchestrationMode" "unknown";
        actual_instance_count = actual;
        capacity = capacity;
        running_instance_count = running;
        stopped_instance_count = stopped;
        deallocated_instance_count = deallocated;
        failed_instance_count = failed;
        unknown_instance_count = unknown;
        vm_size = optional_str py row "vmSize" "unknown";
        sku_tier = optional_str py row "skuTier" "unknown";
      })

  known_or-bounded :
      (text : String) (d : Dict String String)
      → all (λ entry. contains standalone_vm_power_states entry.1) d ≡ true
      → contains standalone_vm_power_states (known_or (lookup text d) "unknown") ≡ true
  unfolding lookup contains
  known_or-bounded text [] h = refl
  known_or-bounded text ((raw, state) ∷ d) h = elim (Bool-cases (raw == text)) [
    | inl is ↦ rw is (ground (arith, h))
    | inr isnt ↦ rw isnt (known_or-bounded text d (ground (arith, h)))
  ]

  normalize_power_state-bounded :
      (value : Value F) → contains standalone_vm_power_states (normalize_power_state value) ≡ true
  unfolding normalize_power_state contains
  normalize_power_state-bounded value =
      let text = py.lower (py.strip (py.str value)) in
      elim (Bool-cases (is_absent value)) [
        | inl is ↦ rw is refl
        | inr isnt ↦ elim (Bool-cases (text == "")) [
          | inl empty ↦ rw (isnt, empty) refl
          | inr full ↦ rw (isnt, full) (known_or-bounded text power_state_mapping refl)
        ]
      ]

  abbrev Bounded : StandaloneVm → Type 0
  Bounded vm = contains standalone_vm_power_states vm.power_state ≡ true

  normalize_standalone_vm_row-bounded :
      (row : Entries F) (vm : StandaloneVm)
      → normalize_standalone_vm_row row ≡ ok vm
      → contains standalone_vm_power_states vm.power_state ≡ true
  unfolding normalize_standalone_vm_row
  normalize_standalone_vm_row-bounded row vm h =
      bind-returns Bounded (required_str py row "subscriptionId") _
        (λ x. bind-returns Bounded (required_str py row "resourceGroup") _ (λ y.
          bind-returns Bounded (required_str py row "vmName") _ (λ z vm' made.
            subst Bounded (ok-injective _ vm' made)
              (normalize_power_state-bounded (get "powerState" row)))))
        vm h

  -- Whatever Azure reports, every virtual machine of an inventory that is read has one of the
  -- bounded power states.
  pub normalize_rows-power_states :
      (rows : List (Value F)) (vms : List StandaloneVm)
      → normalize_rows normalize_standalone_vm_row rows ≡ ok vms
      → All (λ vm. contains standalone_vm_power_states vm.power_state ≡ true) vms
  unfolding normalize_rows
  normalize_rows-power_states rows vms h =
      map_all-All (λ vm. contains standalone_vm_power_states vm.power_state ≡ true)
        (λ row. as_row row >>= normalize_standalone_vm_row)
        (λ row vm read.
          let (entries, is_row, made) = bind-ok (as_row row) normalize_standalone_vm_row vm read in
          normalize_standalone_vm_row-bounded entries vm made)
        rows vms h
