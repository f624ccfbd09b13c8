-- ===== src/Exporter/Vm.antt =====
-- The gauges of `_update_standalone_vm_metrics`, and what it writes to them from an inventory.
pub mod Sizes
pub mod States
use azure_lustre_vmss_metric.Prelude.{
  ℕ, suc, ◌+◌, String, ltb, length, ◌≡◌, refl, ap, Bool, true, false, not, Option, none, some, List,
  [], ◌∷◌, ◌++◌, map, flat_map, map-map, map-flat_map, ◌==◌, string_eq, list_eq, ◌∙◌, if◌then◌else◌,
  arith, Bool-cases, inl, inr, Option-cases,
}
use azure_lustre_vmss_metric.Prelude.Dict.{Dict, lookup, insert, lookup-insert}
use azure_lustre_vmss_metric.Prelude.Number.{Floats, of_nat}
use azure_lustre_vmss_metric.Models.Vmss.{Labels}
use azure_lustre_vmss_metric.Models.Vm.{
  StandaloneVm, standalone_vm_power_states, info_label_values, identity_label_values,
}
use azure_lustre_vmss_metric.Exporter.Gauge.{Gauges}
use azure_lustre_vmss_metric.Exporter.Family.{
  Family, Write, put, Sample, Covers, update, clear_family, Tracked, update-Tracked, clear-Tracked,
}
use azure_lustre_vmss_metric.Exporter.Samples.{Covers-labels}

pub data VmInfoGauge : Type 0 where
  standalone_vm_info : VmInfoGauge

pub data VmPowerStateGauge : Type 0 where
  standalone_vm_power_state : VmPowerStateGauge

pub data VmSizeGauge : Type 0 where
  standalone_vm_count_by_size : VmSizeGauge

pub record VmGauges (G : Type 0) : Type 0 where
  pub infos : Family VmInfoGauge G
  pub power_states : Family VmPowerStateGauge G
  pub sizes : Family VmSizeGauge G

-- `size_counts.get(size, 0)`
unfoldable pub count_or_zero : Option ℕ → ℕ
count_or_zero none = 0
count_or_zero (some n) = n

-- `for vm in vms: size_counts[vm.vm_size] = size_counts.get(vm.vm_size, 0) + 1`
unfoldable pub count_sizes : List StandaloneVm → Dict String ℕ → Dict String ℕ
unfolding insert lookup count_or_zero
count_sizes [] size_counts = size_counts
count_sizes (vm ∷ vms) size_counts =
    count_sizes vms
      (insert vm.vm_size (count_or_zero (lookup vm.vm_size size_counts) + 1) size_counts)

-- `suppress_per_vm`
unfoldable pub suppress_per_vm : ℕ → List StandaloneVm → Bool
suppress_per_vm max_inventory vms = ltb max_inventory (length vms)

-- The virtual machines that have series of their own.
unfoldable pub per_vm : ℕ → List StandaloneVm → List StandaloneVm
unfolding suppress_per_vm
per_vm max_inventory vms = if suppress_per_vm max_inventory vms then [] else vms

unfoldable pub new_vm_info_labelsets : List StandaloneVm → List Labels
new_vm_info_labelsets vms = map info_label_values vms

unfoldable pub new_power_state_labelsets : List StandaloneVm → List Labels
new_power_state_labelsets vms =
    flat_map
      (λ vm. map (λ state. identity_label_values vm ++ state ∷ []) standalone_vm_power_states) vms

unfoldable pub new_size_labelsets : Dict String ℕ → List Labels
new_size_labelsets size_counts = map (λ entry. entry.0 ∷ []) size_counts

module _ {F : Type 0} (floats : Floats F) where
  unfoldable pub vm_info_samples : List StandaloneVm → List (Sample VmInfoGauge F)
  vm_info_samples vms = map (λ vm. (info_label_values vm, λ _. put (of_nat floats 1))) vms

  -- `1.0 if state == vm.power_state else 0.0`
  unfoldable pub state_value : StandaloneVm → String → F
  state_value vm state = if state == vm.power_state then of_nat floats 1 else of_nat floats 0

  unfoldable pub vm_state_samples : StandaloneVm → List (Sample VmPowerStateGauge F)
  unfolding state_value
  vm_state_samples vm =
      map (λ state. (identity_label_values vm ++ state ∷ [], λ _. put (state_value vm state)))
        standalone_vm_power_states

  unfoldable pub power_state_samples : List StandaloneVm → List (Sample VmPowerStateGauge F)
  unfolding vm_state_samples
  power_state_samples vms = flat_map vm_state_samples vms

  unfoldable pub size_samples : Dict String ℕ → List (Sample VmSizeGauge F)
  size_samples size_counts =
      map (λ entry. (entry.0 ∷ [], λ _. put (of_nat floats entry.1))) size_counts

  vm_info_samples-Covers :
      (vms : List StandaloneVm) → Covers (new_vm_info_labelsets vms) (vm_info_samples vms)
  unfolding vm_info_samples new_vm_info_labelsets
  vm_info_samples-Covers vms = Covers-labels _ _ (map-map (λ s. s.0) _ vms)

  power_state_samples-Covers :
      (vms : List StandaloneVm) → Covers (new_power_state_labelsets vms) (power_state_samples vms)
  unfolding power_state_samples new_power_state_labelsets vm_state_samples
  power_state_samples-Covers vms = Covers-labels _ _ (map-flat_map (λ s. s.0) vm_state_samples vms)

  size_samples-Covers :
      (size_counts : Dict String ℕ)
      → Covers (new_size_labelsets size_counts) (size_samples size_counts)
  unfolding size_samples new_size_labelsets
  size_samples-Covers size_counts = Covers-labels _ _ (map-map (λ s. s.0) _ size_counts)

module _ {G F : Type 0} (floats : Floats F) (api : Gauges G F) where
  -- The body of `_update_standalone_vm_metrics` under the lock, once writing is allowed.
  unfoldable pub update_standalone_vm_metrics : ℕ → List StandaloneVm → VmGauges G → VmGauges G
  unfolding per_vm count_sizes new_vm_info_labelsets new_power_state_labelsets new_size_labelsets
      vm_info_samples power_state_samples size_samples update
  update_standalone_vm_metrics max_inventory vms gauges =
      let size_counts = count_sizes vms [] in
      let shown = per_vm max_inventory vms in
      record {
        infos =
            update api true (new_vm_info_labelsets shown) (vm_info_samples floats shown)
              gauges.infos;
        power_states =
            update api true (new_power_state_labelsets shown) (power_state_samples floats shown)
              gauges.power_states;
        sizes =
            update api true (new_size_labelsets size_counts) (size_samples floats size_counts)
              gauges.sizes;
      }

  pub record VmTracked (gauges : VmGauges G) : Type 0 where
    pub infos_noted : Tracked api gauges.infos
    pub power_states_noted : Tracked api gauges.power_states
    pub sizes_noted : Tracked api gauges.sizes

  pub update_standalone_vm_metrics-VmTracked :
      (max_inventory : ℕ) (vms : List StandaloneVm) (gauges : VmGauges G)
      → VmTracked gauges
      → VmTracked (update_standalone_vm_metrics max_inventory vms gauges)
  unfolding update_standalone_vm_metrics
  update_standalone_vm_metrics-VmTracked max_inventory vms gauges h = record {
    infos_noted =
        update-Tracked api true _ _ _ (vm_info_samples-Covers floats (per_vm max_inventory vms))
          h.infos_noted;
    power_states_noted =
        update-Tracked api true _ _ _ (power_state_samples-Covers floats (per_vm max_inventory vms))
          h.power_states_noted;
    sizes_noted =
        update-Tracked api true _ _ _ (size_samples-Covers floats (count_sizes vms []))
          h.sizes_noted;
  }
