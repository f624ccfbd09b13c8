-- ===== src/Exporter/Vm/States.antt =====
-- The power state series of a virtual machine, and the cap on the series of single machines.
use azure_lustre_vmss_metric.Prelude.{
  ℕ, String, ◌<◌, length, ◌≡◌, refl, ap, true, false, ◌&&◌, Option, none, some, List, [], ◌∷◌, ◌++◌,
  map, ◌==◌, string_eq, list_eq, ◌∙◌, if◌then◌else◌, arith,
}
use azure_lustre_vmss_metric.Prelude.Sets.{contains}
use azure_lustre_vmss_metric.Prelude.Number.{Floats, of_nat}
use azure_lustre_vmss_metric.Models.Vmss.{Labels}
use azure_lustre_vmss_metric.Models.Vm.{
  StandaloneVm, standalone_vm_power_states, identity_label_values,
}
use azure_lustre_vmss_metric.Exporter.Gauge.{Gauges}
use azure_lustre_vmss_metric.Exporter.Family.{
  put, value-update, after_write, after_samples, after_samples-append,
}
use azure_lustre_vmss_metric.Exporter.Samples.{last_with, last_or}
use azure_lustre_vmss_metric.Exporter.Vm.{
  VmGauges, VmTracked, VmPowerStateGauge, standalone_vm_power_state, standalone_vm_info,
  suppress_per_vm, per_vm, new_vm_info_labelsets, vm_info_samples, new_power_state_labelsets,
  power_state_samples, vm_state_samples, state_value, update_standalone_vm_metrics,
}

-- The labels of a power state series.
abbrev pub series : StandaloneVm → String → Labels
series vm state = identity_label_values vm ++ state ∷ []

series-beq :
    (a b : StandaloneVm) (s t : String)
    → (series a s == series b t) ≡ (identity_label_values a == identity_label_values b && s == t)
unfolding identity_label_values
series-beq a b s t = ground arith

module _ {F : Type 0} (v : String → F) (a b : StandaloneVm) (state : String) where
  -- The samples of one machine write each of its states once.
  after_samples-states :
      (states : List String) (old : Option F)
      → after_samples {N = VmPowerStateGauge}
          (map (λ s. (series a s, λ _. put (v s))) states)
          standalone_vm_power_state
          (series b state)
          old
        ≡ (if identity_label_values a == identity_label_values b && contains states state
            then some (v state)
            else old)
  unfolding after_samples after_write contains
  after_samples-states [] old = ground arith
  after_samples-states (s ∷ states) old = ground (
    arith,
    series-beq a b s state,
    string_eq.equals_iff s state,
    after_samples-states states old,
    after_samples-states states (some (v s)),
  )

module _ {G F : Type 0} (floats : Floats F) (api : Gauges G F) where
  after_samples-power_states :
      (vms : List StandaloneVm) (b : StandaloneVm) (state : String) (old : Option F)
      → contains standalone_vm_power_states state ≡ true
      → after_samples
          (power_state_samples floats vms)
          standalone_vm_power_state
          (series b state)
          old
        ≡ last_or
            (λ vm. some (state_value floats vm state))
            (last_with identity_label_values vms (identity_label_values b))
            old
  unfolding power_state_samples vm_state_samples after_samples last_or last_with
  after_samples-power_states [] b state old known = refl
  after_samples-power_states (a ∷ vms) b state old known =
      let rest = after_samples-power_states vms b state in
      after_samples-append (vm_state_samples floats a) (power_state_samples floats vms)
        standalone_vm_power_state (series b state) old
      ∙ ap
          (after_samples (power_state_samples floats vms) standalone_vm_power_state
            (series b state))
          (after_samples-states (state_value floats a) a b state standalone_vm_power_states old)
      ∙ ground (arith, known, rest old known, rest (some (state_value floats a state)) known)

  -- Below the cap, a virtual machine of the inventory (the last with its identity) has one series
  -- for each of the bounded states, which is 1 at its power state and 0 at the others.
  pub update_standalone_vm_metrics-power_states :
      (max_inventory : ℕ) (vms : List StandaloneVm) (gauges : VmGauges G) (vm : StandaloneVm)
      (state : String)
      → VmTracked floats api gauges
      → suppress_per_vm max_inventory vms ≡ false
      → last_with identity_label_values vms (identity_label_values vm) ≡ some vm
      → contains standalone_vm_power_states state ≡ true
      → api.value
          ((update_standalone_vm_metrics floats api max_inventory vms gauges).power_states.gauge
            standalone_vm_power_state)
          (series vm state)
        ≡ some (if state == vm.power_state then of_nat floats 1 else of_nat floats 0)
  unfolding update_standalone_vm_metrics per_vm state_value last_or
  update_standalone_vm_metrics-power_states max_inventory vms gauges vm state h below is known =
      let shown = per_vm max_inventory vms in
      value-update api (new_power_state_labelsets shown) (power_state_samples floats shown)
        gauges.power_states standalone_vm_power_state (series vm state) h.power_states_noted
      ∙ rw (below, after_samples-power_states vms vm state _ known, is) refl

  -- Above the cap, no virtual machine has a series of its own, whatever was shown before.
  update_standalone_vm_metrics-capped :
      (max_inventory : ℕ) (vms : List StandaloneVm) (gauges : VmGauges G) (l : Labels)
      → VmTracked floats api gauges
      → max_inventory < length vms
      → let after = update_standalone_vm_metrics floats api max_inventory vms gauges in
        (api.value (after.infos.gauge standalone_vm_info) l ≡ none)
        × (api.value (after.power_states.gauge standalone_vm_power_state) l ≡ none)
  unfolding update_standalone_vm_metrics per_vm suppress_per_vm new_vm_info_labelsets
      new_power_state_labelsets vm_info_samples power_state_samples after_samples contains
  update_standalone_vm_metrics-capped max_inventory vms gauges l h above =
      let shown = per_vm max_inventory vms in
      let over : suppress_per_vm max_inventory vms ≡ true = ground (arith, above) in
      let none_shown : shown ≡ [] = rw over refl in
      (
        value-update api (new_vm_info_labelsets shown) (vm_info_samples floats shown) gauges.infos
              standalone_vm_info l h.infos_noted
            ∙ rw none_shown refl,
        value-update api (new_power_state_labelsets shown) (power_state_samples floats shown)
              gauges.power_states standalone_vm_power_state l h.power_states_noted
            ∙ rw none_shown refl,
      )
