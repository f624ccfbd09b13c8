-- ===== src/Models/Vm.antt =====
-- `StandaloneVm` and the bounded power states.
use azure_lustre_vmss_metric.Prelude.{String, List, [], ◌∷◌}
use azure_lustre_vmss_metric.Models.Vmss.{Labels}

abbrev pub standalone_vm_power_states : List String
standalone_vm_power_states =
    "running" ∷ "stopped" ∷ "deallocated" ∷ "starting" ∷ "stopping" ∷ "unknown" ∷ []

pub record StandaloneVm : Type 0 where
  pub subscription_id : String
  pub resource_group : String
  pub vm_name : String
  pub vm_id : String
  pub location : String
  pub zone : String
  pub vm_size : String
  pub os_type : String
  pub power_state : String

unfoldable pub info_label_values : StandaloneVm → Labels
info_label_values vm =
    vm.subscription_id ∷ vm.resource_group ∷ vm.vm_name ∷ vm.vm_id ∷ vm.location ∷ vm.zone
    ∷ vm.vm_size ∷ vm.os_type ∷ []

unfoldable pub identity_label_values : StandaloneVm → Labels
identity_label_values vm = vm.subscription_id ∷ vm.resource_group ∷ vm.vm_name ∷ []
