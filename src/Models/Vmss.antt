-- ===== src/Models/Vmss.antt =====
-- `VmssCount` and the bounded member states.
use azure_lustre_vmss_metric.Prelude.{String, List, [], ◌∷◌, ◌++◌}
use azure_lustre_vmss_metric.Prelude.Number.{ℤ}

-- The label values of a series.
abbrev pub Labels : Type 0
Labels = List String

abbrev pub vmss_instance_states : List String
vmss_instance_states = "running" ∷ "stopped" ∷ "deallocated" ∷ "failed" ∷ "unknown" ∷ []

pub record VmssCount : Type 0 where
  pub subscription_id : String
  pub resource_group : String
  pub vmss_name : String
  pub location : String
  pub orchestration_mode : String
  pub actual_instance_count : ℤ
  pub capacity : ℤ
  pub running_instance_count : ℤ
  pub stopped_instance_count : ℤ
  pub deallocated_instance_count : ℤ
  pub failed_instance_count : ℤ
  pub unknown_instance_count : ℤ
  pub vm_size : String
  pub sku_tier : String

unfoldable pub label_values : VmssCount → Labels
label_values c =
    c.subscription_id ∷ c.resource_group ∷ c.vmss_name ∷ c.location ∷ c.orchestration_mode ∷ []

unfoldable pub state_counts : VmssCount → List (String × ℤ)
state_counts c =
    ("running", c.running_instance_count)
    ∷ ("stopped", c.stopped_instance_count)
    ∷ ("deallocated", c.deallocated_instance_count)
    ∷ ("failed", c.failed_instance_count)
    ∷ ("unknown", c.unknown_instance_count)
    ∷ []

unfoldable pub state_label_values : VmssCount → String → Labels
unfolding label_values
state_label_values c state = label_values c ++ state ∷ []

unfoldable pub info_label_values : VmssCount → Labels
info_label_values c =
    c.subscription_id ∷ c.resource_group ∷ c.vmss_name ∷ c.location ∷ c.orchestration_mode
    ∷ c.vm_size ∷ c.sku_tier ∷ []
