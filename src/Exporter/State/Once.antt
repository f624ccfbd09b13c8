-- ===== src/Exporter/State/Once.antt =====
-- `collect_once`: the scale sets, then what else is configured, then the summary. `others` is what
-- the other threads do at each point between its sections, numbered in their order.
use azure_lustre_vmss_metric.Prelude.{ℕ, Option, none, some, List, if◌then◌else◌}
use azure_lustre_vmss_metric.Prelude.Number.{Floats}
use azure_lustre_vmss_metric.Prelude.Result.{Result, ok, err}
use azure_lustre_vmss_metric.Models.Vmss.{VmssCount}
use azure_lustre_vmss_metric.Models.Vm.{StandaloneVm}
use azure_lustre_vmss_metric.Exporter.Gauge.{Gauges}
use azure_lustre_vmss_metric.Exporter.State.{Exporter, can_write_metrics_locked}
use azure_lustre_vmss_metric.Exporter.State.Collection.{
  LustreResult, publish_vmss, summarize_vmss, fail_vmss, collect_standalone_vms_once,
  collect_lustre_once,
}

-- What the collections return, and the clocks read.
pub record Collected (F E : Type 0) : Type 0 where
  pub counts : Result E (List VmssCount)
  pub lustre : Option (Result E (LustreResult F))
  pub standalone_vms : Option (Result E (List StandaloneVm))
  pub now : F
  pub duration : F
  pub lustre_now : F
  pub lustre_duration : F
  pub standalone_vm_now : F
  pub standalone_vm_duration : F

module _ {G F E : Type 0} (floats : Floats F) (api : Gauges G F) (c : Collected F E)
    (others : ℕ → Exporter G F → Exporter G F) where
  -- `with suppress(Exception)`, where the collection is configured
  abbrev pub lustre_part : Option (Result E (LustreResult F)) → Exporter G F → Exporter G F
  lustre_part none e = e
  lustre_part (some r) e =
      collect_lustre_once floats api (others 2) r c.lustre_now c.lustre_duration (others 1 e)

  abbrev pub standalone_vm_part :
      Option (Result E (List StandaloneVm)) → Exporter G F → Exporter G F
  standalone_vm_part none e = e
  standalone_vm_part (some r) e =
      collect_standalone_vms_once floats api (others 4) r c.standalone_vm_now
        c.standalone_vm_duration (others 3 e)

  abbrev pub after_counts : Result E (List VmssCount) → Exporter G F → Exporter G F
  after_counts (err x) e = fail_vmss c.duration e
  after_counts (ok counts) e =
      if can_write_metrics_locked e
      then summarize_vmss floats c.now c.duration counts (
          others 5 (
            standalone_vm_part c.standalone_vms
              (lustre_part c.lustre (publish_vmss floats api counts e))))
      else e

  -- what is raised is passed on
  unfoldable pub collect_once : Exporter G F → Exporter G F
  unfolding can_write_metrics_locked fail_vmss publish_vmss summarize_vmss collect_lustre_once
      collect_standalone_vms_once
  collect_once e = after_counts c.counts (others 0 e)
