-- ===== src/Exporter/State/Collection.antt =====
-- `_collect_vmss_once`, `collect_standalone_vms_once` and `collect_lustre_once`. The collections
-- themselves and the clocks are arguments: what a collection returned, what `time.time()` said, and
-- how long it took.
use azure_lustre_vmss_metric.Prelude.{ℕ, ◌+◌, false, if◌then◌else◌, List, length, nat_beq}
use azure_lustre_vmss_metric.Prelude.Number.{Floats, of_nat}
use azure_lustre_vmss_metric.Prelude.Result.{Result, ok, err}
use azure_lustre_vmss_metric.Models.Vmss.{VmssCount}
use azure_lustre_vmss_metric.Models.Vm.{StandaloneVm}
use azure_lustre_vmss_metric.Exporter.Gauge.{Gauges}
use azure_lustre_vmss_metric.Exporter.Vmss.{update_metrics}
use azure_lustre_vmss_metric.Exporter.Vm.{update_standalone_vm_metrics}
use azure_lustre_vmss_metric.Exporter.Lustre.{LustreSamples}
use azure_lustre_vmss_metric.Exporter.Lustre.Update.{update_lustre_metrics}
use azure_lustre_vmss_metric.Exporter.State.{Exporter, can_write_metrics_locked}

-- What `collect_lustre_once` reads of a `ManagedLustreCollectionResult`. The aggregates are those of
-- the result, or the ones built from it.
pub record LustreResult (F : Type 0) : Type 0 where
  pub samples : LustreSamples F
  pub filesystem_count : ℕ
  pub error_count : ℕ

-- A section of the lock that does nothing where writing is not allowed.
module _ {G F : Type 0} where
  unfoldable pub guarded : (Exporter G F → Exporter G F) → Exporter G F → Exporter G F
  unfolding can_write_metrics_locked
  guarded write e = if can_write_metrics_locked e then write e else e

module _ {G F : Type 0} (floats : Floats F) (api : Gauges G F) where
  -- `_update_metrics`, under the lock and with its guard
  unfoldable pub write_vmss : List VmssCount → Exporter G F → Exporter G F
  unfolding update_metrics
  write_vmss counts e = record e {
    shown = record e.shown { vmss = update_metrics floats api counts e.shown.vmss };
  }

  unfoldable pub publish_vmss : List VmssCount → Exporter G F → Exporter G F
  unfolding guarded write_vmss
  publish_vmss counts = guarded (write_vmss counts)

  -- `_update_standalone_vm_metrics`
  unfoldable pub write_standalone_vms : List StandaloneVm → Exporter G F → Exporter G F
  unfolding update_standalone_vm_metrics
  write_standalone_vms vms e = record e {
    shown = record e.shown {
      vms = update_standalone_vm_metrics floats api e.standalone_vm_max_inventory vms e.shown.vms;
    };
  }

  unfoldable pub publish_standalone_vms : List StandaloneVm → Exporter G F → Exporter G F
  unfolding guarded write_standalone_vms
  publish_standalone_vms vms = guarded (write_standalone_vms vms)

  -- `_update_lustre_metrics`
  unfoldable pub write_lustre : LustreResult F → Exporter G F → Exporter G F
  unfolding update_lustre_metrics
  write_lustre result e = record e {
    shown = record e.shown {
      lustre =
          update_lustre_metrics floats api result.samples (nat_beq result.error_count 0)
            e.shown.lustre;
    };
  }

  unfoldable pub publish_lustre : LustreResult F → Exporter G F → Exporter G F
  unfolding guarded write_lustre
  publish_lustre result = guarded (write_lustre result)

module _ {G F : Type 0} (floats : Floats F) where
  -- the summary sections that follow
  unfoldable pub write_summary_vmss : F → F → List VmssCount → Exporter G F → Exporter G F
  write_summary_vmss now duration counts e = record e {
    shown = record e.shown {
      totals = record e.shown.totals {
        last_success_timestamp = now;
        vmss_total = of_nat floats (length counts);
      };
    };
    durations = record e.durations { collection_duration = duration };
  }

  unfoldable pub summarize_vmss : F → F → List VmssCount → Exporter G F → Exporter G F
  unfolding guarded write_summary_vmss
  summarize_vmss now duration counts = guarded (write_summary_vmss now duration counts)

  unfoldable pub write_summary_standalone_vms :
      F → F → List StandaloneVm → Exporter G F → Exporter G F
  write_summary_standalone_vms now duration vms e = record e {
    shown = record e.shown {
      totals = record e.shown.totals {
        standalone_vm_total = of_nat floats (length vms);
        standalone_vm_last_success_timestamp = now;
      };
    };
    durations = record e.durations { standalone_vm_collection_duration = duration };
  }

  unfoldable pub summarize_standalone_vms : F → F → List StandaloneVm → Exporter G F → Exporter G F
  unfolding guarded write_summary_standalone_vms
  summarize_standalone_vms now duration vms =
      guarded (write_summary_standalone_vms now duration vms)

  unfoldable pub write_summary_lustre : F → F → LustreResult F → Exporter G F → Exporter G F
  write_summary_lustre now duration result e = record e {
    shown = record e.shown {
      totals = record e.shown.totals {
        lustre_filesystem_total = of_nat floats result.filesystem_count;
        lustre_ost_sample_count = of_nat floats (length result.samples.metrics);
        lustre_last_success_timestamp = now;
      };
    };
    errors = record e.errors {
      lustre_collection_errors = e.errors.lustre_collection_errors + result.error_count;
    };
    durations = record e.durations { lustre_collection_duration = duration };
  }

  unfoldable pub summarize_lustre : F → F → LustreResult F → Exporter G F → Exporter G F
  unfolding guarded write_summary_lustre
  summarize_lustre now duration result = guarded (write_summary_lustre now duration result)

-- The `except` branches, which take no lock and ask for no leadership.
module _ {G F : Type 0} where
  unfoldable pub fail_vmss : F → Exporter G F → Exporter G F
  fail_vmss duration e = record e {
    errors = record e.errors { collection_errors = e.errors.collection_errors + 1 };
    durations = record e.durations { collection_duration = duration };
  }

  unfoldable pub fail_standalone_vms : F → Exporter G F → Exporter G F
  fail_standalone_vms duration e = record e {
    errors = record e.errors {
      standalone_vm_collection_errors = e.errors.standalone_vm_collection_errors + 1;
    };
    durations = record e.durations { standalone_vm_collection_duration = duration };
  }

  unfoldable pub fail_lustre : F → Exporter G F → Exporter G F
  fail_lustre duration e = record e {
    errors = record e.errors { lustre_collection_errors = e.errors.lustre_collection_errors + 1 };
    durations = record e.durations { lustre_collection_duration = duration };
  }

  -- `self._wake_event.clear()` before a collection
  unfoldable pub clear_wake : Exporter G F → Exporter G F
  clear_wake e = record e { wake_event = false }

module _ {G F E : Type 0} (floats : Floats F) (api : Gauges G F) where
  -- The methods, with what the other threads do between the two sections of the lock. What is
  -- raised is passed on.
  -- `_collect_vmss_once`
  unfoldable pub collect_vmss_once :
      (Exporter G F → Exporter G F)
      → Result E (List VmssCount)
      → F
      → F
      → Exporter G F
      → Exporter G F
  unfolding can_write_metrics_locked fail_vmss publish_vmss summarize_vmss
  collect_vmss_once others (err x) now duration e = fail_vmss duration e
  collect_vmss_once others (ok counts) now duration e =
      if can_write_metrics_locked e
      then summarize_vmss floats now duration counts (others (publish_vmss floats api counts e))
      else e

  -- `collect_standalone_vms_once`, where the collection is configured
  unfoldable pub collect_standalone_vms_once :
      (Exporter G F → Exporter G F)
      → Result E (List StandaloneVm)
      → F
      → F
      → Exporter G F
      → Exporter G F
  unfolding can_write_metrics_locked fail_standalone_vms publish_standalone_vms
      summarize_standalone_vms
  collect_standalone_vms_once others (err x) now duration e = fail_standalone_vms duration e
  collect_standalone_vms_once others (ok vms) now duration e =
      if can_write_metrics_locked e
      then summarize_standalone_vms floats now duration vms
          (others (publish_standalone_vms floats api vms e))
      else e

  -- `collect_lustre_once`, where the collection is configured
  unfoldable pub collect_lustre_once :
      (Exporter G F → Exporter G F)
      → Result E (LustreResult F)
      → F
      → F
      → Exporter G F
      → Exporter G F
  unfolding can_write_metrics_locked fail_lustre publish_lustre summarize_lustre
  collect_lustre_once others (err x) now duration e = fail_lustre duration e
  collect_lustre_once others (ok result) now duration e =
      if can_write_metrics_locked e
      then summarize_lustre floats now duration result (others (publish_lustre floats api result e))
      else e
