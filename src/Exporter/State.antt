-- ===== src/Exporter/State.antt =====
-- `VmssMetricsExporter`: its state, and its methods. A method that takes `_metric_lock` is one
-- function for each section of the lock, since other threads can run between the sections.
pub mod Leadership
pub mod Collection
pub mod Steps
pub mod Once
pub mod Poll
use azure_lustre_vmss_metric.Prelude.{ℕ, Bool, true, false, not, ◌||◌, leb, if◌then◌else◌, List, []}
use azure_lustre_vmss_metric.Prelude.Number.{Floats, of_nat}
use azure_lustre_vmss_metric.Prelude.Result.{Result, ok, err}
use azure_lustre_vmss_metric.Exporter.Gauge.{Gauges}
use azure_lustre_vmss_metric.Exporter.Family.{fresh_family}
use azure_lustre_vmss_metric.Exporter.Vmss.{VmssGauges}
use azure_lustre_vmss_metric.Exporter.Vm.{VmGauges}
use azure_lustre_vmss_metric.Exporter.Lustre.{LustreGauges}

-- The totals and the times of the last successes.
pub record Totals (F : Type 0) : Type 0 where
  pub vmss_total : F
  pub lustre_filesystem_total : F
  pub lustre_ost_sample_count : F
  pub last_success_timestamp : F
  pub lustre_last_success_timestamp : F
  pub standalone_vm_total : F
  pub standalone_vm_last_success_timestamp : F

pub record Durations (F : Type 0) : Type 0 where
  pub collection_duration : F
  pub lustre_collection_duration : F
  pub standalone_vm_collection_duration : F

-- The counters of failed collections.
pub record Errors : Type 0 where
  pub collection_errors : ℕ
  pub lustre_collection_errors : ℕ
  pub standalone_vm_collection_errors : ℕ

-- What a follower must not show.
pub record Shown (G F : Type 0) : Type 0 where
  pub vmss : VmssGauges G
  pub vms : VmGauges G
  pub lustre : LustreGauges G
  pub totals : Totals F

pub record Exporter (G F : Type 0) : Type 0 where
  pub standalone_vm_max_inventory : ℕ
  pub leader_election_enabled : Bool
  pub stop_event : Bool
  pub is_leader_event : Bool
  pub wake_event : Bool
  pub is_leader : F
  pub shown : Shown G F
  pub durations : Durations F
  pub errors : Errors

pub data ExporterError : Type 0 where
  max_inventory_not_positive : ExporterError

module _ {F : Type 0} (floats : Floats F) where
  unfoldable pub zero_totals : Totals F
  zero_totals =
      let nought = of_nat floats 0 in
      record {
        vmss_total = nought;
        lustre_filesystem_total = nought;
        lustre_ost_sample_count = nought;
        last_success_timestamp = nought;
        lustre_last_success_timestamp = nought;
        standalone_vm_total = nought;
        standalone_vm_last_success_timestamp = nought;
      }

  unfoldable pub zero_durations : Durations F
  zero_durations =
      let nought = of_nat floats 0 in
      record {
        collection_duration = nought;
        lustre_collection_duration = nought;
        standalone_vm_collection_duration = nought;
      }

module _ {G F : Type 0} (floats : Floats F) (api : Gauges G F) where
  unfoldable pub fresh_shown : Shown G F
  unfolding fresh_family zero_totals
  fresh_shown = record {
    vmss = record {
      counts = fresh_family api;
      states = fresh_family api;
      infos = fresh_family api;
    };
    vms = record {
      infos = fresh_family api;
      power_states = fresh_family api;
      sizes = fresh_family api;
    };
    lustre = record {
      filesystems = fresh_family api;
      capacities = fresh_family api;
      aggregates = fresh_family api;
      osts = fresh_family api;
      ost_operations = fresh_family api;
      mdts = fresh_family api;
      mdt_operations = fresh_family api;
    };
    totals = zero_totals floats;
  }

  -- `__init__`: without leader election the leader event is set for good. A gauge that was never
  -- set shows 0.
  unfoldable pub init : Bool → ℕ → Result ExporterError (Exporter G F)
  unfolding fresh_shown zero_durations
  init enabled max_inventory =
      if leb max_inventory 0
      then err max_inventory_not_positive
      else ok (record {
        standalone_vm_max_inventory = max_inventory;
        leader_election_enabled = enabled;
        stop_event = false;
        is_leader_event = not enabled;
        wake_event = false;
        is_leader = of_nat floats (if enabled then 0 else 1);
        shown = fresh_shown;
        durations = zero_durations floats;
        errors = record {
          collection_errors = 0;
          lustre_collection_errors = 0;
          standalone_vm_collection_errors = 0;
        };
      })

module _ {G F : Type 0} where
  unfoldable pub can_write_metrics_locked : Exporter G F → Bool
  can_write_metrics_locked e = not e.leader_election_enabled || e.is_leader_event
