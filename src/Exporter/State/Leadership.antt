-- ===== src/Exporter/State/Leadership.antt =====
-- `set_leader`, `stop` and `_clear_resource_gauges`.
use azure_lustre_vmss_metric.Prelude.{Bool, true, false, if◌then◌else◌}
use azure_lustre_vmss_metric.Prelude.Number.{Floats, of_nat}
use azure_lustre_vmss_metric.Exporter.Gauge.{Gauges}
use azure_lustre_vmss_metric.Exporter.Family.{clear_family}
use azure_lustre_vmss_metric.Exporter.State.{Exporter, Shown, zero_totals, zero_durations}

module _ {G F : Type 0} (floats : Floats F) (api : Gauges G F) where
  unfoldable pub clear_shown : Shown G F → Shown G F
  unfolding clear_family zero_totals
  clear_shown s = record {
    vmss = record {
      counts = clear_family api s.vmss.counts;
      states = clear_family api s.vmss.states;
      infos = clear_family api s.vmss.infos;
    };
    vms = record {
      infos = clear_family api s.vms.infos;
      power_states = clear_family api s.vms.power_states;
      sizes = clear_family api s.vms.sizes;
    };
    lustre = record {
      filesystems = clear_family api s.lustre.filesystems;
      capacities = clear_family api s.lustre.capacities;
      aggregates = clear_family api s.lustre.aggregates;
      osts = clear_family api s.lustre.osts;
      ost_operations = clear_family api s.lustre.ost_operations;
      mdts = clear_family api s.lustre.mdts;
      mdt_operations = clear_family api s.lustre.mdt_operations;
    };
    totals = zero_totals floats;
  }

  unfoldable pub clear_resource_gauges : Exporter G F → Exporter G F
  unfolding clear_shown zero_durations
  clear_resource_gauges e = record e {
    shown = clear_shown e.shown;
    durations = zero_durations floats;
  }

module _ {G F : Type 0} (floats : Floats F) where
  -- `set_leader(True)` behind its guard
  unfoldable pub promote : Exporter G F → Exporter G F
  promote e = record e { is_leader = of_nat floats 1; is_leader_event = true; wake_event = true }

  -- `set_leader(False)` behind its guard, before it clears the gauges
  unfoldable pub demote : Exporter G F → Exporter G F
  demote e = record e { is_leader = of_nat floats 0; is_leader_event = false }

module _ {G F : Type 0} (floats : Floats F) (api : Gauges G F) where
  unfoldable pub set_leader : Bool → Exporter G F → Exporter G F
  unfolding promote demote clear_resource_gauges
  set_leader is_leader e =
      if e.leader_election_enabled
      then (if is_leader
          then promote floats e
          else clear_resource_gauges floats api (demote floats e))
      else e

module _ {G F : Type 0} where
  -- `stop`, up to its joins
  unfoldable pub stop : Exporter G F → Exporter G F
  stop e = record e { stop_event = true; is_leader_event = true; wake_event = true }
