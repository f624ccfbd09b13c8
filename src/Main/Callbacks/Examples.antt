-- ===== src/Main/Callbacks/Examples.antt =====
-- A follower that takes the lead while the label cannot be patched.
use azure_lustre_vmss_metric.Prelude.{
  ℕ, nat_beq, if◌then◌else◌, List, String, ◌≡◌, refl, true, false, ◌||◌, none, some, [], ◌∷◌,
  string_eq, list_eq,
}
use azure_lustre_vmss_metric.Prelude.Fixtures.{floats}
use azure_lustre_vmss_metric.Prelude.Number.{pos}
use azure_lustre_vmss_metric.Prelude.Result.{ok, err}
use azure_lustre_vmss_metric.Models.Vmss.{VmssCount}
use azure_lustre_vmss_metric.Exporter.Fixtures.{Series, api}
use azure_lustre_vmss_metric.Exporter.Vmss.{update_metrics}
use azure_lustre_vmss_metric.Exporter.State.{fresh_shown, zero_durations}
use azure_lustre_vmss_metric.Exporter.State.Once.{Collected}
use azure_lustre_vmss_metric.Exporter.State.Steps.{Action, fails_vmss, publishes_vmss}
use azure_lustre_vmss_metric.Main.Callbacks.{Pod, on_started_leading}
use azure_lustre_vmss_metric.Main.Callbacks.Started.{Shows, Sums, on_started_leading_lem}

abbrev count : VmssCount
count = record {
  subscription_id = "sub";
  resource_group = "rg";
  vmss_name = "pool";
  location = "westeurope";
  orchestration_mode = "Uniform";
  actual_instance_count = pos 3;
  capacity = pos 8;
  running_instance_count = pos 3;
  stopped_instance_count = pos 0;
  deallocated_instance_count = pos 0;
  failed_instance_count = pos 0;
  unknown_instance_count = pos 0;
  vm_size = "Standard_D4s_v5";
  sku_tier = "Standard";
}

abbrev waiting : Pod Series ℕ
unfolding fresh_shown zero_durations
waiting = record {
  exporter = record {
    standalone_vm_max_inventory = 100;
    leader_election_enabled = true;
    stop_event = false;
    is_leader_event = false;
    wake_event = false;
    is_leader = 0;
    shown = fresh_shown floats api;
    durations = zero_durations floats;
    errors = record {
      collection_errors = 0;
      lustre_collection_errors = 0;
      standalone_vm_collection_errors = 0;
    };
  };
  labelled = false;
}

-- The collection of Managed Lustre fails.
abbrev collected : Collected ℕ String
collected = record {
  counts = ok (count ∷ []);
  lustre = some (err "throttled");
  standalone_vms = none;
  now = 1000;
  duration = 2;
  lustre_now = 1001;
  lustre_duration = 1;
  standalone_vm_now = 0;
  standalone_vm_duration = 0;
}

-- While Managed Lustre is collected, a poller fails, and another comes to publish an empty list.
abbrev meanwhile : ℕ → List (Action ℕ)
meanwhile k = if nat_beq k 1 then fails_vmss 3 ∷ publishes_vmss [] ∷ [] else []

leads_unlabelled :
    (on_started_leading floats api collected meanwhile false waiting).labelled ≡ false
unfolding on_started_leading waiting
leads_unlabelled = refl

-- What the poller published stays.
poller_shows :
    (on_started_leading floats api collected meanwhile false waiting).exporter.shown.vmss
    ≡ update_metrics floats api []
        (update_metrics floats api (count ∷ []) waiting.exporter.shown.vmss)
unfolding on_started_leading waiting
poller_shows = refl

on_started_leading_lem_example :
    let pod' = on_started_leading floats api collected meanwhile false waiting in
    (pod'.exporter.is_leader_event ≡ true)
    × Shows floats api meanwhile (count ∷ []) pod'.exporter.shown.vmss
    × Sums floats api meanwhile (count ∷ []) pod'.exporter.shown.totals.vmss_total
    × (pod'.labelled ≡ (false || waiting.labelled))
unfolding waiting
on_started_leading_lem_example =
    on_started_leading_lem floats api collected meanwhile (count ∷ []) false waiting refl refl
