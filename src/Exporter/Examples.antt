-- ===== src/Exporter/Examples.antt =====
-- Gauges as dictionaries, and the theorems of the exporter applied to them.
use azure_lustre_vmss_metric.Prelude.{
  ℕ, String, ◌≡◌, ◌≢◌, refl, true, false, none, some, List, [], ◌∷◌, arith, if◌then◌else◌,
  string_eq, list_eq, nat_beq,
}
use azure_lustre_vmss_metric.Prelude.Sets.{contains}
use azure_lustre_vmss_metric.Prelude.Fixtures.{floats}
use azure_lustre_vmss_metric.Prelude.Number.{pos, of_nat}
use azure_lustre_vmss_metric.Models.Vmss.{VmssCount, label_values}
use azure_lustre_vmss_metric.Models.Vm.{StandaloneVm, identity_label_values}
use azure_lustre_vmss_metric.Models.Lustre.{OstMetric, ost_label_values}
use azure_lustre_vmss_metric.Exporter.Fixtures.{Series, api}
use azure_lustre_vmss_metric.Exporter.Samples.{last_with, last_or, last_value, value_or}
use azure_lustre_vmss_metric.Exporter.Vmss.{
  instance_count, counted, update_metrics, update_metrics-counts,
}
use azure_lustre_vmss_metric.Exporter.Vm.{
  suppress_per_vm, update_standalone_vm_metrics, standalone_vm_count_by_size,
  standalone_vm_power_state,
}
use azure_lustre_vmss_metric.Exporter.Vm.Sizes.{how_many, update_standalone_vm_metrics-sizes}
use azure_lustre_vmss_metric.Exporter.Vm.States.{series, update_standalone_vm_metrics-power_states}
use azure_lustre_vmss_metric.Exporter.Lustre.{
  LustreSamples, lustre_ost_bytes_used, lustre_ost_sample_timestamp,
}
use azure_lustre_vmss_metric.Exporter.Lustre.Update.{
  update_lustre_metrics, ost_reading, update_lustre_metrics-osts, update_lustre_metrics-timestamp,
}
use azure_lustre_vmss_metric.Exporter.State.{Exporter, init, fresh_shown, zero_durations}
use azure_lustre_vmss_metric.Exporter.State.Steps.{
  Reachable, outside, demoting, started, stepped, promoted, demoted, cleared, acted, publishes_vmss,
  perform,
}
use azure_lustre_vmss_metric.Exporter.State.Leadership.{promote, demote, clear_resource_gauges}
use azure_lustre_vmss_metric.Exporter.State.Steps.Follower.{Hidden, follower-Hidden}
use azure_lustre_vmss_metric.Exporter.State.Steps.Noted.{Noted, Reachable-Noted}

-- An exporter that became the leader, published two counts, and is the leader still.
abbrev count : String → ℕ → VmssCount
count name instances = record {
  subscription_id = "sub";
  resource_group = "rg";
  vmss_name = name;
  location = "westeurope";
  orchestration_mode = "Uniform";
  actual_instance_count = pos instances;
  capacity = pos 8;
  running_instance_count = pos instances;
  stopped_instance_count = pos 0;
  deallocated_instance_count = pos 0;
  failed_instance_count = pos 0;
  unknown_instance_count = pos 0;
  vm_size = "Standard_D4s_v5";
  sku_tier = "Standard";
}

abbrev candidate : Exporter Series ℕ
unfolding fresh_shown zero_durations
candidate = record {
  standalone_vm_max_inventory = 2;
  leader_election_enabled = true;
  stop_event = false;
  is_leader_event = false;
  wake_event = false;
  is_leader = 0;
  shown = fresh_shown floats api;
  durations = zero_durations floats;
  errors = record {
    collection_errors = 0;
    lustre_collection_errors = 0;
    standalone_vm_collection_errors = 0;
  };
}

candidate-Reachable : Reachable floats api outside candidate
unfolding init
candidate-Reachable = started true 2 candidate refl

abbrev leader : Exporter Series ℕ
unfolding perform
leader =
    perform floats api (publishes_vmss (count "a" 3 ∷ count "b" 5 ∷ [])) (promote floats candidate)

leader-Reachable : Reachable floats api outside leader
unfolding leader promote candidate
leader-Reachable =
    stepped (stepped candidate-Reachable (promoted candidate refl))
      (acted outside (promote floats candidate) (publishes_vmss (count "a" 3 ∷ count "b" 5 ∷ [])))

leader-Noted : Noted floats api leader.shown
leader-Noted = Reachable-Noted floats api leader-Reachable

-- It is demoted, and a collection that was under way publishes before and after the gauges are
-- cleared.
abbrev late : Exporter Series ℕ → Exporter Series ℕ
late = perform floats api (publishes_vmss (count "a" 4 ∷ []))

abbrev follower : Exporter Series ℕ
follower = late (clear_resource_gauges floats api (late (demote floats leader)))

follower-Reachable : Reachable floats api outside follower
unfolding leader promote candidate demote
follower-Reachable =
    stepped
      (stepped
        (stepped (stepped leader-Reachable (demoted leader refl))
          (acted demoting (demote floats leader) (publishes_vmss (count "a" 4 ∷ []))))
        (cleared (late (demote floats leader))))
      (acted outside _ (publishes_vmss (count "a" 4 ∷ [])))

follower-Hidden_example : Hidden floats api follower.shown
unfolding leader promote candidate demote perform clear_resource_gauges
follower-Hidden_example =
    follower-Hidden floats api follower follower-Reachable
      (record { enabled = refl; waiting = refl })

Reachable-Noted_example : Noted floats api follower.shown
Reachable-Noted_example = Reachable-Noted floats api follower-Reachable

-- The next inventory of the leader: one set is counted anew, one is gone, one is listed twice.
abbrev next_counts : List VmssCount
next_counts = count "a" 4 ∷ count "c" 1 ∷ count "c" 2 ∷ []

update_metrics-counts_example :
    api.value
      ((update_metrics floats api next_counts leader.shown.vmss).counts.gauge instance_count)
      (label_values (count "c" 2))
    ≡ last_or
        (λ c. some (counted floats instance_count c))
        (last_with label_values next_counts (label_values (count "c" 2)))
        none
update_metrics-counts_example =
    update_metrics-counts floats api next_counts leader.shown.vmss instance_count
      (label_values (count "c" 2)) leader-Noted.vmss

abbrev vm : String → String → StandaloneVm
vm name power_state = record {
  subscription_id = "sub";
  resource_group = "rg";
  vm_name = name;
  vm_id = name;
  location = "westeurope";
  zone = "";
  vm_size = "Standard_B2s";
  os_type = "Linux";
  power_state = power_state;
}

abbrev two_vms : List StandaloneVm
two_vms = vm "x" "running" ∷ vm "y" "deallocated" ∷ []

update_standalone_vm_metrics-sizes_example :
    api.value
      ((update_standalone_vm_metrics floats api 1 two_vms leader.shown.vms).sizes.gauge
        standalone_vm_count_by_size)
      ("Standard_B2s" ∷ [])
    ≡ (if nat_beq (how_many "Standard_B2s" two_vms) 0
        then none
        else some (of_nat floats (how_many "Standard_B2s" two_vms)))
update_standalone_vm_metrics-sizes_example =
    update_standalone_vm_metrics-sizes floats api 1 two_vms leader.shown.vms "Standard_B2s"
      leader-Noted.vms

update_standalone_vm_metrics-power_states_example :
    api.value
      ((update_standalone_vm_metrics floats api 2 two_vms leader.shown.vms).power_states.gauge
        standalone_vm_power_state)
      (series (vm "x" "running") "stopped")
    ≡ some 0
unfolding suppress_per_vm last_with identity_label_values contains
update_standalone_vm_metrics-power_states_example =
    update_standalone_vm_metrics-power_states floats api 2 two_vms leader.shown.vms
      (vm "x" "running") "stopped" leader-Noted.vms refl refl refl

-- A sample of an OST without a timestamp.
abbrev ost : OstMetric ℕ
ost = record {
  place = record {
    subscription_id = "sub";
    resource_group = "rg";
    filesystem_name = "fs";
    location = "westeurope";
  };
  ostnum = "0";
  bytes_available = some 40;
  bytes_used = some 60;
  bytes_total = some 100;
  client_read_ops = none;
  client_read_throughput_bytes_per_second = none;
  client_write_ops = none;
  client_write_throughput_bytes_per_second = none;
  connected_clients = some 3;
  sample_timestamp_seconds = none;
}

abbrev lustre_samples : LustreSamples ℕ
lustre_samples = record {
  filesystems = [];
  metrics = ost ∷ [];
  operation_metrics = [];
  mdt_metrics = [];
  mdt_operation_metrics = [];
  filesystem_aggregate_metrics = [];
}

not_timestamp : lustre_ost_bytes_used ≢ lustre_ost_sample_timestamp
not_timestamp e = ground (arith, e)

update_lustre_metrics-osts_example :
    api.value
      ((update_lustre_metrics floats api lustre_samples true leader.shown.lustre).osts.gauge
        lustre_ost_bytes_used)
      (ost_label_values ost)
    ≡ last_or
        (ost_reading floats lustre_ost_bytes_used)
        (last_with ost_label_values (ost ∷ []) (ost_label_values ost))
        none
update_lustre_metrics-osts_example =
    update_lustre_metrics-osts floats api lustre_samples true leader.shown.lustre
      lustre_ost_bytes_used (ost_label_values ost) leader-Noted.lustre not_timestamp

update_lustre_metrics-timestamp_example :
    api.value
      ((update_lustre_metrics floats api lustre_samples false leader.shown.lustre).osts.gauge
        lustre_ost_sample_timestamp)
      (ost_label_values ost)
    ≡ value_or
        (last_value
          (λ m. m.sample_timestamp_seconds)
          ost_label_values
          (ost ∷ [])
          (ost_label_values ost))
        (api.value
          (leader.shown.lustre.osts.gauge lustre_ost_sample_timestamp)
          (ost_label_values ost))
update_lustre_metrics-timestamp_example =
    update_lustre_metrics-timestamp floats api lustre_samples false leader.shown.lustre
      (ost_label_values ost) leader-Noted.lustre
