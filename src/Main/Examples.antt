-- ===== src/Main/Examples.antt =====
-- A pod that serves until it is asked to stop, and one whose port is taken.
use azure_lustre_vmss_metric.Prelude.{
  ℕ, ◌≡◌, refl, true, false, Option, none, some, List, [], ◌∷◌, map, ◌≢◌, arith,
}
use azure_lustre_vmss_metric.Prelude.Fixtures.{floats}
use azure_lustre_vmss_metric.Prelude.Result.{ok}
use azure_lustre_vmss_metric.Config.Load.{Settings}
use azure_lustre_vmss_metric.Main.{
  Resource, credential, resource_graph_client, metrics_query_client, exporter,
  leader_election_runner, Stop, exception, Call, load_settings, configure_logging, create,
  new_vmss_collector, new_lustre_collector, load_incluster_kube_config, new_leader_election_config,
  new_leader_election_runner, start_http_server, close, Event, World, main,
}
use azure_lustre_vmss_metric.Main.Ending.{held_after, first_stop, code_for}
use azure_lustre_vmss_metric.Main.Closing.{IsCalm, main-code, main-closes}

abbrev settings : Settings ℕ
settings = record {
  subscription_ids = "sub-a" ∷ [];
  poll_interval_seconds = 300;
  host = "0.0.0.0";
  port = 8000;
  log_level = "INFO";
  arg_page_size = 1000;
  arg_max_retries = 3;
  arg_retry_base_delay_seconds = 1;
  enable_managed_lustre_metrics = true;
  lustre_poll_interval_seconds = 60;
  lustre_metrics_lookback_minutes = 15;
  lustre_metrics_interval = "PT1M";
  lustre_metrics_max_workers = 4;
  lustre_metrics_request_jitter_seconds = 0;
  enable_standalone_vm_inventory = false;
  standalone_vm_max_inventory = 5000;
  shutdown_drain_seconds = 5;
  leader_election = record {
    leader_election_enabled = true;
    leader_election_lock_name = "vmss-metrics-exporter";
    leader_election_namespace = "default";
    leader_election_identity = "pod-a";
    leader_election_lease_duration_seconds = 15;
    leader_election_renew_deadline_seconds = 10;
    leader_election_retry_period_seconds = 2;
  };
}

abbrev refused : Call → Option Stop
refused start_http_server = some exception
refused c = none

abbrev port_taken : World ℕ
port_taken = record { settings = ok settings; answer = λ past c. refused c; has_close = λ r. true }

port_taken-undisturbed :
    (past : List Event) (r : Resource)
    → port_taken.answer past (close r) ≢ some Stop.keyboard_interrupt
port_taken-undisturbed past r h = ground (arith, h)

port_taken-IsCalm : IsCalm port_taken
port_taken-IsCalm = record {
  closable = λ r. refl;
  undisturbed = port_taken-undisturbed;
  wakes = λ past. refl;
}

-- The calls of the run, the last one first.
abbrev calls_of : List Event → List Call
calls_of events = map (λ (e : Event). e.call) events

port_taken_calls :
    calls_of (main floats port_taken false).1
    ≡ close credential
      ∷ close resource_graph_client
      ∷ close metrics_query_client
      ∷ close exporter
      ∷ close leader_election_runner
      ∷ start_http_server
      ∷ create leader_election_runner
      ∷ new_leader_election_runner
      ∷ new_leader_election_config
      ∷ load_incluster_kube_config
      ∷ create exporter
      ∷ new_lustre_collector
      ∷ create metrics_query_client
      ∷ new_vmss_collector
      ∷ create resource_graph_client
      ∷ create credential
      ∷ configure_logging
      ∷ load_settings
      ∷ []
unfolding main
port_taken_calls = refl

main-code_example :
    (code : ℕ) × ((main floats port_taken false).0 ≡ ok code)
    × (code ≡ code_for (first_stop (main floats port_taken false).1))
main-code_example = main-code floats port_taken port_taken-IsCalm false

main-closes_example : held_after (main floats port_taken false).1 ≡ some []
main-closes_example = main-closes floats port_taken port_taken-IsCalm false
