-- ===== src/Config/Examples.antt =====
-- Two environments, and what becomes of their settings.
use azure_lustre_vmss_metric.Prelude.{
  ℕ, String, ◌≡◌, refl, true, false, ◌&&◌, Option, none, some, [], ◌∷◌, is_empty, ◌==◌, string_eq,
  if◌then◌else◌, differ_lem, arith,
}
use azure_lustre_vmss_metric.Prelude.Number.{pos}
use azure_lustre_vmss_metric.Prelude.Result.{ok, err}
use azure_lustre_vmss_metric.LeaderElection.Config.{post_init, name_missing}
use azure_lustre_vmss_metric.Config.{
  Env, LeaderElectionSettings, default_to, settings_of, load_leader_election_settings,
  leader_election_config,
}
use azure_lustre_vmss_metric.Prelude.Text.{replace, split, strip}
use azure_lustre_vmss_metric.Prelude.Dict.{insert}
use azure_lustre_vmss_metric.Prelude.Fixtures.{floats}
use azure_lustre_vmss_metric.Config.Load.{Settings, parse_subscription_ids, load_settings}
use azure_lustre_vmss_metric.Config.Subscriptions.{IsDistinct}
use azure_lustre_vmss_metric.Config.Sound.{IsSound, load_settings-IsSound}
use azure_lustre_vmss_metric.Config.Accepted.{load_leader_election_settings-post_init}

-- A longer Lease, written as a number; everything else has its default.
abbrev pod : Env
pod = record {
  getenv = λ name. if name == "LEADER_ELECTION_LEASE_DURATION_SECONDS" then some "60" else none;
  parse_int = λ raw. if raw == "60" then some (pos 60) else none;
  normalized = λ raw. raw;
  gethostname = "pod-a";
}

abbrev loaded : LeaderElectionSettings
unfolding settings_of
loaded = settings_of pod false 60 10 2

load_leader_election_settings-post_init_example :
    post_init (leader_election_config loaded) ≡ ok (leader_election_config loaded)
unfolding load_leader_election_settings loaded
load_leader_election_settings-post_init_example =
    load_leader_election_settings-post_init pod loaded (differ_lem "pod-a" "" refl)
      (λ e. ground (arith, e)) refl

-- With the name of the lock set to nothing, the settings load and the configuration is refused.
abbrev unnamed : Env
unnamed = record pod {
  getenv = λ name. if name == "LEADER_ELECTION_LOCK_NAME" then some "" else none;
}

unnamed_loads : load_leader_election_settings unnamed ≡ ok (settings_of unnamed false 15 10 2)
unfolding load_leader_election_settings
unnamed_loads = refl

unnamed_refused :
    post_init (leader_election_config (settings_of unnamed false 15 10 2)) ≡ err name_missing
unfolding post_init leader_election_config settings_of
unnamed_refused = refl

-- Two subscriptions, one of them twice, and a drain of five seconds.
abbrev cluster : Env
cluster = record {
  getenv = λ name.
      if name == "AZURE_SUBSCRIPTION_IDS"
      then some " sub-a;00000000-0000-0000-0000-000000000000, sub-b,,sub-a"
      else if name == "SHUTDOWN_DRAIN_SECONDS"
      then some "5"
      else none;
  parse_int = λ raw. none;
  normalized = λ raw. raw;
  gethostname = "pod-a";
}

abbrev seconds : String → Option ℕ
seconds raw = if raw == "5" then some 5 else none

abbrev settings : Settings ℕ
unfolding settings_of
settings = record {
  subscription_ids = "sub-a" ∷ "sub-b" ∷ [];
  poll_interval_seconds = 300;
  host = "0.0.0.0";
  port = 8000;
  log_level = "INFO";
  arg_page_size = 1000;
  arg_max_retries = 3;
  arg_retry_base_delay_seconds = 1;
  enable_managed_lustre_metrics = true;
  lustre_poll_interval_seconds = 60;
  lustre_metrics_lookback_minutes = 15;
  lustre_metrics_interval = "PT1M";
  lustre_metrics_max_workers = 4;
  lustre_metrics_request_jitter_seconds = 0;
  enable_standalone_vm_inventory = true;
  standalone_vm_max_inventory = 5000;
  shutdown_drain_seconds = 5;
  leader_election = settings_of cluster false 15 10 2;
}

two_subscriptions :
    parse_subscription_ids " sub-a;00000000-0000-0000-0000-000000000000, sub-b,,sub-a"
    ≡ "sub-a" ∷ "sub-b" ∷ []
unfolding parse_subscription_ids replace split strip insert
two_subscriptions = refl

load_settings-IsSound_example :
    IsSound floats seconds settings
    × (settings.subscription_ids
        ≡ parse_subscription_ids (default_to (cluster.getenv "AZURE_SUBSCRIPTION_IDS") ""))
    × IsDistinct settings.subscription_ids
    × ((true && is_empty settings.subscription_ids) ≡ false)
unfolding load_settings settings replace split strip insert
load_settings-IsSound_example =
    load_settings-IsSound floats seconds (λ level. level) cluster true settings refl
