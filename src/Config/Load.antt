-- ===== src/Config/Load.antt =====
-- src/vmss_metrics_exporter/config.py: `load_settings`.
--
-- Floats are a type `F` with the operations of Python; `parse_float` is `float(raw)` where it does
-- not raise, and `upper` is `str.upper`. `load_dotenv` has already filled the environment.
use azure_lustre_vmss_metric.Prelude.{
  ℕ, String, Bool, true, ◌&&◌, not, Option, none, some, List, [], ◌∷◌, map, keep, is_empty, ◌==◌,
  string_eq, ltb, if◌then◌else◌,
}
use azure_lustre_vmss_metric.Prelude.Dict.{Dict, insert}
use azure_lustre_vmss_metric.Prelude.Text.{replace, split, strip}
use azure_lustre_vmss_metric.Prelude.Number.{ℤ, pos, negsuc, Floats, of_nat}
use azure_lustre_vmss_metric.Prelude.Result.{Result, ok, err, ◌>>=◌}
use azure_lustre_vmss_metric.Config.{
  Env, SettingsError, LeaderElectionSettings, default_to, get_int, get_bool,
  load_leader_election_settings,
}

pub data LoadError : Type 0 where
  no_subscription not_a_number number_below_minimum number_above_maximum : LoadError
  rejected : SettingsError → LoadError

pub record Settings (F : Type 0) : Type 0 where
  pub subscription_ids : List String
  pub poll_interval_seconds : ℕ
  pub host : String
  pub port : ℕ
  pub log_level : String
  pub arg_page_size : ℕ
  pub arg_max_retries : ℕ
  pub arg_retry_base_delay_seconds : F
  pub enable_managed_lustre_metrics : Bool
  pub lustre_poll_interval_seconds : ℕ
  pub lustre_metrics_lookback_minutes : ℕ
  pub lustre_metrics_interval : String
  pub lustre_metrics_max_workers : ℕ
  pub lustre_metrics_request_jitter_seconds : F
  pub enable_standalone_vm_inventory : Bool
  pub standalone_vm_max_inventory : ℕ
  pub shutdown_drain_seconds : F
  pub leader_election : LeaderElectionSettings

abbrev pub placeholder_subscription : String
placeholder_subscription = "00000000-0000-0000-0000-000000000000"

-- `dict.fromkeys(values)`: a dictionary in the order of the first occurrences
unfoldable pub from_keys : List String → Dict String (Unit {0}) → Dict String (Unit {0})
from_keys [] d = d
from_keys (x ∷ xs) d = from_keys xs (insert x tt d)

abbrev pub key_of : String × Unit {0} → String
key_of (k, v) = k

-- the items that the comprehension keeps, `item.strip()` of each
unfoldable pub real_items : String → List String
real_items raw =
    keep (λ item. not (item == "") && not (item == placeholder_subscription))
      (map strip (split "," (replace ";" "," raw)))

unfoldable pub parse_subscription_ids : String → List String
unfolding from_keys real_items
parse_subscription_ids raw = map key_of (from_keys (real_items raw) [])

-- `int` without an upper bound
unfoldable pub at_least : ℕ → Option ℤ → Result SettingsError ℕ
at_least minimum none = err SettingsError.not_an_integer
at_least minimum (some (negsuc n)) = err SettingsError.below_minimum
at_least minimum (some (pos n)) = if ltb n minimum then err SettingsError.below_minimum else ok n

unfoldable pub read_int_from : Env → Option String → ℕ → ℕ → Result SettingsError ℕ
unfolding at_least
read_int_from env none default minimum = ok default
read_int_from env (some raw) default minimum =
    if raw == "" then ok default else at_least minimum (env.parse_int raw)

unfoldable pub get_int_from : Env → String → ℕ → ℕ → Result SettingsError ℕ
unfolding read_int_from
get_int_from env name default minimum = read_int_from env (env.getenv name) default minimum

abbrev pub lifted : {A : Type 0} → Result SettingsError A → Result LoadError A
lifted (ok a) = ok a
lifted (err e) = err (rejected e)

module _ {F : Type 0} (floats : Floats F) (parse_float : String → Option F) where
  unfoldable pub float_in_range : F → F → Option F → Result LoadError F
  float_in_range minimum maximum none = err not_a_number
  float_in_range minimum maximum (some value) =
      if floats.lt value minimum
      then err number_below_minimum
      else if floats.lt maximum value
      then err number_above_maximum
      else ok value

  unfoldable pub read_float : Option String → F → F → F → Result LoadError F
  unfolding float_in_range
  read_float none default minimum maximum = ok default
  read_float (some raw) default minimum maximum =
      if raw == "" then ok default else float_in_range minimum maximum (parse_float raw)

  module _ (upper : String → String) (env : Env) where
    -- below the guard on the subscriptions
    unfoldable pub load_rest : List String → Result LoadError (Settings F)
    unfolding read_float get_int_from get_int get_bool load_leader_election_settings default_to
    load_rest ids =
        let nought = of_nat floats 0 in
        let minute = of_nat floats 60 in
        lifted (get_int_from env "POLL_INTERVAL_SECONDS" 300 30) >>= λ poll_interval.
        lifted (get_int env "PORT" 8000 1 65535) >>= λ port.
        lifted (get_int env "ARG_PAGE_SIZE" 1000 1 1000) >>= λ page_size.
        lifted (get_int env "ARG_MAX_RETRIES" 3 0 10) >>= λ max_retries.
        read_float (env.getenv "ARG_RETRY_BASE_DELAY_SECONDS") (of_nat floats 1) nought minute
        >>= λ base_delay. lifted (get_bool env "ENABLE_MANAGED_LUSTRE_METRICS" true) >>= λ lustre.
            lifted (get_int_from env "LUSTRE_POLL_INTERVAL_SECONDS" 60 15) >>= λ lustre_interval.
            lifted (get_int env "LUSTRE_METRICS_LOOKBACK_MINUTES" 15 1 1440) >>= λ lookback.
            lifted (get_int env "LUSTRE_METRICS_MAX_WORKERS" 4 1 32) >>= λ max_workers.
            read_float (env.getenv "LUSTRE_METRICS_REQUEST_JITTER_SECONDS")
              (floats.div (of_nat floats 1) (of_nat floats 2)) nought minute
            >>= λ jitter.
                lifted (get_bool env "ENABLE_STANDALONE_VM_INVENTORY" true) >>= λ standalone.
                lifted (get_int env "STANDALONE_VM_MAX_INVENTORY" 5000 100 100000)
                >>= λ max_inventory.
                    read_float (env.getenv "SHUTDOWN_DRAIN_SECONDS") nought nought
                      (of_nat floats 120)
                    >>= λ drain. lifted (load_leader_election_settings env) >>= λ leader_election.
                        ok (record {
                          subscription_ids = ids;
                          poll_interval_seconds = poll_interval;
                          host = default_to (env.getenv "HOST") "0.0.0.0";
                          port = port;
                          log_level = upper (default_to (env.getenv "LOG_LEVEL") "INFO");
                          arg_page_size = page_size;
                          arg_max_retries = max_retries;
                          arg_retry_base_delay_seconds = base_delay;
                          enable_managed_lustre_metrics = lustre;
                          lustre_poll_interval_seconds = lustre_interval;
                          lustre_metrics_lookback_minutes = lookback;
                          lustre_metrics_interval =
                              default_to (env.getenv "LUSTRE_METRICS_INTERVAL") "PT1M";
                          lustre_metrics_max_workers = max_workers;
                          lustre_metrics_request_jitter_seconds = jitter;
                          enable_standalone_vm_inventory = standalone;
                          standalone_vm_max_inventory = max_inventory;
                          shutdown_drain_seconds = drain;
                          leader_election = leader_election;
                        })

    unfoldable pub load_settings : Bool → Result LoadError (Settings F)
    unfolding load_rest parse_subscription_ids
    load_settings require_subscription_ids =
        let ids = parse_subscription_ids (default_to (env.getenv "AZURE_SUBSCRIPTION_IDS") "") in
        if require_subscription_ids && is_empty ids then err no_subscription else load_rest ids
