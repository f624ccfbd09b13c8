-- ===== src/Config.antt =====
-- src/vmss_metrics_exporter/config.py: the settings of the leader election.
--
-- `Env` is the process environment with what Python's library makes of its strings. Every integer
-- that is read has a minimum, which a negative one fails, so the values are natural numbers; the
-- comparison with 1.2 is in tenths, as in LeaderElection.Config.
pub mod Accepted
pub mod Load
pub mod Subscriptions
pub mod Bounds
pub mod Sound
mod Examples
use azure_lustre_vmss_metric.Prelude.{
  ℕ, ◌*◌, String, Bool, true, false, ◌||◌, Option, none, some, ◌==◌, string_eq, leb, ltb,
  if◌then◌else◌,
}
use azure_lustre_vmss_metric.Prelude.Number.{ℤ, pos, negsuc}
use azure_lustre_vmss_metric.Prelude.Result.{Result, ok, err, ◌>>=◌}
use azure_lustre_vmss_metric.LeaderElection.Config.{LeaderElectionConfig}

pub record Env : Type 0 where
  pub getenv : String → Option String
  -- `int(raw)`, where it does not raise
  pub parse_int : String → Option ℤ
  -- `raw.strip().lower()`
  pub normalized : String → String
  pub gethostname : String

pub data SettingsError : Type 0 where
  not_an_integer not_a_boolean below_minimum above_maximum : SettingsError
  renew_not_below_lease renew_not_above_retry : SettingsError

pub record LeaderElectionSettings : Type 0 where
  pub leader_election_enabled : Bool
  pub leader_election_lock_name : String
  pub leader_election_namespace : String
  pub leader_election_identity : String
  pub leader_election_lease_duration_seconds : ℕ
  pub leader_election_renew_deadline_seconds : ℕ
  pub leader_election_retry_period_seconds : ℕ

-- `a or b` on an optional string
unfoldable pub or_string : Option String → String → String
or_string none b = b
or_string (some a) b = if a == "" then b else a

-- `os.getenv(name, default)`: a variable that is set to nothing is not replaced
unfoldable pub default_to : Option String → String → String
default_to none b = b
default_to (some a) b = a

unfoldable pub in_range : ℕ → ℕ → Option ℤ → Result SettingsError ℕ
in_range minimum maximum none = err not_an_integer
in_range minimum maximum (some (negsuc n)) = err below_minimum
in_range minimum maximum (some (pos n)) =
    if ltb n minimum then err below_minimum else if ltb maximum n then err above_maximum else ok n

module _ (env : Env) where
  unfoldable pub read_int : Option String → ℕ → ℕ → ℕ → Result SettingsError ℕ
  unfolding in_range
  read_int none default minimum maximum = ok default
  read_int (some raw) default minimum maximum =
      if raw == "" then ok default else in_range minimum maximum (env.parse_int raw)

  unfoldable pub get_int : String → ℕ → ℕ → ℕ → Result SettingsError ℕ
  unfolding read_int
  get_int name default minimum maximum = read_int (env.getenv name) default minimum maximum

  abbrev pub to_bool : String → Result SettingsError Bool
  to_bool word =
      if word == "1" || word == "true" || word == "yes" || word == "y" || word == "on"
      then ok true
      else if word == "0" || word == "false" || word == "no" || word == "n" || word == "off"
      then ok false
      else err not_a_boolean

  unfoldable pub read_bool : Option String → Bool → Result SettingsError Bool
  read_bool none default = ok default
  read_bool (some raw) default = if raw == "" then ok default else to_bool (env.normalized raw)

  unfoldable pub get_bool : String → Bool → Result SettingsError Bool
  unfolding read_bool
  get_bool name default = read_bool (env.getenv name) default

  unfoldable pub settings_of : Bool → ℕ → ℕ → ℕ → LeaderElectionSettings
  unfolding or_string default_to
  settings_of enabled lease_duration renew_deadline retry_period = record {
    leader_election_enabled = enabled;
    leader_election_lock_name =
        default_to (env.getenv "LEADER_ELECTION_LOCK_NAME") "vmss-metrics-exporter";
    leader_election_namespace =
        or_string (env.getenv "LEADER_ELECTION_NAMESPACE")
          (or_string (env.getenv "POD_NAMESPACE") "default");
    leader_election_identity =
        or_string (env.getenv "LEADER_ELECTION_IDENTITY")
          (or_string (env.getenv "POD_NAME") env.gethostname);
    leader_election_lease_duration_seconds = lease_duration;
    leader_election_renew_deadline_seconds = renew_deadline;
    leader_election_retry_period_seconds = retry_period;
  }

  -- the cross-field tests
  unfoldable pub checked : Bool → ℕ → ℕ → ℕ → Result SettingsError LeaderElectionSettings
  unfolding settings_of
  checked enabled lease_duration renew_deadline retry_period =
      if leb lease_duration renew_deadline
      then err renew_not_below_lease
      else if leb (renew_deadline * 10) (retry_period * 12)
      then err renew_not_above_retry
      else ok (settings_of enabled lease_duration renew_deadline retry_period)

  unfoldable pub load_leader_election_settings : Result SettingsError LeaderElectionSettings
  unfolding get_bool get_int checked
  load_leader_election_settings = get_bool "LEADER_ELECTION_ENABLED" false >>= λ enabled.
      get_int "LEADER_ELECTION_LEASE_DURATION_SECONDS" 15 5 120 >>= λ lease_duration.
      get_int "LEADER_ELECTION_RENEW_DEADLINE_SECONDS" 10 2 119 >>= λ renew_deadline.
      get_int "LEADER_ELECTION_RETRY_PERIOD_SECONDS" 2 1 60 >>= λ retry_period.
      checked enabled lease_duration renew_deadline retry_period

-- the `LeaderElectionConfig` that `_start_leader_election` of main.py makes of the settings
unfoldable pub leader_election_config : LeaderElectionSettings → LeaderElectionConfig
leader_election_config settings = record {
  lock_name = settings.leader_election_lock_name;
  lock_namespace = settings.leader_election_namespace;
  identity = settings.leader_election_identity;
  lease_duration_seconds = settings.leader_election_lease_duration_seconds;
  renew_deadline_seconds = settings.leader_election_renew_deadline_seconds;
  retry_period_seconds = settings.leader_election_retry_period_seconds;
}
