-- ===== src/Config/Accepted.antt =====
-- `__post_init__` accepts what the settings let through.
use azure_lustre_vmss_metric.Prelude.{
  ℕ, ◌*◌, ◌≤◌, ◌<◌, String, ◌≡◌, ◌≢◌, refl, Bool, false, Option, none, some, string_eq, arith, ap,
  subst, differ_lem,
}
use azure_lustre_vmss_metric.Prelude.Result.{ok, bind-ok}
use azure_lustre_vmss_metric.LeaderElection.Config.{LeaderElectionConfig, post_init}
use azure_lustre_vmss_metric.Config.{
  Env, LeaderElectionSettings, or_string, default_to, in_range, read_int, get_int, get_bool,
  checked, settings_of, load_leader_election_settings, leader_election_config,
}

-- What was loaded is read from bounded numbers.
in_range-least :
    (env : Env) (raw : Option String) (default minimum maximum n : ℕ)
    → minimum ≤ default
    → read_int env raw default minimum maximum ≡ ok n
    → minimum ≤ n
unfolding read_int in_range
in_range-least env none default minimum maximum n least h = ground (arith, h)
in_range-least env (some raw) default minimum maximum n least h = ground (arith, h)

or_string-≢ : (a : Option String) (b : String) → b ≢ "" → or_string a b ≢ ""
unfolding or_string
or_string-≢ none b h = h
or_string-≢ (some a) b h = ground (arith, string_eq.equals_iff a "", h)

default_to-≢ : (a : Option String) (b : String) → b ≢ "" → a ≢ some "" → default_to a b ≢ ""
unfolding default_to
default_to-≢ none b h set = h
default_to-≢ (some a) b h set = λ e. set (ap some e)

post_init-accepts :
    (c : LeaderElectionConfig)
    → 5 ≤ c.lease_duration_seconds
    → c.renew_deadline_seconds < c.lease_duration_seconds
    → 1 ≤ c.retry_period_seconds
    → c.retry_period_seconds * 12 < c.renew_deadline_seconds * 10
    → c.lock_name ≢ ""
    → c.lock_namespace ≢ ""
    → c.identity ≢ ""
    → post_init c ≡ ok c
unfolding post_init
post_init-accepts c long below positive above name namespace identity = ground (
  arith,
  string_eq.equals_iff c.lock_name "",
  string_eq.equals_iff c.lock_namespace "",
  string_eq.equals_iff c.identity "",
)

pub checked-inv :
    (env : Env) (enabled : Bool) (lease_duration renew_deadline retry_period : ℕ)
    (settings : LeaderElectionSettings)
    → checked env enabled lease_duration renew_deadline retry_period ≡ ok settings
    → (renew_deadline < lease_duration)
      × (retry_period * 12 < renew_deadline * 10)
      × (settings_of env enabled lease_duration renew_deadline retry_period ≡ settings)
unfolding checked
checked-inv env enabled lease_duration renew_deadline retry_period settings h = ground (arith, h)

-- The settings that load are accepted as the configuration of an election, provided that the host
-- has a name and that the lock's name is not set to the empty string.
pub load_leader_election_settings-post_init :
    (env : Env) (settings : LeaderElectionSettings)
    → env.gethostname ≢ ""
    → env.getenv "LEADER_ELECTION_LOCK_NAME" ≢ some ""
    → load_leader_election_settings env ≡ ok settings
    → post_init (leader_election_config settings) ≡ ok (leader_election_config settings)
unfolding load_leader_election_settings get_int leader_election_config settings_of
load_leader_election_settings-post_init env settings host set h =
    let (enabled, e, h₁) = bind-ok (get_bool env "LEADER_ELECTION_ENABLED" false) _ settings h in
    let (lease, is_lease, h₂) =
      bind-ok (get_int env "LEADER_ELECTION_LEASE_DURATION_SECONDS" 15 5 120) _ settings h₁ in
    let (renew, is_renew, h₃) =
      bind-ok (get_int env "LEADER_ELECTION_RENEW_DEADLINE_SECONDS" 10 2 119) _ settings h₂ in
    let (retry, is_retry, h₄) =
      bind-ok (get_int env "LEADER_ELECTION_RETRY_PERIOD_SECONDS" 2 1 60) _ settings h₃ in
    let (below, above, same) = checked-inv env enabled lease renew retry settings h₄ in
    subst (λ s. post_init (leader_election_config s) ≡ ok (leader_election_config s)) same
      (post_init-accepts (leader_election_config (settings_of env enabled lease renew retry))
        (in_range-least env (env.getenv "LEADER_ELECTION_LEASE_DURATION_SECONDS") 15 5 120 lease
          (omega arith) is_lease)
        below
        (in_range-least env (env.getenv "LEADER_ELECTION_RETRY_PERIOD_SECONDS") 2 1 60 retry
          (omega arith) is_retry)
        above (default_to-≢ _ _ (differ_lem "vmss-metrics-exporter" "" refl) set)
        (or_string-≢ (env.getenv "LEADER_ELECTION_NAMESPACE") _
          (or_string-≢ (env.getenv "POD_NAMESPACE") _ (differ_lem "default" "" refl)))
        (or_string-≢ (env.getenv "LEADER_ELECTION_IDENTITY") _
          (or_string-≢ (env.getenv "POD_NAME") _ host)))
