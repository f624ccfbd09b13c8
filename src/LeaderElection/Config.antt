-- ===== src/LeaderElection/Config.antt =====
-- `LeaderElectionConfig` and `_api_request_timeout` of leader_election.py.
--
-- The three numbers are Python ints; a negative one fails the same test of `__post_init__` as 0
-- does, so ℕ is enough. `retry_period_seconds * 1.2` is compared in tenths: for the products that
-- are whole numbers the float product is exact, and an int cannot lie between another product and
-- its rounding.
use azure_lustre_vmss_metric.Prelude.{
  ℕ, ◌*◌, max, String, ◌||◌, ◌==◌, string_eq, leb, ltb, if◌then◌else◌,
}
use azure_lustre_vmss_metric.Prelude.Result.{Result, ok, err}

pub record LeaderElectionConfig : Type 0 where
  pub lock_name : String
  pub lock_namespace : String
  pub identity : String
  pub lease_duration_seconds : ℕ
  pub renew_deadline_seconds : ℕ
  pub retry_period_seconds : ℕ

-- The `ValueError`s of `__post_init__`, in its order.
pub data ConfigError : Type 0 where
  lease_duration_too_short renew_not_below_lease retry_too_short renew_not_above_retry
        name_missing :
      ConfigError

unfoldable pub post_init : LeaderElectionConfig → Result ConfigError LeaderElectionConfig
post_init c =
    if ltb c.lease_duration_seconds 5
    then err lease_duration_too_short
    else if leb c.lease_duration_seconds c.renew_deadline_seconds
    then err renew_not_below_lease
    else if ltb c.retry_period_seconds 1
    then err retry_too_short
    else if leb (c.renew_deadline_seconds * 10) (c.retry_period_seconds * 12)
    then err renew_not_above_retry
    else if c.lock_name == "" || c.lock_namespace == "" || c.identity == ""
    then err name_missing
    else ok c

-- The connect and the read timeout of one API call, in half seconds.
unfoldable pub api_request_timeout : ℕ → ℕ × ℕ
api_request_timeout renew_deadline_seconds =
    let timeout = max 2 renew_deadline_seconds in (timeout, timeout)
