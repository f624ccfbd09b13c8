-- ===== src/LeaderElection/Frame.antt =====
-- What the calls of leader_election.py leave alone in the election's own state.
use azure_lustre_vmss_metric.Prelude.{ℕ, ◌<◌, ◌≡◌, arith}
use azure_lustre_vmss_metric.LeaderElection.Config.{LeaderElectionConfig}
use azure_lustre_vmss_metric.LeaderElection.Monad.{Api, Election, seconds}
use azure_lustre_vmss_metric.LeaderElection.Calls.{refresh_coordination_api, read_lease}

pub seconds-pos : (n : ℕ) → 0 < n → 0 < seconds n
unfolding seconds
seconds-pos n h = omega arith

-- Two states that differ in the environment and the client only.
pub record SameSelf {W C : Type 0} (s t : Election W C) : Type 0 where
  pub key : t.observed_key ≡ s.observed_key
  pub time : t.observed_time_monotonic ≡ s.observed_time_monotonic
  pub leader : t.is_leader ≡ s.is_leader
  pub stop : t.stop_event ≡ s.stop_event

module _ {W C : Type 0} (api : Api W C) (config : LeaderElectionConfig) where
  pub refresh-SameSelf : (s : Election W C) → SameSelf s (refresh_coordination_api api config s).1
  unfolding refresh_coordination_api
  refresh-SameSelf s = ground arith

  pub read_lease-SameSelf : (s : Election W C) → SameSelf s (read_lease api config s).1
  unfolding read_lease
  read_lease-SameSelf s = ground arith
