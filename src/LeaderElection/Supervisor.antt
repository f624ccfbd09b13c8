-- ===== src/LeaderElection/Supervisor.antt =====
-- `LeaderElectionRunner`: it runs one election after another until the stop event is set.
--
-- `Runner W` stands for what the supervisor is given: the loader of the Kubernetes configuration,
-- the factory and the run of an election, and the stop event. Waits are in seconds: the backoff
-- starts at a whole number and is doubled or set to 60, so no fraction arises.
use azure_lustre_vmss_metric.Prelude.{
  ℕ, zero, suc, ◌*◌, min, Bool, Option, none, some, if◌then◌else◌,
}
use azure_lustre_vmss_metric.LeaderElection.Config.{LeaderElectionConfig}

-- How a callback or an election ended, where only that matters.
pub data Ended : Type 0 where
  returned raised : Ended

-- `_safe`: an exception of the callback is logged and dropped.
unfoldable pub safe {ℓ} : {W : Type ℓ} → (W → Ended × W) → W → Ended × W
safe callback w = (returned, (callback w).1)

pub record Runner (W : Type 0) : Type 0 where
  pub kube_config_loader : Option (W → Ended × W)
  -- build an election with the two callbacks, run it, and forget it
  pub run_election : (W → Ended × W) → (W → Ended × W) → W → Ended × W
  pub on_started_leading : W → Ended × W
  pub on_stopped_leading : W → Ended × W
  pub stop_now : W → Bool × W
  pub stop_within : ℕ → W → Bool × W

pub data RunResult (W : Type 0) : Type 0 where
  stopped : W → RunResult W
  out_of_fuel : RunResult W

-- The loader of the Kubernetes configuration, where there is one.
unfoldable pub load {ℓ} : {W : Type ℓ} → Option (W → Ended × W) → W → Ended × W
load none w = (returned, w)
load (some loader) w = loader w

module _ {W : Type 0} (runner : Runner W) (config : LeaderElectionConfig) where
  -- the backoff after the `try`: a clean return resets it, an exception leaves it
  unfoldable pub backoff_after : Ended → ℕ → ℕ
  backoff_after returned backoff = config.retry_period_seconds
  backoff_after raised backoff = backoff

  unfoldable pub next_backoff : ℕ → ℕ
  next_backoff backoff = min (backoff * 2) 60

  unfoldable pub iterate : ℕ → ℕ → W → RunResult W
  unfolding backoff_after next_backoff safe
  iterate zero backoff w = out_of_fuel
  iterate (suc fuel) backoff w =
      let (is_set, w₁) = runner.stop_now w in
      let (ended, w₂) =
        runner.run_election (safe runner.on_started_leading) (safe runner.on_stopped_leading) w₁ in
      let backoff' = backoff_after ended backoff in
      let (woken, w₃) = runner.stop_within backoff' w₂ in
      let rest = iterate fuel (next_backoff backoff') w₃ in
      if is_set then stopped w₁ else if woken then stopped w₃ else rest

  unfoldable pub loaded : ℕ → Ended × W → RunResult W
  unfolding iterate
  loaded fuel (returned, w) = iterate fuel config.retry_period_seconds w
  loaded fuel (raised, w) = stopped w

  unfoldable pub run_forever : ℕ → W → RunResult W
  unfolding loaded load
  run_forever fuel w = loaded fuel (load runner.kube_config_loader w)
