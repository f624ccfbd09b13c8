-- ===== src/LeaderElection/Backoff.antt =====
-- The supervisor waits between one second and a minute between elections, and ends with the stop
-- event.
use azure_lustre_vmss_metric.Prelude.{
  ℕ, zero, suc, ◌≤◌, ◌<◌, ◌≡◌, ◌⊎◌, refl, Bool, true, false, if◌then◌else◌, arith,
}
use azure_lustre_vmss_metric.LeaderElection.Config.{LeaderElectionConfig}
use azure_lustre_vmss_metric.LeaderElection.Supervisor.{
  Ended, Runner, RunResult, stopped, safe, iterate, run_forever, next_backoff, backoff_after,
  loaded, load,
}

-- The environment of a supervisor: `Good` holds between its calls, and `waits` bounds the waits
-- until another thread sets the stop event. Only waits of one to sixty seconds are promised to
-- keep either.
pub record Environment {W : Type 0} (runner : Runner W) (Good : W → Type 0) (waits : W → ℕ)
    : Type 0 where
  pub loads :
      (w : W)
      → Good w
      → let w' = (load runner.kube_config_loader w).1 in Good w' × (waits w' ≤ waits w)
  pub look : (w : W) → Good w → Good (runner.stop_now w).1 × (waits (runner.stop_now w).1 ≤ waits w)
  pub elect :
      (w : W)
      → Good w
      → let w' =
          (runner.run_election
            (safe runner.on_started_leading)
            (safe runner.on_stopped_leading)
            w).1 in
        Good w' × (waits w' ≤ waits w)
  pub wait :
      (seconds : ℕ) (w : W)
      → 1 ≤ seconds
      → seconds ≤ 60
      → Good w
      → Good (runner.stop_within seconds w).1
        × (((runner.stop_within seconds w).0 ≡ true)
            ⊎ (waits (runner.stop_within seconds w).1 < waits w))

-- The run has ended by the stop event, in a world with `Good`.
abbrev pub StoppedIn : {W : Type 0} → (W → Type 0) → RunResult W → Type 0
StoppedIn Good (stopped w) = Good w
StoppedIn Good RunResult.out_of_fuel = ⊥

StoppedIn-if :
    {W : Type 0} (Good : W → Type 0) (b : Bool) (x y : RunResult W)
    → StoppedIn Good x
    → (b ≡ false → StoppedIn Good y)
    → StoppedIn Good (if b then x else y)
StoppedIn-if Good true x y h k = h
StoppedIn-if Good false x y h k = k refl

module _ {W : Type 0} (runner : Runner W) (config : LeaderElectionConfig) {Good : W → Type 0}
    {waits : W → ℕ} (env : Environment runner Good waits) where
  backoff_in_range :
      (ended : Ended) (backoff : ℕ)
      → 1 ≤ config.retry_period_seconds
      → config.retry_period_seconds ≤ 60
      → 1 ≤ backoff
      → backoff ≤ 60
      → (1 ≤ backoff_after runner config ended backoff)
        × (backoff_after runner config ended backoff ≤ 60)
        × (1 ≤ next_backoff runner config (backoff_after runner config ended backoff))
        × (next_backoff runner config (backoff_after runner config ended backoff) ≤ 60)
  unfolding backoff_after next_backoff
  backoff_in_range ended backoff least most h k = ground arith

  iterate-StoppedIn :
      (fuel backoff : ℕ) (w : W)
      → 1 ≤ config.retry_period_seconds
      → config.retry_period_seconds ≤ 60
      → 1 ≤ backoff
      → backoff ≤ 60
      → waits w < fuel
      → Good w
      → StoppedIn Good (iterate runner config fuel backoff w)
  unfolding iterate
  iterate-StoppedIn zero backoff w least most h k enough good = absurd (omega arith)
  iterate-StoppedIn (suc fuel) backoff w least most h k enough good =
      let (is_set, w₁) = runner.stop_now w in
      let (ended, w₂) =
        runner.run_election (safe runner.on_started_leading) (safe runner.on_stopped_leading) w₁ in
      let backoff' = backoff_after runner config ended backoff in
      let (woken, w₃) = runner.stop_within backoff' w₂ in
      let looked = env.look w good in
      let elected = env.elect w₁ looked.0 in
      let range = backoff_in_range ended backoff least most h k in
      let waited = env.wait backoff' w₂ range.0 range.1 elected.0 in
      StoppedIn-if Good is_set _ _ looked.0 λ _. StoppedIn-if Good woken _ _ waited.0 λ on.
        iterate-StoppedIn fuel (next_backoff runner config backoff') w₃ least most range.2 range.3
          (ground (arith, waited.1, on)) waited.0

  loaded-StoppedIn :
      (fuel : ℕ) (r : Ended × W)
      → 1 ≤ config.retry_period_seconds
      → config.retry_period_seconds ≤ 60
      → waits r.1 < fuel
      → Good r.1
      → StoppedIn Good (loaded runner config fuel r)
  unfolding loaded
  loaded-StoppedIn fuel (Ended.returned, w) least most enough good =
      iterate-StoppedIn fuel config.retry_period_seconds w least most least most enough good
  loaded-StoppedIn fuel (Ended.raised, w) least most enough good = good

  run_forever-StoppedIn :
      (fuel : ℕ) (w : W)
      → 1 ≤ config.retry_period_seconds
      → config.retry_period_seconds ≤ 60
      → waits w < fuel
      → Good w
      → StoppedIn Good (run_forever runner config fuel w)
  unfolding run_forever
  run_forever-StoppedIn fuel w least most enough good =
      let (kept, sooner) = env.loads w good in
      loaded-StoppedIn fuel (load runner.kube_config_loader w) least most (omega (arith, sooner))
        kept

  StoppedIn-stopped : (r : RunResult W) → StoppedIn Good r → (w : W) × (r ≡ stopped w) × Good w
  StoppedIn-stopped (stopped w) good = (w, refl, good)
  StoppedIn-stopped RunResult.out_of_fuel good = absurd good

  -- With a retry period of one to sixty seconds, the supervisor never waits less than a second
  -- or more than a minute, whatever the elections raise, and with the stop event set after at
  -- most `waits` waits it ends, in a world with what its environment keeps. With a loader of the
  -- Kubernetes configuration the same holds, also where the loader raises.
  pub run_forever_lem :
      (fuel : ℕ) (w : W)
      → 1 ≤ config.retry_period_seconds
      → config.retry_period_seconds ≤ 60
      → waits w < fuel
      → Good w
      → (w' : W) × (run_forever runner config fuel w ≡ stopped w') × Good w'
  run_forever_lem fuel w least most enough good =
      StoppedIn-stopped (run_forever runner config fuel w)
        (run_forever-StoppedIn fuel w least most enough good)
