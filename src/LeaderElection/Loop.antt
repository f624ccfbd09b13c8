-- ===== src/LeaderElection/Loop.antt =====
-- The election loop of `_LeaseElection`: becoming and ceasing to be the leader, renewing, running
-- and releasing. Each loop takes fuel; `out_of_fuel` is then its outcome.
use azure_lustre_vmss_metric.Prelude.{
  ℕ, zero, suc, ◌+◌, ◌*◌, Bool, true, false, ◌||◌, some, ◌==◌, string_eq, option_eq, not, min, leb,
  if◌then◌else◌,
}
use azure_lustre_vmss_metric.LeaderElection.Config.{LeaderElectionConfig}
use azure_lustre_vmss_metric.LeaderElection.Lease.{Lease, holder_identity, lease_transitions}
use azure_lustre_vmss_metric.LeaderElection.Monad.{
  Api, returned, out_of_fuel, M, seconds, pure, gets, ask, call, modify, finally, ◌>>=◌, ◌>>◌,
}
use azure_lustre_vmss_metric.LeaderElection.Calls.{read_lease, replace_lease}
use azure_lustre_vmss_metric.LeaderElection.Acquire.{
  RenewResult, renewed, transient, lost, try_acquire_once, renew_once, after_read,
}

module _ {W C : Type 0} (api : Api W C) (config : LeaderElectionConfig) where
  -- The event stays set once it was seen set.
  abbrev see_stop : (W → Bool × W) → M W C Bool
  see_stop look = do
    arrived ← ask look
    modify (λ s. record s { stop_event = s.stop_event || arrived })
    gets (λ s. s.stop_event)

  -- `self._stop_event.is_set()`
  unfoldable pub stop_is_set : M W C Bool
  stop_is_set = see_stop api.stop_now

  -- `self._stop_event.wait(timeout)`
  unfoldable pub stop_wait : ℕ → M W C Bool
  stop_wait ticks = see_stop (api.stop_within ticks)

  -- `if self._stop_event.wait(retry_period_seconds): return`, and what follows it
  unfoldable pub wait_then : M W C (Unit {0}) → M W C (Unit {0})
  unfolding stop_wait
  wait_then again = do
    waited ← stop_wait (seconds config.retry_period_seconds)
    if waited then pure tt else again

  unfoldable pub become_leader : M W C (Unit {0})
  become_leader s =
      if s.is_leader
      then (returned tt, s)
      else call api.on_started_leading (record s { is_leader = true })

  -- `notify` is the keyword argument of `_stop_leading`.
  unfoldable pub stop_leading : Bool → M W C (Unit {0})
  stop_leading notify s =
      if s.is_leader
      then (if notify
          then call api.on_stopped_leading (record s { is_leader = false })
          else (returned tt, record s { is_leader = false }))
      else (returned tt, s)

  -- One round of `_renew_loop`; `again` is the rest of the loop after the wait.
  unfoldable pub renew_round : (ℕ → M W C (Unit {0})) → ℕ → RenewResult → M W C (Unit {0})
  unfolding stop_leading
  renew_round again deadline renewed = do
    now ← ask api.monotonic
    again (now + seconds config.renew_deadline_seconds)
  renew_round again deadline lost = stop_leading true
  renew_round again deadline transient = do
    now ← ask api.monotonic
    if leb deadline now then stop_leading true else again deadline

  -- The body of the `while` of `_renew_loop`; `again` goes on with a deadline.
  unfoldable pub renew_step : (ℕ → M W C (Unit {0})) → ℕ → M W C (Unit {0})
  unfolding stop_is_set wait_then renew_round
  renew_step again deadline = do
    stopped ← stop_is_set
    if stopped then pure tt else (do
      result ← renew_once api config
      renew_round (λ deadline'. wait_then (again deadline')) deadline result)

  unfoldable pub renew_loop_from : ℕ → ℕ → M W C (Unit {0})
  unfolding renew_step
  renew_loop_from zero deadline s = (out_of_fuel, s)
  renew_loop_from (suc fuel) deadline s = renew_step (renew_loop_from fuel) deadline s

  unfoldable pub renew_loop : ℕ → M W C (Unit {0})
  unfolding renew_loop_from
  renew_loop fuel = do
    now ← ask api.monotonic
    renew_loop_from fuel (now + seconds config.renew_deadline_seconds)

  -- The loop of `_release_lease_best_effort`. The sleep is min(0.1, retry / 10) seconds.
  -- The body of the `while True` of `_release_lease_best_effort`; the sleep is of
  -- min(0.1, retry / 10) seconds.
  unfoldable pub release_held : M W C (Unit {0}) → ℕ → Lease → M W C (Unit {0})
  release_held again deadline lease = do
    now ← ask api.utcnow
    done ← replace_lease api config lease "" (some now) now (lease_transitions lease) (some 1)
    if done then pure tt else (do
      later ← ask api.monotonic
      if leb deadline later then pure tt else (do
        modify λ t. record t {
          world = api.sleep (min 100000000 (config.retry_period_seconds * 100000000)) t.world;
        }
        again))

  unfoldable pub release_read : M W C (Unit {0}) → ℕ → Lease → M W C (Unit {0})
  unfolding holder_identity release_held
  release_read again deadline lease =
      if not (holder_identity lease == some config.identity)
      then pure tt
      else release_held again deadline lease

  unfoldable pub release_from : ℕ → ℕ → M W C (Unit {0})
  unfolding release_read
  release_from zero deadline s = (out_of_fuel, s)
  release_from (suc fuel) deadline s =
      let rest = release_from fuel deadline in
      let (read, s') = read_lease api config s in
      after_read read (λ lease. release_read rest deadline lease s') (λ _. (returned tt, s'))
        (out_of_fuel, s')

  unfoldable pub release_lease_best_effort : ℕ → M W C (Unit {0})
  unfolding release_from
  release_lease_best_effort fuel = do
    now ← ask api.monotonic
    release_from fuel (now + seconds config.renew_deadline_seconds)

  -- `release` of `_LeaseElection`
  unfoldable pub release : ℕ → Bool → M W C (Unit {0})
  unfolding release_lease_best_effort stop_leading
  release fuel notify_stopped = do
    modify (λ s. record s { stop_event = true })
    leading ← gets (λ s. s.is_leader)
    if leading then release_lease_best_effort fuel else pure tt
    stop_leading notify_stopped

  -- The body of the `while` of `run`; `fuel` is for the renewals, `again` goes on.
  unfoldable pub run_step : ℕ → M W C (Unit {0}) → M W C (Unit {0})
  unfolding stop_is_set wait_then become_leader renew_loop
  run_step fuel again = do
    stopped ← stop_is_set
    if stopped then pure tt else (do
      acquired ← try_acquire_once api config
      if acquired then become_leader >> renew_loop fuel else pure tt
      wait_then again)

  unfoldable pub run_from : ℕ → M W C (Unit {0})
  unfolding run_step
  run_from zero s = (out_of_fuel, s)
  run_from (suc fuel) s = run_step fuel (run_from fuel) s

  -- the `finally` clause of `run`
  unfoldable pub run_end : ℕ → M W C (Unit {0})
  unfolding stop_is_set release stop_leading
  run_end fuel = stop_is_set >>= λ stopped. if stopped then release fuel true else stop_leading true

  unfoldable pub run : ℕ → M W C (Unit {0})
  unfolding run_from run_end
  run fuel = finally (run_from fuel) (run_end fuel)
