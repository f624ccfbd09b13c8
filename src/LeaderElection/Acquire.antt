-- ===== src/LeaderElection/Acquire.antt =====
-- One attempt to acquire the Lease, and one to renew it.
use azure_lustre_vmss_metric.Prelude.{
  ℕ, ◌+◌, String, Bool, false, ◌&&◌, Option, none, some, ◌==◌, nat_eq, string_eq, option_eq, not,
  ltb, if◌then◌else◌,
}
use azure_lustre_vmss_metric.LeaderElection.Config.{LeaderElectionConfig}
use azure_lustre_vmss_metric.LeaderElection.Lease.{
  Lease, holder_identity, acquire_time, lease_duration_seconds, lease_transitions,
}
use azure_lustre_vmss_metric.LeaderElection.Monad.{
  Api, ApiError, api_status, Election, Outcome, returned, raised, out_of_fuel, M, seconds, pure,
  raise, gets, ask, modify, ◌>>=◌, ◌>>◌,
}
use azure_lustre_vmss_metric.LeaderElection.Calls.{
  observe_lease, read_lease, create_lease, replace_lease,
}

-- `_RENEWED`, `_TRANSIENT`, `_LOST`
pub data RenewResult : Type 0 where
  renewed transient lost : RenewResult

-- `holder not in (None, "")`
unfoldable pub held : Option String → Bool
held none = false
held (some holder) = not (holder == "")

abbrev pub or_else {ℓ} : {A : Type ℓ} → Option A → A → Option A
or_else none b = some b
or_else (some a) b = some a

-- The `try` covers the read only, so what the rest raises is not handled again.
abbrev pub after_read {ℓ} : {A : Type ℓ} → Outcome Lease → (Lease → A) → (ApiError → A) → A → A
after_read (returned lease) found failed stuck = found lease
after_read (raised exc) found failed stuck = failed exc
after_read out_of_fuel found failed stuck = stuck

module _ {W C : Type 0} (api : Api W C) (config : LeaderElectionConfig) where
  unfoldable pub observed_lease_valid : Lease → ℕ → Election W C → Bool
  observed_lease_valid lease now_monotonic s =
      ltb now_monotonic (s.observed_time_monotonic + seconds (lease_duration_seconds config lease))

  -- The lines below the read, on the state after `_observe_lease`.
  unfoldable pub acquire_read : ℕ → ℕ → Lease → M W C Bool
  unfolding observe_lease holder_identity held
  acquire_read now now_monotonic lease = do
    modify (observe_lease api config (some lease) now_monotonic)
    valid ← gets (observed_lease_valid lease now_monotonic)
    let is_self = holder_identity lease == some config.identity
    if held (holder_identity lease) && not is_self && valid
        then pure false
        else replace_lease api config lease config.identity
            (if is_self then acquire_time lease else some now) now
            (lease_transitions lease + (if is_self then 0 else 1)) none

  -- The handler of a failed read.
  unfoldable pub acquire_unread : ℕ → ApiError → M W C Bool
  unfolding api_status
  acquire_unread now exc =
      if api_status exc == some 401
      then raise exc
      else if not (api_status exc == some 404)
      then pure false
      else create_lease api config now

  unfoldable pub try_acquire_once : M W C Bool
  try_acquire_once = do
    now ← ask api.utcnow
    now_monotonic ← ask api.monotonic
    λ s.
        let (read, s') = read_lease api config s in
        after_read read (λ lease. acquire_read now now_monotonic lease s')
          (λ exc. acquire_unread now exc s') (out_of_fuel, s')

  unfoldable pub renew_read : ℕ → ℕ → Lease → M W C RenewResult
  unfolding observe_lease holder_identity held
  renew_read now now_monotonic lease = do
    modify (observe_lease api config (some lease) now_monotonic)
    if held (holder_identity lease) && not (holder_identity lease == some config.identity)
        then pure lost
        else (do
          done ←
              replace_lease api config lease config.identity (or_else (acquire_time lease) now) now
                (lease_transitions lease) none
          pure (if done then renewed else transient))

  unfoldable pub renew_unread : ApiError → M W C RenewResult
  unfolding api_status
  renew_unread exc = if api_status exc == some 401 then raise exc else pure transient

  unfoldable pub renew_once : M W C RenewResult
  renew_once = do
    now ← ask api.utcnow
    now_monotonic ← ask api.monotonic
    λ s.
        let (read, s') = read_lease api config s in
        after_read read (λ lease. renew_read now now_monotonic lease s')
          (λ exc. renew_unread exc s') (out_of_fuel, s')
