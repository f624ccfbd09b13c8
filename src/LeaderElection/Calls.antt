-- ===== src/LeaderElection/Calls.antt =====
-- The calls of the Kubernetes API: a 401 reloads the client and tries once more.
use azure_lustre_vmss_metric.Prelude.{
  ℕ, String, Bool, true, false, Option, none, some, ◌==◌, nat_eq, option_eq, if◌then◌else◌,
}
use azure_lustre_vmss_metric.Prelude.Result.{Result}
use azure_lustre_vmss_metric.LeaderElection.Config.{LeaderElectionConfig, api_request_timeout}
use azure_lustre_vmss_metric.LeaderElection.Lease.{
  Lease, LeaseBody, key_eq, lease_key, lease_body, resource_version,
}
use azure_lustre_vmss_metric.LeaderElection.Monad.{
  Api, ApiError, api_status, Election, M, Timeout, pure, raise, gets, ask, call, catch, modify,
  ◌>>=◌, ◌>>◌,
}

module _ {W C : Type 0} (api : Api W C) (config : LeaderElectionConfig) where
  abbrev pub timeout : Timeout
  unfolding api_request_timeout
  timeout = api_request_timeout config.renew_deadline_seconds

  -- `_observe_lease`
  unfoldable pub observe_lease : Option Lease → ℕ → Election W C → Election W C
  unfolding lease_key
  observe_lease none now s = s
  observe_lease (some lease) now s =
      if s.observed_key == some (lease_key config lease)
      then s
      else record s { observed_key = some (lease_key config lease); observed_time_monotonic = now }

  abbrev pub reload : Option (W → Result ApiError C × W) → M W C Bool
  reload none = pure false
  reload (some factory) =
      catch (call factory >>= λ fresh. modify (λ s. record s { client = fresh }) >> pure true)
        (λ _. pure false)

  -- `_refresh_coordination_api`
  unfoldable pub refresh_coordination_api : M W C Bool
  refresh_coordination_api = reload api.coordination_api_factory

  -- the test of the three `except` blocks
  unfoldable pub refreshed : ApiError → M W C Bool
  unfolding api_status refresh_coordination_api
  refreshed exc = if api_status exc == some 401 then refresh_coordination_api else pure false

  unfoldable pub read_once : M W C Lease
  read_once = do
    client ← gets (λ s. s.client)
    call (api.read_namespaced_lease client config.lock_name config.lock_namespace timeout)

  unfoldable pub read_lease : M W C Lease
  unfolding read_once refreshed timeout
  read_lease =
      catch read_once λ exc. refreshed exc >>= λ again. if again then read_once else raise exc

  unfoldable pub create_once : LeaseBody → M W C (Unit {0})
  unfolding observe_lease
  create_once body = do
    client ← gets (λ s. s.client)
    created ← call (api.create_namespaced_lease client config.lock_namespace body timeout)
    now ← ask api.monotonic
    modify (observe_lease created now)

  unfoldable pub replace_once : LeaseBody → M W C (Unit {0})
  unfolding observe_lease
  replace_once body = do
    client ← gets (λ s. s.client)
    updated ←
        call
          (api.replace_namespaced_lease client config.lock_name config.lock_namespace body timeout)
    now ← ask api.monotonic
    modify (observe_lease updated now)

  -- `try: write; return True except ...: return False`, with the one retry after a 401
  unfoldable pub written : M W C (Unit {0}) → M W C Bool
  unfolding refreshed
  written write = catch (write >> pure true) λ exc. refreshed exc >>= λ again.
      if again then catch (write >> pure true) (λ _. pure false) else pure false

  unfoldable pub create_lease : ℕ → M W C Bool
  unfolding create_once written timeout lease_body
  create_lease now =
      written (create_once (lease_body config config.identity (some now) now 0 none none))

  unfoldable pub replace_lease : Lease → String → Option ℕ → ℕ → ℕ → Option ℕ → M W C Bool
  unfolding replace_once written timeout lease_body resource_version
  replace_lease lease holder acquired renewed transitions duration = written (
      replace_once
        (lease_body config holder acquired renewed transitions duration (resource_version lease)))
