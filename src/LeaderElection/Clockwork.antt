-- ===== src/LeaderElection/Clockwork.antt =====
-- What the environment of an election does with time: the clock never goes back, a sleep takes its
-- time, and every wait on the stop event either sees it set or brings it nearer.
use azure_lustre_vmss_metric.Prelude.{
  ℕ, ◌+◌, ◌≤◌, ◌<◌, String, ◌≡◌, ◌⊎◌, Bool, true, Option, none, some, arith, if◌then◌else◌, ◌==◌,
  string_eq, option_eq, refl,
}
use azure_lustre_vmss_metric.Prelude.Result.{Result}
use azure_lustre_vmss_metric.LeaderElection.Config.{LeaderElectionConfig}
use azure_lustre_vmss_metric.LeaderElection.Lease.{
  Lease, LeaseBody, holder_identity, acquire_time, lease_transitions, lease_body, resource_version,
}
use azure_lustre_vmss_metric.LeaderElection.Monad.{
  Api, ApiError, Election, Outcome, returned, raised, out_of_fuel, M, Timeout,
}
use azure_lustre_vmss_metric.LeaderElection.Calls.{
  observe_lease, reload, refresh_coordination_api, read_once, read_lease, create_once, replace_once,
  written, create_lease, replace_lease, timeout,
}
use azure_lustre_vmss_metric.LeaderElection.Acquire.{
  acquire_read, acquire_unread, try_acquire_once, renew_read, renew_unread, renew_once, after_read,
  or_else,
}
use azure_lustre_vmss_metric.LeaderElection.Loop.{stop_is_set, become_leader, stop_leading}

-- `waits`: how often the election may still wait before the stop event is set. `time`: the
-- monotonic clock.
abbrev pub Later : {W : Type 0} → (W → ℕ) → (W → ℕ) → W → W → Type 0
Later waits time w w' = (waits w' ≤ waits w) × (time w ≤ time w')

pub record Clockwork {W C : Type 0} (api : Api W C) (waits time : W → ℕ) : Type 0 where
  pub read :
      (c : C) (n k : String) (t : Timeout) (w : W)
      → Later waits time w (api.read_namespaced_lease c n k t w).1
  pub create :
      (c : C) (k : String) (b : LeaseBody) (t : Timeout) (w : W)
      → Later waits time w (api.create_namespaced_lease c k b t w).1
  pub replace :
      (c : C) (n k : String) (b : LeaseBody) (t : Timeout) (w : W)
      → Later waits time w (api.replace_namespaced_lease c n k b t w).1
  pub factory :
      (f : W → Result ApiError C × W) (w : W)
      → api.coordination_api_factory ≡ some f
      → Later waits time w (f w).1
  pub utcnow : (w : W) → Later waits time w (api.utcnow w).1
  pub monotonic : (w : W) → Later waits time w (api.monotonic w).1
  pub monotonic_reads : (w : W) → (api.monotonic w).0 ≡ time w
  pub sleep : (t : ℕ) (w : W) → Later waits time w (api.sleep t w)
  pub sleeps : (t : ℕ) (w : W) → time w + t ≤ time (api.sleep t w)
  pub stop_now : (w : W) → Later waits time w (api.stop_now w).1
  pub stop_within : (t : ℕ) (w : W) → Later waits time w (api.stop_within t w).1
  pub stop_nears :
      (t : ℕ) (w : W) → ((api.stop_within t w).0 ≡ true) ⊎ (waits (api.stop_within t w).1 < waits w)
  pub started : (w : W) → Later waits time w (api.on_started_leading w).1
  pub stopped : (w : W) → Later waits time w (api.on_stopped_leading w).1

module _ {W C : Type 0} (api : Api W C) (config : LeaderElectionConfig) {waits time : W → ℕ}
    (clock : Clockwork api waits time) where
  abbrev On : Election W C → Election W C → Type 0
  On s t = Later waits time s.world t.world

  go_refresh :
      (factory : Option (W → Result ApiError C × W)) (s : Election W C)
      → api.coordination_api_factory ≡ factory
      → On s (reload api config factory s).1
  go_refresh none s e = omega arith
  go_refresh (some f) s e = ground (arith, clock.factory f s.world e)

  On-refresh : (s : Election W C) → On s (refresh_coordination_api api config s).1
  unfolding refresh_coordination_api
  On-refresh s = go_refresh api.coordination_api_factory s refl

  On-read_once : (s : Election W C) → On s (read_once api config s).1
  unfolding read_once
  On-read_once s = clock.read _ _ _ _ s.world

  pub On-read : (s : Election W C) → On s (read_lease api config s).1
  unfolding read_lease
  On-read s =
      let s₁ = (read_once api config s).1 in
      let s₂ = (refresh_coordination_api api config s₁).1 in
      ground (arith, On-read_once s, On-refresh s₁, On-read_once s₂)

  On-create_once : (body : LeaseBody) (s : Election W C) → On s (create_once api config body s).1
  unfolding create_once observe_lease
  On-create_once body s =
      let w =
        (api.create_namespaced_lease s.client config.lock_namespace body (timeout api config)
          s.world).1 in
      ground (
        arith,
        clock.create s.client config.lock_namespace body (timeout api config) s.world,
        clock.monotonic w,
      )

  On-replace_once : (body : LeaseBody) (s : Election W C) → On s (replace_once api config body s).1
  unfolding replace_once observe_lease
  On-replace_once body s =
      let w =
        (api.replace_namespaced_lease s.client config.lock_name config.lock_namespace body
          (timeout api config) s.world).1 in
      ground (
        arith,
        clock.replace s.client config.lock_name config.lock_namespace body (timeout api config)
            s.world,
        clock.monotonic w,
      )

  On-written :
      (write : M W C (Unit {0})) (s : Election W C)
      → ((t : Election W C) → On t (write t).1)
      → On s (written api config write s).1
  unfolding written
  On-written write s h =
      let s₁ = (write s).1 in
      let s₂ = (refresh_coordination_api api config s₁).1 in
      ground (arith, h s, On-refresh s₁, h s₂)

  On-create : (now : ℕ) (s : Election W C) → On s (create_lease api config now s).1
  unfolding create_lease
  On-create now s =
      let body = lease_body config config.identity (some now) now 0 none none in
      On-written (create_once api config body) s (On-create_once body)

  pub On-replace :
      (lease : Lease) (holder : String) (acquired : Option ℕ) (renewed transitions : ℕ)
      (duration : Option ℕ) (s : Election W C)
      → On s (replace_lease api config lease holder acquired renewed transitions duration s).1
  unfolding replace_lease
  On-replace lease holder acquired renewed transitions duration s =
      let body =
        lease_body config holder acquired renewed transitions duration (resource_version lease) in
      On-written (replace_once api config body) s (On-replace_once body)

  on_observe :
      (lease : Lease) (now : ℕ) (s : Election W C)
      → (observe_lease api config (some lease) now s).world ≡ s.world
  unfolding observe_lease
  on_observe lease now s = ground arith

  On-acquire_read :
      (now mono : ℕ) (lease : Lease) (s : Election W C)
      → On s (acquire_read api config now mono lease s).1
  unfolding acquire_read
  On-acquire_read now mono lease s =
      let t = observe_lease api config (some lease) mono s in
      ground (
        arith,
        on_observe lease mono s,
        On-replace lease config.identity
            (if holder_identity lease == some config.identity then acquire_time lease else some now)
            now
            (lease_transitions lease
              + (if holder_identity lease == some config.identity then 0 else 1))
            none t,
      )

  On-acquire_unread :
      (now : ℕ) (exc : ApiError) (s : Election W C) → On s (acquire_unread api config now exc s).1
  unfolding acquire_unread
  On-acquire_unread now exc s = ground (arith, On-create now s)

  On-after_read :
      {A : Type 0} (s t : Election W C) (r : Outcome Lease) (f : Lease → M W C A)
      (g : ApiError → M W C A)
      → On s t
      → ((a : Lease) → On t (f a t).1)
      → ((e : ApiError) → On t (g e t).1)
      → On s (after_read r (λ a. f a t) (λ e. g e t) (out_of_fuel, t)).1
  On-after_read s t (returned a) f g h kf kg = omega (arith, kf a)
  On-after_read s t (raised e) f g h kf kg = omega (arith, kg e)
  On-after_read s t out_of_fuel f g h kf kg = h

  abbrev reading : Election W C → Election W C
  reading s = record s { world = (api.monotonic (api.utcnow s.world).1).1 }

  On-reading : (s : Election W C) → On s (read_lease api config (reading s)).1
  On-reading s =
      let w = (api.utcnow s.world).1 in
      omega (arith, clock.utcnow s.world, clock.monotonic w, On-read (reading s))

  pub On-try_acquire : (s : Election W C) → On s (try_acquire_once api config s).1
  unfolding try_acquire_once
  On-try_acquire s =
      let now = (api.utcnow s.world).0 in
      let mono = (api.monotonic (api.utcnow s.world).1).0 in
      On-after_read s _ (read_lease api config (reading s)).0 (acquire_read api config now mono)
        (acquire_unread api config now) (On-reading s) (λ a. On-acquire_read now mono a _)
        (λ e. On-acquire_unread now e _)

  On-renew_read :
      (now mono : ℕ) (lease : Lease) (s : Election W C)
      → On s (renew_read api config now mono lease s).1
  unfolding renew_read
  On-renew_read now mono lease s =
      let t = observe_lease api config (some lease) mono s in
      ground (
        arith,
        on_observe lease mono s,
        On-replace lease config.identity (or_else (acquire_time lease) now) now
            (lease_transitions lease) none t,
      )

  On-renew_unread : (exc : ApiError) (s : Election W C) → On s (renew_unread api config exc s).1
  unfolding renew_unread
  On-renew_unread exc s = ground arith

  pub On-renew_once : (s : Election W C) → On s (renew_once api config s).1
  unfolding renew_once
  On-renew_once s =
      let now = (api.utcnow s.world).0 in
      let mono = (api.monotonic (api.utcnow s.world).1).0 in
      On-after_read s _ (read_lease api config (reading s)).0 (renew_read api config now mono)
        (renew_unread api config) (On-reading s) (λ a. On-renew_read now mono a _)
        (λ e. On-renew_unread e _)

  pub On-become : (s : Election W C) → On s (become_leader api config s).1
  unfolding become_leader
  On-become s = ground (arith, clock.started s.world)

  pub On-stop_leading :
      (notify : Bool) (s : Election W C) → On s (stop_leading api config notify s).1
  unfolding stop_leading
  On-stop_leading notify s = ground (arith, clock.stopped s.world)

  pub On-stop_is_set : (s : Election W C) → On s (stop_is_set api config s).1
  unfolding stop_is_set
  On-stop_is_set s = clock.stop_now s.world
