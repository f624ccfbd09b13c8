-- ===== src/LeaderElection/Termination.antt =====
-- With fuel for the waits that are left and for the release, a run comes to its end, and the
-- candidate is then no leader.
use azure_lustre_vmss_metric.Prelude.{
  subst, ◌≢◌, ℕ, zero, suc, ◌+◌, ◌*◌, ◌≤◌, ◌<◌, ◌≡◌, refl, Bool, true, false, some, ◌||◌, arith,
  if◌then◌else◌, min, leb,
}
use azure_lustre_vmss_metric.LeaderElection.Config.{LeaderElectionConfig}
use azure_lustre_vmss_metric.LeaderElection.Lease.{Lease, lease_transitions}
use azure_lustre_vmss_metric.LeaderElection.Monad.{
  Api, Election, M, Outcome, returned, raised, out_of_fuel, seconds, continue,
}
use azure_lustre_vmss_metric.LeaderElection.Calls.{replace_lease, read_lease}
use azure_lustre_vmss_metric.LeaderElection.Acquire.{after_read}
use azure_lustre_vmss_metric.LeaderElection.Clockwork.{Clockwork, On-read, On-replace}
use azure_lustre_vmss_metric.LeaderElection.Ending.{
  Finished, Returned, replace_lease-Returned, read_lease-Finished,
}
use azure_lustre_vmss_metric.LeaderElection.Loop.{
  stop_leading, stop_is_set, release_held, release_read, release_from, release_lease_best_effort,
  release, run_from, run_end, run,
}
use azure_lustre_vmss_metric.LeaderElection.Progress.{run_from-Ends}

module _ {W C : Type 0} (api : Api W C) (config : LeaderElectionConfig) {waits time : W → ℕ}
    (clock : Clockwork api waits time) where
  -- What follows a write that failed: give up after the deadline, or sleep and try again.
  Returned-continue :
      {A B : Type 0} (t : Election W C) (r : Outcome A) (f : A → M W C B)
      → Returned r
      → ((a : A) → Returned (f a t).0)
      → Returned (continue r f t).0
  Returned-continue t (returned a) f done go = go a
  Returned-continue t (raised e) f done go = absurd done
  Returned-continue t out_of_fuel f done go = absurd done

  Returned-if :
      {A : Type 0} (b : Bool) (t : Election W C) (m n : M W C A)
      → Returned (m t).0
      → (b ≡ false → Returned (n t).0)
      → Returned ((if b then m else n) t).0
  Returned-if true t m n h k = h
  Returned-if false t m n h k = k refl

  -- The loop goes on only before the deadline, after a sleep of a tenth of a second.
  release_held-Returned :
      (again : M W C (Unit {0})) (deadline : ℕ) (lease : Lease) (s : Election W C)
      → 1 ≤ config.retry_period_seconds
      → ((u : Election W C)
          → time s.world < deadline
          → time s.world + 100000000 ≤ time u.world
          → Returned (again u).0)
      → Returned (release_held api config again deadline lease s).0
  unfolding release_held
  release_held-Returned again deadline lease s period go =
      let (now, w) = api.utcnow s.world in
      let t = record s { world = w } in
      let write =
        replace_lease api config lease "" (some now) now (lease_transitions lease) (some 1) t in
      let later =
        On-replace api config clock lease "" (some now) now (lease_transitions lease) (some 1) t in
      let start = clock.utcnow s.world in
      Returned-continue write.1 write.0 _
        (replace_lease-Returned api config lease "" (some now) now (lease_transitions lease)
          (some 1) t)
        λ done.
          let w' = (api.monotonic write.1.world).1 in
          let read = clock.monotonic_reads write.1.world in
          let moved = clock.monotonic write.1.world in
          let nap = min 100000000 (config.retry_period_seconds * 100000000) in
          let slept = clock.sleeps nap w' in
          let u = record write.1 { world = api.sleep nap w' } in
          Returned-if done write.1 _ _ tt λ _.
            Returned-if (leb deadline (api.monotonic write.1.world).0)
              (record write.1 { world = w' }) _ _ tt λ early. go u (ground arith) (ground arith)

  release_read-Returned :
      (again : M W C (Unit {0})) (deadline : ℕ) (lease : Lease) (s : Election W C)
      → 1 ≤ config.retry_period_seconds
      → ((u : Election W C)
          → time s.world < deadline
          → time s.world + 100000000 ≤ time u.world
          → Returned (again u).0)
      → Returned (release_read api config again deadline lease s).0
  unfolding release_read
  release_read-Returned again deadline lease s period go =
      ground (arith, release_held-Returned again deadline lease s period go)

  after_read-Returned :
      (r : Outcome Lease) (t : Election W C) (f : Lease → M W C (Unit {0}))
      → Finished r
      → ((a : Lease) → Returned (f a t).0)
      → Returned (after_read r (λ a. f a t) (λ _. (returned tt, t)) (out_of_fuel, t)).0
  after_read-Returned (returned a) t f done go = go a
  after_read-Returned (raised e) t f done go = tt
  after_read-Returned out_of_fuel t f done go = done

  release_from-Returned :
      (fuel deadline : ℕ) (s : Election W C)
      → 1 ≤ config.retry_period_seconds
      → deadline ≤ time s.world + fuel * 100000000
      → Returned (release_from api config (suc fuel) deadline s).0
  unfolding release_from
  release_from-Returned zero deadline s period reach =
      let (read, t) = read_lease api config s in
      let later = On-read api config clock s in
      let rest : M W C (Unit {0}) = λ u. (out_of_fuel, u) in
      after_read-Returned read t (release_read api config rest deadline)
        (read_lease-Finished api config s)
        λ lease.
          release_read-Returned rest deadline lease t period λ u early slept. absurd (omega arith)
  release_from-Returned (suc fuel) deadline s period reach =
      let (read, t) = read_lease api config s in
      let later = On-read api config clock s in
      let rest = release_from api config (suc fuel) deadline in
      after_read-Returned read t (release_read api config rest deadline)
        (read_lease-Finished api config s)
        λ lease.
          release_read-Returned (release_from api config (suc fuel) deadline) deadline lease t
            period λ u early slept. release_from-Returned fuel deadline u period (omega arith)

  -- A tenth of a second of sleep in each round: ten rounds for a second of the deadline.
  release-Returned :
      (fuel : ℕ) (s : Election W C)
      → 1 ≤ config.retry_period_seconds
      → config.renew_deadline_seconds * 10 < fuel
      → Returned (release_lease_best_effort api config fuel s).0
  unfolding release_lease_best_effort seconds
  release-Returned zero s period enough = absurd (omega arith)
  release-Returned (suc fuel) s period enough =
      let w = (api.monotonic s.world).1 in
      let now = clock.monotonic_reads s.world in
      let later = clock.monotonic s.world in
      release_from-Returned fuel _ (record s { world = w }) period (omega arith)

  -- A finished method that leaves no leader.
  abbrev pub Retired : {A : Type 0} → Outcome A × Election W C → Type 0
  Retired (r, t) = Finished r × (t.is_leader ≡ false)

  stop_leading-Retired :
      (notify : Bool) (s : Election W C) → Retired (stop_leading api config notify s)
  unfolding stop_leading
  stop_leading-Retired notify s = ground arith

  Retired-continue :
      {A B : Type 0} (t : Election W C) (r : Outcome A) (f : A → M W C B)
      → Returned r
      → ((a : A) → Retired (f a t))
      → Retired (continue r f t)
  Retired-continue t (returned a) f done go = go a
  Retired-continue t (raised e) f done go = absurd done
  Retired-continue t out_of_fuel f done go = absurd done

  release-Retired :
      (fuel : ℕ) (notify : Bool) (s : Election W C)
      → 1 ≤ config.retry_period_seconds
      → config.renew_deadline_seconds * 10 < fuel
      → Retired (release api config fuel notify s)
  unfolding release
  release-Retired fuel notify s period enough =
      let t = record s { stop_event = true } in
      let done = release-Returned fuel t period enough in
      let (r, u) =
        (if s.is_leader then release_lease_best_effort api config fuel else (λ v. (returned tt, v)))
          t in
      Retired-continue u r (λ _. stop_leading api config notify) (ground (arith, done))
        λ _. stop_leading-Retired notify u

  run_end-Retired :
      (fuel : ℕ) (s : Election W C)
      → 1 ≤ config.retry_period_seconds
      → config.renew_deadline_seconds * 10 < fuel
      → Retired (run_end api config fuel s)
  unfolding run_end stop_is_set
  run_end-Retired fuel s period enough =
      let (arrived, w) = api.stop_now s.world in
      let t = record s { world = w; stop_event = s.stop_event || arrived } in
      ground (arith, release-Retired fuel true t period enough, stop_leading-Retired true t)

  run-Retired :
      (fuel : ℕ) (s : Election W C)
      → 1 ≤ config.retry_period_seconds
      → waits s.world + 1 < fuel
      → config.renew_deadline_seconds * 10 < fuel
      → Retired (run api config fuel s)
  unfolding run
  run-Retired fuel s period enough for_release =
      let ended = run_from-Ends api config clock fuel s enough in
      let t = (run_from api config fuel s).1 in
      ground (arith, ended, run_end-Retired fuel t period for_release)

  Finished-ends : {A : Type 0} (r : Outcome A) → Finished r → r ≢ out_of_fuel
  Finished-ends r done cut = subst Finished cut done

  -- Whatever the Kubernetes API answers and the callbacks raise, a run with fuel for the waits
  -- that are left and for the release comes to its end, and the candidate is then no leader.
  pub run_lem :
      (fuel : ℕ) (s : Election W C)
      → 1 ≤ config.retry_period_seconds
      → waits s.world + 1 < fuel
      → config.renew_deadline_seconds * 10 < fuel
      → ((run api config fuel s).0 ≢ out_of_fuel) × ((run api config fuel s).1.is_leader ≡ false)
  run_lem fuel s period enough for_release =
      let retired = run-Retired fuel s period enough for_release in
      (Finished-ends (run api config fuel s).0 retired.0, retired.1)
