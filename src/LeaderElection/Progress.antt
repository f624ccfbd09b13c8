-- ===== src/LeaderElection/Progress.antt =====
-- The loop of the election ends: with fuel for the waits that are left, every method of it finishes,
-- and time has not gone back.
use azure_lustre_vmss_metric.Prelude.{
  ℕ, zero, suc, ◌+◌, ◌<◌, ◌≡◌, refl, Bool, true, false, ◌||◌, arith, if◌then◌else◌,
}
use azure_lustre_vmss_metric.LeaderElection.Config.{LeaderElectionConfig}
use azure_lustre_vmss_metric.LeaderElection.Monad.{
  Api, Election, M, Outcome, returned, raised, out_of_fuel, seconds, continue, ◌>>◌,
}
use azure_lustre_vmss_metric.LeaderElection.Acquire.{
  renew_once, try_acquire_once, RenewResult, renewed, transient, lost,
}
use azure_lustre_vmss_metric.LeaderElection.Clockwork.{
  Later, Clockwork, On-try_acquire, On-renew_once,
}
use azure_lustre_vmss_metric.LeaderElection.Ending.{
  Finished, try_acquire-Finished, renew_once-Finished,
}
use azure_lustre_vmss_metric.LeaderElection.Loop.{
  stop_leading, stop_is_set, wait_then, become_leader, renew_round, renew_step, renew_loop_from,
  renew_loop, run_step, run_from,
}

module _ {W C : Type 0} (api : Api W C) (config : LeaderElectionConfig) {waits time : W → ℕ}
    (clock : Clockwork api waits time) where
  -- A method that began at `s` has finished, and time has not gone back.
  abbrev pub Ends : {A : Type 0} → Election W C → Outcome A × Election W C → Type 0
  Ends s (r, t) = Finished r × Later waits time s.world t.world

  Ends-continue :
      {A B : Type 0} (s t : Election W C) (r : Outcome A) (f : A → M W C B)
      → Finished r
      → Later waits time s.world t.world
      → ((a : A) → Ends t (f a t))
      → Ends s (continue r f t)
  Ends-continue s t (returned a) f done later go = ground (arith, go a)
  Ends-continue s t (raised e) f done later go = (tt, later)
  Ends-continue s t out_of_fuel f done later go = absurd done

  Ends-if :
      {A : Type 0} (b : Bool) (s t : Election W C) (m n : M W C A)
      → Ends s (m t)
      → (b ≡ false → Ends s (n t))
      → Ends s ((if b then m else n) t)
  Ends-if true s t m n h k = h
  Ends-if false s t m n h k = k refl

  -- What follows a wait: the loop goes on only with fewer waits left.
  Ends-wait :
      (s t : Election W C) (again : M W C (Unit {0}))
      → Later waits time s.world t.world
      → ((u : Election W C)
          → Later waits time s.world u.world
          → waits u.world < waits s.world
          → Ends u (again u))
      → Ends s (wait_then api config again t)
  unfolding wait_then
  Ends-wait s t again later go =
      let ticks = seconds config.retry_period_seconds in
      let (arrived, w) = api.stop_within ticks t.world in
      let nearer = clock.stop_nears ticks t.world in
      let passed = clock.stop_within ticks t.world in
      let u = record t { world = w; stop_event = t.stop_event || arrived } in
      Ends-if (t.stop_event || arrived) s u _ again (tt, omega arith)
        (λ on. ground (arith, nearer, on, go u))

  Ends-stop_leading : (notify : Bool) (s : Election W C) → Ends s (stop_leading api config notify s)
  unfolding stop_leading
  Ends-stop_leading notify s = ground (arith, clock.stopped s.world)

  Ends-become : (s : Election W C) → Ends s (become_leader api config s)
  unfolding become_leader
  Ends-become s = ground (arith, clock.started s.world)

  -- One round ends if what follows it does, with fewer waits.
  Ends-renew_round :
      (s t : Election W C) (again : ℕ → M W C (Unit {0})) (deadline : ℕ) (result : RenewResult)
      → Later waits time s.world t.world
      → ((d : ℕ) (u : Election W C) → Later waits time s.world u.world → Ends s (again d u))
      → Ends s (renew_round api config again deadline result t)
  unfolding renew_round
  Ends-renew_round s t again deadline renewed later go =
      let w = (api.monotonic t.world).1 in
      go _ (record t { world = w }) (omega (arith, clock.monotonic t.world))
  Ends-renew_round s t again deadline lost later go = ground (arith, Ends-stop_leading true t)
  Ends-renew_round s t again deadline transient later go =
      let w = (api.monotonic t.world).1 in
      let u = record t { world = w } in
      ground (
        arith,
        clock.monotonic t.world,
        Ends-stop_leading true u,
        go deadline u (omega (arith, clock.monotonic t.world)),
      )

  Ends-renew_step :
      (s : Election W C) (again : ℕ → M W C (Unit {0})) (deadline : ℕ)
      → ((d : ℕ) (u : Election W C) → waits u.world < waits s.world → Ends u (again d u))
      → Ends s (renew_step api config again deadline s)
  unfolding renew_step stop_is_set
  Ends-renew_step s again deadline go =
      let (arrived, w) = api.stop_now s.world in
      let t = record s { world = w; stop_event = s.stop_event || arrived } in
      let looked = clock.stop_now s.world in
      Ends-if (s.stop_event || arrived) s t _ _ (tt, looked)
        λ on.
          Ends-continue s (renew_once api config t).1 (renew_once api config t).0 _
            (renew_once-Finished api config t)
            (omega (arith, looked, On-renew_once api config clock t))
            (λ result.
              let r = (renew_once api config t).1 in
              let since = On-renew_once api config clock t in
              Ends-renew_round r r (λ d. wait_then api config (again d)) deadline result
                (omega arith)
                λ d u later. Ends-wait r u (again d) later λ v _ fewer. go d v (omega arith))

  renew_loop_from-Ends :
      (fuel deadline : ℕ) (s : Election W C)
      → waits s.world < fuel
      → Ends s (renew_loop_from api config fuel deadline s)
  unfolding renew_loop_from
  renew_loop_from-Ends zero deadline s enough = absurd (omega arith)
  renew_loop_from-Ends (suc fuel) deadline s enough =
      Ends-renew_step s (renew_loop_from api config fuel) deadline
        λ d u fewer. renew_loop_from-Ends fuel d u (omega arith)

  renew_loop-Ends :
      (fuel : ℕ) (s : Election W C) → waits s.world < fuel → Ends s (renew_loop api config fuel s)
  unfolding renew_loop
  renew_loop-Ends fuel s enough =
      let (now, w) = api.monotonic s.world in
      let t = record s { world = w } in
      let later = clock.monotonic s.world in
      ground (
        arith,
        later,
        renew_loop_from-Ends fuel (now + seconds config.renew_deadline_seconds) t (omega arith),
      )

  Ends-lead :
      (s : Election W C) (fuel : ℕ)
      → waits s.world < fuel
      → Ends s ((become_leader api config >> renew_loop api config fuel) s)
  Ends-lead s fuel enough =
      let b = (become_leader api config s).1 in
      let led = Ends-become s in
      Ends-continue s b (become_leader api config s).0 (λ _. renew_loop api config fuel) led.0 led.1
        λ _. renew_loop-Ends fuel b (omega arith)

  Ends-run_step :
      (s : Election W C) (fuel : ℕ) (again : M W C (Unit {0}))
      → waits s.world < fuel
      → ((u : Election W C) → waits u.world < waits s.world → Ends u (again u))
      → Ends s (run_step api config fuel again s)
  unfolding run_step stop_is_set
  Ends-run_step s fuel again enough go =
      let (arrived, w) = api.stop_now s.world in
      let t = record s { world = w; stop_event = s.stop_event || arrived } in
      let looked = clock.stop_now s.world in
      let r = (try_acquire_once api config t).1 in
      let tried = On-try_acquire api config clock t in
      Ends-if (s.stop_event || arrived) s t _ _ (tt, looked)
        λ on.
          Ends-continue s r (try_acquire_once api config t).0 _ (try_acquire-Finished api config t)
            (omega arith)
            (elim [
              | true ↦
                  let (x, l) = (become_leader api config >> renew_loop api config fuel) r in
                  let led = Ends-lead r fuel (omega arith) in
                  Ends-continue r l x (λ _. wait_then api config again) led.0 led.1
                    λ _. Ends-wait l l again (omega arith) λ v later fewer. go v (omega arith)
              | false ↦ Ends-wait r r again (omega arith) λ v later fewer. go v (omega arith)
            ])

  pub run_from-Ends :
      (fuel : ℕ) (s : Election W C) → waits s.world + 1 < fuel → Ends s (run_from api config fuel s)
  unfolding run_from
  run_from-Ends zero s enough = absurd (omega arith)
  run_from-Ends (suc fuel) s enough =
      Ends-run_step s fuel (run_from api config fuel) (omega arith)
        λ u fewer. run_from-Ends fuel u (omega arith)
