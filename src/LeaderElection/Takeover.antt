-- ===== src/LeaderElection/Takeover.antt =====
-- When a candidate may write a Lease that another candidate holds.
use azure_lustre_vmss_metric.Prelude.{
  ℕ, ◌+◌, ◌≤◌, ◌<◌, String, ◌≡◌, ◌≢◌, ◌⊎◌, inl, inr, refl, true, false, Option, some, arith, ◌==◌,
  string_eq, option_beq, option_beq_iff, ◌↔◌, ◌&&◌, not, none, option_eq, ◌==◌,
}
use azure_lustre_vmss_metric.LeaderElection.Config.{LeaderElectionConfig}
use azure_lustre_vmss_metric.LeaderElection.Lease.{
  Lease, key_eq, holder_identity, lease_duration_seconds, lease_key,
}
use azure_lustre_vmss_metric.LeaderElection.Monad.{Api, Election, returned, seconds}
use azure_lustre_vmss_metric.LeaderElection.Calls.{observe_lease, read_lease}
use azure_lustre_vmss_metric.LeaderElection.Acquire.{
  lost, held, acquire_read, try_acquire_once, renew_read, observed_lease_valid,
}
use azure_lustre_vmss_metric.LeaderElection.Frame.{SameSelf, seconds-pos, read_lease-SameSelf}

-- A non-empty identity other than the candidate's.
abbrev pub IsOther : String → Option String → Type 0
IsOther identity none = ⊥
IsOther identity (some holder) = (holder ≢ "") × (holder ≢ identity)

abbrev pub HeldByOther : LeaderElectionConfig → Lease → Type 0
HeldByOther config lease = IsOther config.identity (holder_identity lease)

-- The test of the code decides it.
test-IsOther :
    (identity : String) (holder : Option String)
    → (IsOther identity holder × ((held holder && not (holder == some identity)) ≡ true))
      ⊎ (¬ IsOther identity holder × ((held holder && not (holder == some identity)) ≡ false))
unfolding held
test-IsOther identity none = inr (λ h. h, refl)
test-IsOther identity (some holder) =
    ground (arith, string_eq.equals_iff holder "", string_eq.equals_iff holder identity)

module _ {W C : Type 0} (api : Api W C) (config : LeaderElectionConfig) where
  pub acquire_read-respects :
      (now now_monotonic : ℕ) (lease : Lease) (s : Election W C)
      → 0 < lease_duration_seconds config lease
      → HeldByOther config lease
      → (acquire_read api config now now_monotonic lease s
          ≡ (returned false, observe_lease api config (some lease) now_monotonic s))
        ⊎ ((s.observed_key ≡ some (lease_key config lease))
            × (s.observed_time_monotonic + seconds (lease_duration_seconds config lease)
                ≤ now_monotonic))
  unfolding acquire_read observe_lease observed_lease_valid
  acquire_read-respects now now_monotonic lease s positive other =
      let same_key : (option_beq s.observed_key (some (lease_key config lease)) ≡ true)
          ↔ (s.observed_key ≡ some (lease_key config lease)) =
        option_beq_iff _ _ in
      ground (
        arith,
        seconds-pos (lease_duration_seconds config lease) positive,
        test-IsOther config.identity (holder_identity lease),
      )

  -- The state in which an attempt reads the Lease, and the two times that it has noted before.
  abbrev pub noted : Election W C → ℕ × ℕ × Election W C
  noted s =
      let (now, w) = api.utcnow s.world in
      let (now_monotonic, w') = api.monotonic w in (now, now_monotonic, record s { world = w' })

  -- An attempt that finds the Lease held by another candidate either gives up at once, having
  -- written nothing and only noted what it saw, or this very Lease has been observed unchanged
  -- for at least its duration.
  pub try_acquire_once-respects :
      (s : Election W C) (lease : Lease) {s' : Election W C}
      → read_lease api config (noted s).2 ≡ (returned lease, s')
      → 0 < lease_duration_seconds config lease
      → HeldByOther config lease
      → (try_acquire_once api config s
          ≡ (returned false, observe_lease api config (some lease) (noted s).1 s'))
        ⊎ ((s.observed_key ≡ some (lease_key config lease))
            × (s.observed_time_monotonic + seconds (lease_duration_seconds config lease)
                ≤ (noted s).1))
  unfolding try_acquire_once
  try_acquire_once-respects s lease {s'} read positive other =
      let (now, now_monotonic, t) = noted s in
      let same : SameSelf t (read_lease api config t).1 = read_lease-SameSelf api config t in
      ground (
        arith,
        same.key,
        same.time,
        acquire_read-respects (noted s).0 (noted s).1 lease s' positive other,
      )

  -- A renewal reports the Lease as lost exactly when another candidate holds it, and then it has
  -- written nothing.
  renew_read-lost :
      (now now_monotonic : ℕ) (lease : Lease) (s : Election W C)
      → (HeldByOther config lease
          × (renew_read api config now now_monotonic lease s
              ≡ (returned lost, observe_lease api config (some lease) now_monotonic s)))
        ⊎ (¬ HeldByOther config lease
            × ((renew_read api config now now_monotonic lease s).0 ≢ returned lost))
  unfolding renew_read
  renew_read-lost now now_monotonic lease s =
      elim (test-IsOther config.identity (holder_identity lease)) [
        | inl (other, e) ↦ inl (other, rw e refl)
        | inr (not_other, e) ↦ inr (not_other, ground arith)
      ]
