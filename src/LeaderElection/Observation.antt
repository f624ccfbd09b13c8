-- ===== src/LeaderElection/Observation.antt =====
-- What the local observation of a Lease, `_observed_key` and `_observed_time_monotonic`, says of
-- the Leases that were seen.
use azure_lustre_vmss_metric.Prelude.{
  ℕ, ◌+◌, ◌≤◌, ◌<◌, ◌≡◌, ◌⊎◌, ◌↔◌, inl, refl, true, false, All-at, some, List, [], ◌∷◌, ◌++◌, arith,
  All, option_beq, option_beq_iff,
}
use azure_lustre_vmss_metric.LeaderElection.Config.{LeaderElectionConfig}
use azure_lustre_vmss_metric.LeaderElection.Lease.{Lease, key_eq, lease_key, lease_duration_seconds}
use azure_lustre_vmss_metric.LeaderElection.Monad.{Api, Election, seconds}
use azure_lustre_vmss_metric.LeaderElection.Calls.{observe_lease}
use azure_lustre_vmss_metric.LeaderElection.Acquire.{observed_lease_valid}

-- Leases with the monotonic times at which they were seen, the oldest first.
abbrev pub History : Type 0
History = List (Lease × ℕ)

abbrev pub IsOrdered : ℕ → History → Type 0
IsOrdered from [] = Unit
IsOrdered from ((lease, at) ∷ rest) = (from ≤ at) × IsOrdered at rest

module _ {W C : Type 0} (api : Api W C) (config : LeaderElectionConfig) where
  unfoldable pub observe_all : History → Election W C → Election W C
  observe_all [] s = s
  observe_all ((lease, at) ∷ rest) s = observe_all rest (observe_lease api config (some lease) at s)

  -- After one observation the key is the Lease's; the time is the old one if the key is.
  observe_cases :
      (lease : Lease) (at : ℕ) (s : Election W C)
      → ((observe_lease api config (some lease) at s).observed_key ≡ some (lease_key config lease))
        × (((s.observed_key ≡ some (lease_key config lease))
              × (observe_lease api config (some lease) at s ≡ s))
            ⊎ ((observe_lease api config (some lease) at s).observed_time_monotonic ≡ at))
  unfolding observe_lease
  observe_cases lease at s =
      let same_key : (option_beq s.observed_key (some (lease_key config lease)) ≡ true)
          ↔ (s.observed_key ≡ some (lease_key config lease)) =
        option_beq_iff _ _ in
      ground arith

  -- Later observations leave the observation alone, or move its time to theirs.
  observe_all_cases :
      (from : ℕ) (h : History) (s : Election W C)
      → IsOrdered from h
      → ((observe_all h s).observed_key ≡ s.observed_key)
          × ((observe_all h s).observed_time_monotonic ≡ s.observed_time_monotonic)
        ⊎ (from ≤ (observe_all h s).observed_time_monotonic)
  unfolding observe_all
  observe_all_cases from [] s ordered = inl (refl, refl)
  observe_all_cases from ((lease, at) ∷ rest) s ordered =
      let s' = observe_lease api config (some lease) at s in
      ground (arith, observe_cases lease at s, observe_all_cases at rest s' ordered.1)

  -- Of the Leases seen, those seen after the noted time have the noted key.
  pub observed_since :
      (from : ℕ) (h : History) (s : Election W C)
      → s.observed_time_monotonic ≤ from
      → IsOrdered from h
      → All
          (λ (lease, at).
            (observe_all h s).observed_time_monotonic < at
            → (observe_all h s).observed_key ≡ some (lease_key config lease))
          h
  unfolding observe_all
  observed_since from [] s early ordered = tt
  observed_since from ((lease, at) ∷ rest) s early ordered =
      let s' = observe_lease api config (some lease) at s in
      (
        λ later. ground (arith, observe_cases lease at s, observe_all_cases at rest s' ordered.1),
        observed_since at rest s' (ground (arith, observe_cases lease at s)) ordered.1,
      )

  -- When a Lease counts as expired, every sighting of the last duration was of that Lease,
  -- unchanged: a Lease that was renewed within its duration, as this candidate saw it, is valid.
  pub observed_lease_valid-renewed :
      (from now_monotonic : ℕ) (before after : History) (seen lease : Lease) (at : ℕ)
      (s : Election W C)
      → s.observed_time_monotonic ≤ from
      → IsOrdered from (before ++ (seen, at) ∷ after)
      → (observe_all (before ++ (seen, at) ∷ after) s).observed_key ≡ some (lease_key config lease)
      → observed_lease_valid api config lease now_monotonic
          (observe_all (before ++ (seen, at) ∷ after) s)
        ≡ false
      → now_monotonic < at + seconds (lease_duration_seconds config lease)
      → lease_key config seen ≡ lease_key config lease
  unfolding observed_lease_valid
  observed_lease_valid-renewed from now_monotonic before after seen lease at s early ordered noted
        expired recent =
      let h = before ++ (seen, at) ∷ after in
      let since = All-at _ before (seen, at) after (observed_since from h s early ordered) in
      ground (arith, since)
