-- ===== src/LeaderElection/Ending.antt =====
-- Every single step of the election comes to an end: the methods without a loop finish, and a write
-- of the Lease never raises.
use azure_lustre_vmss_metric.Prelude.{ℕ, String, Option, arith}
use azure_lustre_vmss_metric.LeaderElection.Config.{LeaderElectionConfig}
use azure_lustre_vmss_metric.LeaderElection.Lease.{Lease}
use azure_lustre_vmss_metric.LeaderElection.Monad.{
  Api, ApiError, Election, M, Outcome, returned, raised, out_of_fuel,
}
use azure_lustre_vmss_metric.LeaderElection.Calls.{create_lease, replace_lease, read_lease}
use azure_lustre_vmss_metric.LeaderElection.Acquire.{
  renew_once, renew_read, renew_unread, acquire_read, acquire_unread, try_acquire_once, after_read,
}
use azure_lustre_vmss_metric.LeaderElection.Takeover.{noted}

-- The loop was not cut short by the model.
abbrev pub Finished : {A : Type 0} → Outcome A → Type 0
Finished (returned a) = Unit
Finished (raised e) = Unit
Finished out_of_fuel = ⊥

-- It returned.
abbrev pub Returned : {A : Type 0} → Outcome A → Type 0
Returned (returned a) = Unit
Returned (raised e) = ⊥
Returned out_of_fuel = ⊥

module _ {W C : Type 0} (api : Api W C) (config : LeaderElectionConfig) where
  pub replace_lease-Returned :
      (lease : Lease) (holder : String) (acquired : Option ℕ) (now transitions : ℕ)
      (duration : Option ℕ) (s : Election W C)
      → Returned (replace_lease api config lease holder acquired now transitions duration s).0
  unfolding replace_lease
  replace_lease-Returned lease holder acquired now transitions duration s = ground arith

  pub read_lease-Finished : (s : Election W C) → Finished (read_lease api config s).0
  unfolding read_lease
  read_lease-Finished s = ground arith

  after_read-Finished :
      {A : Type 0} (r : Outcome Lease) (t : Election W C) (f : Lease → M W C A)
      (g : ApiError → M W C A)
      → Finished r
      → ((a : Lease) → Finished (f a t).0)
      → ((e : ApiError) → Finished (g e t).0)
      → Finished (after_read r (λ a. f a t) (λ e. g e t) (out_of_fuel, t)).0
  after_read-Finished (returned a) t f g h kf kg = kf a
  after_read-Finished (raised e) t f g h kf kg = kg e
  after_read-Finished out_of_fuel t f g h kf kg = h

  create_lease-Finished : (now : ℕ) (s : Election W C) → Finished (create_lease api config now s).0
  unfolding create_lease
  create_lease-Finished now s = ground arith

  acquire_read-Finished :
      (now mono : ℕ) (lease : Lease) (s : Election W C)
      → Finished (acquire_read api config now mono lease s).0
  unfolding acquire_read replace_lease
  acquire_read-Finished now mono lease s = ground arith

  acquire_unread-Finished :
      (now : ℕ) (exc : ApiError) (s : Election W C)
      → Finished (acquire_unread api config now exc s).0
  unfolding acquire_unread
  acquire_unread-Finished now exc s = ground (arith, create_lease-Finished now s)

  pub try_acquire-Finished : (s : Election W C) → Finished (try_acquire_once api config s).0
  unfolding try_acquire_once
  try_acquire-Finished s =
      let (now, mono, t) = noted api config s in
      after_read-Finished (read_lease api config t).0 _ (acquire_read api config now mono)
        (acquire_unread api config now) (read_lease-Finished t)
        (λ lease. acquire_read-Finished now mono lease _) (λ e. acquire_unread-Finished now e _)

  renew_read-Finished :
      (now mono : ℕ) (lease : Lease) (s : Election W C)
      → Finished (renew_read api config now mono lease s).0
  unfolding renew_read replace_lease
  renew_read-Finished now mono lease s = ground arith

  renew_unread-Finished :
      (exc : ApiError) (s : Election W C) → Finished (renew_unread api config exc s).0
  unfolding renew_unread
  renew_unread-Finished exc s = ground arith

  pub renew_once-Finished : (s : Election W C) → Finished (renew_once api config s).0
  unfolding renew_once
  renew_once-Finished s =
      let (now, mono, t) = noted api config s in
      after_read-Finished (read_lease api config t).0 _ (renew_read api config now mono)
        (renew_unread api config) (read_lease-Finished t)
        (λ lease. renew_read-Finished now mono lease _) (λ e. renew_unread-Finished e _)
