-- ===== src/LeaderElection/Rivals.antt =====
-- Candidates that share an API server, by leader_election.py: of two that read the same state of the
-- Lease, one at most writes it.
mod Examples
use azure_lustre_vmss_metric.Prelude.{
  ℕ, ◌+◌, String, ◌≡◌, ◌≢◌, refl, sym, ap, ◌∙◌, subst, Bool, true, false, Option, none, some, List,
  ◌∷◌, length, ◌==◌, nat_eq, option_eq, arith, if◌then◌else◌, ◌&&◌, not, string_eq,
}
use azure_lustre_vmss_metric.LeaderElection.Config.{LeaderElectionConfig}
use azure_lustre_vmss_metric.LeaderElection.Lease.{
  Lease, holder_identity, acquire_time, lease_transitions,
}
use azure_lustre_vmss_metric.LeaderElection.Monad.{
  Api, Election, Outcome, returned, raised, out_of_fuel, M, pure, continue, ◌>>=◌,
}
use azure_lustre_vmss_metric.LeaderElection.Calls.{observe_lease, read_lease, replace_lease}
use azure_lustre_vmss_metric.LeaderElection.Acquire.{
  held, observed_lease_valid, acquire_read, try_acquire_once, renew_read, renew_once, renewed,
  transient, lost, RenewResult, or_else,
}
use azure_lustre_vmss_metric.LeaderElection.Takeover.{noted}
use azure_lustre_vmss_metric.LeaderElection.Server.{
  Server, Extends, Extends-trans, Extends-version, Extends-next, wrote, same,
}
use azure_lustre_vmss_metric.LeaderElection.Writes.{
  Ends, Seen, read_lease-Ends, observe_lease-world, Follows, replace_lease-Follows,
}

-- A candidate takes the Lease, or renews it.
pub data Attempt : Type 0 where
  acquires renews : Attempt

abbrev pub is_renewed : RenewResult → Bool
is_renewed renewed = true
is_renewed transient = false
is_renewed lost = false

module _ {W C : Type 0} (api : Api W C) (config : LeaderElectionConfig) where
  unfoldable pub attempt : Attempt → M W C Bool
  unfolding try_acquire_once renew_once
  attempt acquires = try_acquire_once api config
  attempt renews = renew_once api config >>= λ result. pure (is_renewed result)

  -- below the read
  abbrev attempt_read : Attempt → ℕ → ℕ → Lease → M W C Bool
  attempt_read acquires now now_monotonic lease = acquire_read api config now now_monotonic lease
  attempt_read renews now now_monotonic lease =
      renew_read api config now now_monotonic lease >>= λ result. pure (is_renewed result)

  attempt-read :
      (kind : Attempt) (s : Election W C) (lease : Lease) (t : Election W C)
      → read_lease api config (noted api config s).2 ≡ (returned lease, t)
      → attempt kind s ≡ attempt_read kind (noted api config s).0 (noted api config s).1 lease t
  unfolding attempt try_acquire_once renew_once
  attempt-read acquires s lease t read = rw read
  attempt-read renews s lease t read = rw read

  -- A renewal that is tested as one is a write.
  renewed_as :
      (q : Outcome Bool × Election W C)
      → (let r = continue q.0 (λ done. pure (if done then renewed else transient)) q.1 in
          continue r.0 (λ result. pure (is_renewed result)) r.1)
        ≡ q
  renewed_as (returned true, s) = refl
  renewed_as (returned false, s) = refl
  renewed_as (raised e, s) = refl
  renewed_as (out_of_fuel, s) = refl

  if_renewed :
      (test : Bool) (write : M W C Bool) (s : Election W C)
      → ((if test
              then pure lost
              else (write >>= λ done. pure (if done then renewed else transient)))
            >>= λ result. pure (is_renewed result))
          s
        ≡ (if test then pure false else write) s
  if_renewed true write s = refl
  if_renewed false write s = renewed_as (write s)

  module _ {log : W → List Lease} (server : Server api config log) where
    -- A test before a write
    if-Follows :
        (test : Bool) (skip write : M W C Bool) (s : Election W C) (lease : Lease) (holder : String)
        → ((skip s).0 ≢ returned true)
        → ((write s).0 ≡ returned true → Follows lease holder (log (write s).1.world))
        → ((if test then skip else write) s).0 ≡ returned true
        → Follows lease holder (log ((if test then skip else write) s).1.world)
    if-Follows true skip write s lease holder fails h e = absurd (fails e)
    if-Follows false skip write s lease holder fails h e = h e

    attempt_read-Follows :
        (kind : Attempt) (now now_monotonic : ℕ) (lease : Lease) (version : String)
        (older : List Lease) (t : Election W C)
        → lease.resource_version ≡ some version
        → Extends (lease ∷ older) (log t.world)
        → (attempt_read kind now now_monotonic lease t).0 ≡ returned true
        → Follows lease config.identity (log (attempt_read kind now now_monotonic lease t).1.world)
    unfolding acquire_read renew_read
    attempt_read-Follows acquires now now_monotonic lease version older t is_version seen e =
        let t' = observe_lease api config (some lease) now_monotonic t in
        let seen' : Extends (lease ∷ older) (log t'.world) =
          subst (λ w. Extends (lease ∷ older) (log w))
            (sym (observe_lease-world api config server (some lease) now_monotonic t)) seen in
        let is_self = holder_identity lease == some config.identity in
        let acquired = if is_self then acquire_time lease else some now in
        let transitions = lease_transitions lease + (if is_self then 0 else 1) in
        if-Follows
          (held (holder_identity lease)
            && not is_self
            && observed_lease_valid api config lease now_monotonic t')
          (pure false)
          (replace_lease api config lease config.identity acquired now transitions none) t' lease
          config.identity (λ x. ground (arith, x))
          (replace_lease-Follows api config server lease config.identity acquired now transitions
            none version older t' is_version seen')
          e
    attempt_read-Follows renews now now_monotonic lease version older t is_version seen e =
        let t' = observe_lease api config (some lease) now_monotonic t in
        let seen' : Extends (lease ∷ older) (log t'.world) =
          subst (λ w. Extends (lease ∷ older) (log w))
            (sym (observe_lease-world api config server (some lease) now_monotonic t)) seen in
        let test =
          held (holder_identity lease) && not (holder_identity lease == some config.identity) in
        let write =
          replace_lease api config lease config.identity (or_else (acquire_time lease) now) now
            (lease_transitions lease) none in
        let as_write = if_renewed test write t' in
        subst (λ r. Follows lease config.identity (log r.1.world)) (sym as_write)
          (if-Follows test (pure false) write t' lease config.identity (λ x. ground (arith, x))
            (replace_lease-Follows api config server lease config.identity
              (or_else (acquire_time lease) now) now (lease_transitions lease) none version older t'
              is_version seen')
            (ap (λ r. r.0) (sym as_write) ∙ e))

    -- What an attempt did that succeeded.
    pub attempt-Follows :
        (kind : Attempt) (s : Election W C) (lease : Lease) (version : String) {t : Election W C}
        → read_lease api config (noted api config s).2 ≡ (returned lease, t)
        → lease.resource_version ≡ some version
        → (attempt kind s).0 ≡ returned true
        → Follows lease config.identity (log (attempt kind s).1.world)
    attempt-Follows kind s lease version {t} read is_version e =
        let start = (noted api config s).2 in
        let (older, before, seen) : Seen (log start.world) lease (log t.world) =
          subst (Ends log (Seen (log start.world)) (log start.world)) read
            (read_lease-Ends api config server start) in
        let now = (noted api config s).0 in
        let now_monotonic = (noted api config s).1 in
        let below = attempt-read kind s lease t read in
        subst (λ r. Follows lease config.identity (log r.1.world)) (sym below)
          (attempt_read-Follows kind now now_monotonic lease version older t is_version seen
            (ap (λ r. r.0) (sym below) ∙ e))

module _ {W C W' C' : Type 0} {api : Api W C} {api' : Api W' C'}
    {config config' : LeaderElectionConfig} {log : W → List Lease} {log' : W' → List Lease}
    (server : Server api config log) (server' : Server api' config' log') where
  same_holder :
      (lease lease' : Lease) (version : String) {w : W} {w' : W'}
      → lease.resource_version ≡ some version
      → lease'.resource_version ≡ some version
      → Extends (log w) (log' w')
      → Follows lease config.identity (log w)
      → Follows lease' config'.identity (log' w')
      → config.identity ≡ config'.identity
  same_holder lease lease' version {w} {w'} is_version is_version' later mine theirs =
      let mine_then = Extends-trans mine.follows later in
      let one =
        Extends-version lease lease' mine.older theirs.older (server'.versioned w')
          (Extends-trans (wrote mine.stored same) mine_then)
          (Extends-trans (wrote theirs.stored same) theirs.follows)
          (is_version ∙ sym is_version') in
      let one_write =
        Extends-next mine.stored theirs.stored (lease ∷ mine.older) (lease' ∷ theirs.older)
          (ap length one) mine_then theirs.follows in
      let one_holder : ◌≡◌ {A = Option String} (some config.identity) (some config'.identity) =
        sym mine.is_holder ∙ ap (λ l. l.holder) one_write ∙ theirs.is_holder in
      ground (arith, one_holder)

  -- Of two candidates with different identities that have read the Lease at one version, be it to
  -- take it or to renew it, one at most writes it with success: where the one has, and the other,
  -- which may have begun before, ends after it, the other fails.
  pub attempt-exclusive :
      (kind kind' : Attempt) (s : Election W C) (s' : Election W' C') (lease lease' : Lease)
      (version : String) {t : Election W C} {t' : Election W' C'}
      → config.identity ≢ config'.identity
      → read_lease api config (noted api config s).2 ≡ (returned lease, t)
      → read_lease api' config' (noted api' config' s').2 ≡ (returned lease', t')
      → lease.resource_version ≡ some version
      → lease'.resource_version ≡ some version
      → Extends
          (log (attempt api config kind s).1.world)
          (log' (attempt api' config' kind' s').1.world)
      → (attempt api config kind s).0 ≡ returned true
      → (attempt api' config' kind' s').0 ≢ returned true
  attempt-exclusive kind kind' s s' lease lease' version differ read read' is_version is_version'
        later wins wins' =
      differ (
        same_holder lease lease' version is_version is_version' later
          (attempt-Follows api config server kind s lease version read is_version wins)
          (attempt-Follows api' config' server' kind' s' lease' version read' is_version' wins'))
