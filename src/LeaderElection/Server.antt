-- ===== src/LeaderElection/Server.antt =====
-- The API server as the candidates of leader_election.py share it: the Leases that it has stored
-- under the name of the election, the newest first.
--
-- Other candidates may write before, during and after a call. Nobody deletes the Lease.
use azure_lustre_vmss_metric.Prelude.{
  ◌≤◌, String, ◌≡◌, ◌≢◌, refl, sym, Option, some, List, [], ◌∷◌, All, length, arith,
}
use azure_lustre_vmss_metric.Prelude.Result.{Result, ok}
use azure_lustre_vmss_metric.LeaderElection.Config.{LeaderElectionConfig}
use azure_lustre_vmss_metric.LeaderElection.Lease.{Lease, LeaseBody}
use azure_lustre_vmss_metric.LeaderElection.Monad.{Api, ApiError, Timeout}

-- The later state of a log: more may have been written.
pub data Extends (old : List Lease) : List Lease → Type 0 where
  same : Extends old old
  wrote : {new : List Lease} (lease : Lease) → Extends old new → Extends old (lease ∷ new)

pub Extends-trans : {a b c : List Lease} → Extends a b → Extends b c → Extends a c
Extends-trans h same = h
Extends-trans h (wrote lease k) = wrote lease (Extends-trans h k)

-- No two of the Leases have one resource version.
abbrev pub IsVersioned : List Lease → Type 0
IsVersioned [] = Unit
IsVersioned (lease ∷ older) =
    All (λ other. other.resource_version ≢ lease.resource_version) older × IsVersioned older

-- A write upon the newest Lease, which has the version that the body names.
pub record Replaced (old new : List Lease) (version holder : String) : Type 0 where
  pub stored : Lease
  pub before : Lease
  pub older : List Lease
  pub later : Extends old (before ∷ older)
  pub is_version : before.resource_version ≡ some version
  pub is_holder : stored.holder ≡ some holder
  pub follows : Extends (stored ∷ before ∷ older) new

-- A write that names a version is refused unless the Lease has it still, and gives the Lease a new
-- one; a read returns a Lease as it was at one time during the call.
pub record Server {W C : Type 0} (api : Api W C) (config : LeaderElectionConfig)
    (log : W → List Lease) : Type 0 where
  pub versioned : (w : W) → IsVersioned (log w)
  pub read :
      (c : C) (t : Timeout) (w : W)
      → Extends
          (log w)
          (log (api.read_namespaced_lease c config.lock_name config.lock_namespace t w).1)
  pub reads :
      (c : C) (t : Timeout) (w : W) (lease : Lease)
      → (api.read_namespaced_lease c config.lock_name config.lock_namespace t w).0 ≡ ok lease
      → (older : List Lease) × Extends (log w) (lease ∷ older)
        × Extends
            (lease ∷ older)
            (log (api.read_namespaced_lease c config.lock_name config.lock_namespace t w).1)
  pub replace :
      (c : C) (b : LeaseBody) (t : Timeout) (w : W)
      → Extends
          (log w)
          (log (api.replace_namespaced_lease c config.lock_name config.lock_namespace b t w).1)
  pub replaces :
      (c : C) (b : LeaseBody) (t : Timeout) (w : W) (updated : Option Lease) (version : String)
      → b.resource_version ≡ some version
      → (api.replace_namespaced_lease c config.lock_name config.lock_namespace b t w).0 ≡ ok updated
      → Replaced
          (log w)
          (log (api.replace_namespaced_lease c config.lock_name config.lock_namespace b t w).1)
          version
          b.holder_identity
  pub factory :
      (f : W → Result ApiError C × W) (w : W)
      → api.coordination_api_factory ≡ some f
      → Extends (log w) (log (f w).1)
  pub utcnow : (w : W) → Extends (log w) (log (api.utcnow w).1)
  pub monotonic : (w : W) → Extends (log w) (log (api.monotonic w).1)

Extends-length : {old new : List Lease} → Extends old new → length old ≤ length new
Extends-length same = omega arith
Extends-length (wrote lease h) = omega (arith, Extends-length h)

Extends-All :
    (P : Lease → Type 0) {lease : Lease} {older log : List Lease}
    → Extends (lease ∷ older) log
    → All P log
    → P lease
Extends-All P same h = h.0
Extends-All P (wrote other e) h = Extends-All P e h.1

-- A version tells what the log was when the Lease was the newest.
pub Extends-version :
    (a b : Lease) (x y : List Lease) {log : List Lease}
    → IsVersioned log
    → Extends (a ∷ x) log
    → Extends (b ∷ y) log
    → a.resource_version ≡ b.resource_version
    → ◌≡◌ {A = List Lease} (a ∷ x) (b ∷ y)
Extends-version a b x y h same same e = refl
Extends-version a b x y h same (wrote l k) e = absurd (Extends-All _ k h.0 (sym e))
Extends-version a b x y h (wrote l k) same e = absurd (Extends-All _ k h.0 e)
Extends-version a b x y h (wrote l k) (wrote m k') e = Extends-version a b x y h.1 k k' e

-- At most one write follows upon a state of the log.
pub Extends-next :
    (a b : Lease) (x y : List Lease) {log : List Lease}
    → length x ≡ length y
    → Extends (a ∷ x) log
    → Extends (b ∷ y) log
    → a ≡ b
Extends-next a b x y e same same = refl
Extends-next a b x y e same (wrote l k) = absurd (omega (arith, e, Extends-length k))
Extends-next a b x y e (wrote l k) same = absurd (omega (arith, e, Extends-length k))
Extends-next a b x y e (wrote l k) (wrote m k') = Extends-next a b x y e k k'
