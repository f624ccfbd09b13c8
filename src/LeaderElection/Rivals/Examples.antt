-- ===== src/LeaderElection/Rivals/Examples.antt =====
-- Two candidates of one cluster, which read the Lease at the same version.
--
-- The server keeps who wrote the Lease, the last first; `rival` writes it once more after each read.
use Prim.Native.String.{String}
use azure_lustre_vmss_metric.Prelude.{
  subst, ℕ, zero, suc, ◌≤◌, ◌≡◌, ◌≢◌, refl, ap, sym, ◌∙◌, Bool, true, false, Option, none, some,
  List, [], ◌∷◌, All, length, arith, ◌==◌, string_eq, option_eq, option_beq_iff, differ_lem,
}
use azure_lustre_vmss_metric.Prelude.Result.{Result, ok, err}
use azure_lustre_vmss_metric.LeaderElection.Config.{LeaderElectionConfig}
use azure_lustre_vmss_metric.LeaderElection.Lease.{Lease, LeaseBody}
use azure_lustre_vmss_metric.LeaderElection.Monad.{Api, ApiError, Election, returned}
use azure_lustre_vmss_metric.LeaderElection.Calls.{read_lease, replace_lease}
use azure_lustre_vmss_metric.LeaderElection.Acquire.{acquire_read}
use azure_lustre_vmss_metric.LeaderElection.Server.{
  Server, Extends, same, wrote, IsVersioned, Replaced,
}
use azure_lustre_vmss_metric.LeaderElection.Rivals.{attempt, acquires, attempt-exclusive}

-- A version for each number
version_of : ℕ → String
version_of zero = String.[]
version_of (suc n) = String.◌∷◌ "x" (version_of n)

digits : String → ℕ
digits String.[] = 0
digits (String.◌∷◌ c s) = suc (digits s)

digits-version_of : (n : ℕ) → digits (version_of n) ≡ n
unfolding digits version_of
digits-version_of zero = refl
digits-version_of (suc n) = ap suc (digits-version_of n)

abbrev lease_of : String → ℕ → Lease
lease_of holder n = record {
  resource_version = some (version_of n);
  holder = some holder;
  duration = none;
  transitions = none;
  acquired_at = none;
  renewed_at = none;
}

abbrev log : List String → List Lease
log [] = []
log (holder ∷ holders) = lease_of holder (length holders) ∷ log holders

abbrev or_empty : Option String → String
or_empty none = String.[]
or_empty (some s) = s

log-older :
    (n : ℕ) (holders : List String)
    → length holders ≤ n
    → All (λ other. other.resource_version ≢ some (version_of n)) (log holders)
log-older n [] h = tt
log-older n (holder ∷ holders) h = (
  λ e. absurd (
      omega (
        arith,
        h,
        digits-version_of n,
        digits-version_of (length holders),
        ap (λ v. digits (or_empty v)) e,
      )),
  log-older n holders (omega (arith, h)),
)

log-IsVersioned : (holders : List String) → IsVersioned (log holders)
log-IsVersioned [] = tt
log-IsVersioned (holder ∷ holders) =
    (log-older (length holders) holders (omega arith), log-IsVersioned holders)

abbrev Answer : Type 0 → Type 0
Answer A = Result ApiError A × List String

abbrev written_by : Option String → List String → List String
written_by none holders = holders
written_by (some rival) holders = rival ∷ holders

abbrev read_newest : Option String → List String → Answer Lease
read_newest rival [] = (err (record { status = some 404 }), [])
read_newest rival (holder ∷ holders) =
    (ok (lease_of holder (length holders)), written_by rival (holder ∷ holders))

abbrev replaced_if : Bool → LeaseBody → String → List String → Answer (Option Lease)
replaced_if true body holder holders = (ok none, body.holder_identity ∷ holder ∷ holders)
replaced_if false body holder holders = (err (record { status = some 409 }), holder ∷ holders)

abbrev replace_newest : LeaseBody → List String → Answer (Option Lease)
replace_newest body [] = (err (record { status = some 404 }), [])
replace_newest body (holder ∷ holders) =
    replaced_if (body.resource_version == some (version_of (length holders))) body holder holders

abbrev api : Option String → Api (List String) (Unit {0})
api rival = record {
  read_namespaced_lease = λ c name namespace timeout. read_newest rival;
  create_namespaced_lease = λ c namespace body timeout w. (err (record { status = some 409 }), w);
  replace_namespaced_lease = λ c name namespace body timeout. replace_newest body;
  coordination_api_factory = none;
  utcnow = λ w. (5, w);
  monotonic = λ w. (5, w);
  sleep = λ t w. w;
  stop_now = λ w. (false, w);
  stop_within = λ t w. (false, w);
  on_started_leading = λ w. (ok tt, w);
  on_stopped_leading = λ w. (ok tt, w);
}

written_by-Extends :
    (rival : Option String) (w : List String) → Extends (log w) (log (written_by rival w))
written_by-Extends none w = same
written_by-Extends (some rival) w = wrote (lease_of rival (length w)) same

read_newest-Extends :
    (rival : Option String) (w : List String) → Extends (log w) (log (read_newest rival w).1)
read_newest-Extends rival [] = same
read_newest-Extends rival (holder ∷ holders) = written_by-Extends rival (holder ∷ holders)

read_newest-newest :
    (rival : Option String) (w : List String) (lease : Lease)
    → (read_newest rival w).0 ≡ ok lease
    → (older : List Lease) × Extends (log w) (lease ∷ older)
      × Extends (lease ∷ older) (log (read_newest rival w).1)
read_newest-newest rival [] lease e = absurd (ground (arith, e))
read_newest-newest rival (holder ∷ holders) lease e =
    let is : lease_of holder (length holders) ≡ lease = ground (arith, e) in
    subst
      (λ l.
        (older : List Lease) × Extends (log (holder ∷ holders)) (l ∷ older)
        × Extends (l ∷ older) (log (written_by rival (holder ∷ holders))))
      is (log holders, same, written_by-Extends rival (holder ∷ holders))

replaced_if-Replaced :
    (test : Bool) (body : LeaseBody) (holder version : String) (holders : List String)
    (updated : Option Lease)
    → (test ≡ true → body.resource_version ≡ some (version_of (length holders)))
    → body.resource_version ≡ some version
    → (replaced_if test body holder holders).0 ≡ ok updated
    → Replaced
        (log (holder ∷ holders))
        (log (replaced_if test body holder holders).1)
        version
        body.holder_identity
replaced_if-Replaced false body holder version holders updated reads names e =
    absurd (ground (arith, e))
replaced_if-Replaced true body holder version holders updated reads names e = record {
  stored = lease_of body.holder_identity (length (holder ∷ holders));
  before = lease_of holder (length holders);
  older = log holders;
  later = same;
  is_version = sym (reads refl) ∙ names;
  is_holder = refl;
  follows = same;
}

replace_newest-Replaced :
    (body : LeaseBody) (w : List String) (updated : Option Lease) (version : String)
    → body.resource_version ≡ some version
    → (replace_newest body w).0 ≡ ok updated
    → Replaced (log w) (log (replace_newest body w).1) version body.holder_identity
replace_newest-Replaced body [] updated version names e = absurd (ground (arith, e))
replace_newest-Replaced body (holder ∷ holders) updated version names e =
    replaced_if-Replaced (body.resource_version == some (version_of (length holders))) body holder
      version holders updated
      ((option_beq_iff body.resource_version (some (version_of (length holders)))).0) names e

replaced_if-Extends :
    (test : Bool) (body : LeaseBody) (holder : String) (holders : List String)
    → Extends (log (holder ∷ holders)) (log (replaced_if test body holder holders).1)
replaced_if-Extends true body holder holders =
    wrote (lease_of body.holder_identity (length (holder ∷ holders))) same
replaced_if-Extends false body holder holders = same

replace_newest-Extends :
    (body : LeaseBody) (w : List String) → Extends (log w) (log (replace_newest body w).1)
replace_newest-Extends body [] = same
replace_newest-Extends body (holder ∷ holders) =
    replaced_if-Extends (body.resource_version == some (version_of (length holders))) body holder
      holders

candidate : String → LeaderElectionConfig
candidate identity = record {
  lock_name = "exporter";
  lock_namespace = "monitoring";
  identity = identity;
  lease_duration_seconds = 15;
  renew_deadline_seconds = 10;
  retry_period_seconds = 2;
}

server : (rival : Option String) (identity : String) → Server (api rival) (candidate identity) log
server rival identity = record {
  versioned = log-IsVersioned;
  read = λ c t w. read_newest-Extends rival w;
  reads = λ c t w. read_newest-newest rival w;
  replace = λ c b t w. replace_newest-Extends b w;
  replaces = λ c b t w. replace_newest-Replaced b w;
  factory = λ f w e. absurd (ground (arith, e));
  utcnow = λ w. same;
  monotonic = λ w. same;
}

-- The Lease was released.
abbrev start : Election (List String) (Unit {0})
start = record {
  world = "" ∷ [];
  client = tt;
  observed_key = none;
  observed_time_monotonic = 0;
  is_leader = false;
  stop_event = false;
}

-- While the second reads the Lease and writes it, the first takes it.
attempt-exclusive_example :
    (attempt (api (some "pod-a")) (candidate "pod-b") acquires start).0 ≢ returned true
unfolding attempt read_lease candidate version_of acquire_read replace_lease
attempt-exclusive_example =
    attempt-exclusive (server none "pod-a") (server (some "pod-a") "pod-b") acquires acquires start
      start (lease_of "" 0) (lease_of "" 0) "" (differ_lem "pod-a" "pod-b" refl) refl refl refl refl
      same refl
