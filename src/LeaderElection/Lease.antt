-- ===== src/LeaderElection/Lease.antt =====
-- The Lease object, its accessors and the body that an election writes.
--
-- A `V1Lease` has optional attributes; an attribute of another type than the client library
-- declares reads as missing. `lease_duration_seconds` and `lease_transitions` below zero read as
-- zero does, so ℕ is enough.
use azure_lustre_vmss_metric.Prelude.{
  ℕ, ◌-◌, String, Bool, true, ◌&&◌, ◌≡◌, ◌↔◌, Option, none, some, ◌==◌, Equatable, nat_eq,
  string_eq, option_eq, option_beq, option_beq_iff, ltb, if◌then◌else◌, arith,
}
use azure_lustre_vmss_metric.LeaderElection.Config.{LeaderElectionConfig}

-- A `datetime`: its wall clock, and for an aware one how far its zone is ahead of UTC.
pub data Datetime : Type 0 where
  naive : ℕ → Datetime
  aware : ℕ → ℕ → Datetime

unfoldable pub as_utc_datetime : Option Datetime → Option ℕ
as_utc_datetime none = none
as_utc_datetime (some (naive t)) = some t
as_utc_datetime (some (aware t ahead)) = some (t - ahead)

pub record Lease : Type 0 where
  pub resource_version : Option String
  pub holder : Option String
  pub duration : Option ℕ
  pub transitions : Option ℕ
  pub acquired_at : Option Datetime
  pub renewed_at : Option Datetime

-- What `_lease_body` sends; a duration of 0 stands for none, as in `or`.
pub record LeaseBody : Type 0 where
  pub name : String
  pub namespace : String
  pub resource_version : Option String
  pub app_label : String
  pub holder_identity : String
  pub acquire_time : Option ℕ
  pub renew_time : ℕ
  pub lease_transitions : ℕ
  pub lease_duration_seconds : ℕ

unfoldable pub holder_identity : Lease → Option String
holder_identity lease = lease.holder

unfoldable pub acquire_time : Lease → Option ℕ
unfolding as_utc_datetime
acquire_time lease = as_utc_datetime lease.acquired_at

unfoldable pub renew_time : Lease → Option ℕ
unfolding as_utc_datetime
renew_time lease = as_utc_datetime lease.renewed_at

abbrev positive_or : Option ℕ → ℕ → ℕ
positive_or none default = default
positive_or (some n) default = if ltb 0 n then n else default

abbrev count_or_zero : Option ℕ → ℕ
count_or_zero none = 0
count_or_zero (some n) = n

unfoldable pub lease_duration_seconds : LeaderElectionConfig → Lease → ℕ
lease_duration_seconds config lease = positive_or lease.duration config.lease_duration_seconds

unfoldable pub lease_transitions : Lease → ℕ
lease_transitions lease = count_or_zero lease.transitions

unfoldable pub resource_version : Lease → Option String
resource_version lease = lease.resource_version

abbrev pub LeaseKey : Type 0
LeaseKey = Option String × Option String × ℕ × ℕ × Option ℕ × Option ℕ

unfoldable pub lease_key : LeaderElectionConfig → Lease → LeaseKey
unfolding resource_version holder_identity lease_duration_seconds lease_transitions acquire_time
    renew_time
lease_key config lease = (
  resource_version lease,
  holder_identity lease,
  lease_duration_seconds config lease,
  lease_transitions lease,
  acquire_time lease,
  renew_time lease,
)

abbrev pub key_beq : LeaseKey → LeaseKey → Bool
key_beq (v, h, d, n, a, r) (v', h', d', n', a', r') =
    v == v' && h == h' && d == d' && n == n' && a == a' && r == r'

pub key_beq_iff : (k l : LeaseKey) → (key_beq k l ≡ true) ↔ (k ≡ l)
key_beq_iff (v, h, d, n, a, r) (v', h', d', n', a', r') =
    let same_version : (option_beq v v' ≡ true) ↔ (v ≡ v') = option_beq_iff v v' in
    let same_holder : (option_beq h h' ≡ true) ↔ (h ≡ h') = option_beq_iff h h' in
    let same_acquire : (option_beq a a' ≡ true) ↔ (a ≡ a') = option_beq_iff a a' in
    let same_renew : (option_beq r r' ≡ true) ↔ (r ≡ r') = option_beq_iff r r' in ground arith

instance abbrev pub key_eq : Equatable LeaseKey
key_eq = record { equals = key_beq; equals_iff = key_beq_iff }

-- `_lease_body`; the arguments that callers leave out are `none`.
unfoldable pub lease_body :
    LeaderElectionConfig → String → Option ℕ → ℕ → ℕ → Option ℕ → Option String → LeaseBody
lease_body config holder acquired renewed transitions duration version = record {
  name = config.lock_name;
  namespace = config.lock_namespace;
  resource_version = version;
  app_label = "vmss-metrics-exporter";
  holder_identity = holder;
  acquire_time = acquired;
  renew_time = renewed;
  lease_transitions = transitions;
  lease_duration_seconds = positive_or duration config.lease_duration_seconds;
}
