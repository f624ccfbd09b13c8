-- ===== src/Config/Bounds.antt =====
-- The ranges of the whole numbers that are read, and of those of an election.
use azure_lustre_vmss_metric.Prelude.{
  ℕ, ◌≤◌, ◌<◌, ◌*◌, String, ◌≡◌, inl, inr, false, Option, none, some, ◌==◌, string_eq, arith, subst,
  ap, Bool-cases,
}
use azure_lustre_vmss_metric.Prelude.Number.{ℤ, pos, negsuc}
use azure_lustre_vmss_metric.Prelude.Result.{Result, ok, err, ◌>>=◌, bind-ok, ok-injective}
use azure_lustre_vmss_metric.Config.{
  Env, SettingsError, in_range, read_int, get_int, get_bool, load_leader_election_settings,
  LeaderElectionSettings, settings_of,
}
use azure_lustre_vmss_metric.Config.Accepted.{checked-inv}
use azure_lustre_vmss_metric.Config.Load.{LoadError, at_least, read_int_from, lifted}

pub bind_then :
    {A B C : Type 0} (r : Result LoadError A) {f : A → Result LoadError B} {b : B}
    → (r >>= f) ≡ ok b
    → ((a : A) → r ≡ ok a → f a ≡ ok b → C)
    → C
bind_then r {f = f} {b = b} h k = let (a, is_a, rest) = bind-ok r f b h in k a is_a rest

pub at_least-le : (minimum n : ℕ) (value : Option ℤ) → at_least minimum value ≡ ok n → minimum ≤ n
unfolding at_least
at_least-le minimum n none h = ground (arith, h)
at_least-le minimum n (some (pos m)) h = ground (arith, h)
at_least-le minimum n (some (negsuc m)) h = ground (arith, h)

pub lifted-ok : {A : Type 0} (r : Result SettingsError A) (a : A) → lifted r ≡ ok a → r ≡ ok a
lifted-ok (ok b) a h = ap ok (ok-injective b a h)
lifted-ok (err e) a h = absurd (ground (arith, h))

in_range-bounds :
    (minimum maximum n : ℕ) (value : Option ℤ)
    → in_range minimum maximum value ≡ ok n
    → (minimum ≤ n) × (n ≤ maximum)
unfolding in_range
in_range-bounds minimum maximum n none h = ground (arith, h)
in_range-bounds minimum maximum n (some (pos m)) h = ground (arith, h)
in_range-bounds minimum maximum n (some (negsuc m)) h = ground (arith, h)

-- A number that was read lies in its range.
pub read_int-bounds :
    (env : Env) (raw : Option String) (default minimum maximum n : ℕ)
    → minimum ≤ default
    → default ≤ maximum
    → lifted (read_int env raw default minimum maximum) ≡ ok n
    → (minimum ≤ n) × (n ≤ maximum)
unfolding read_int
read_int-bounds env none default minimum maximum n least most h = ground (arith, h)
read_int-bounds env (some raw) default minimum maximum n least most h =
    elim (Bool-cases (raw == "")) [
      | inl blank ↦ ground (arith, h, blank)
      | inr set ↦
          in_range-bounds minimum maximum n (env.parse_int raw) (lifted-ok _ n (rw set at h))
    ]

pub read_int_from-le :
    (env : Env) (raw : Option String) (default minimum n : ℕ)
    → minimum ≤ default
    → lifted (read_int_from env raw default minimum) ≡ ok n
    → minimum ≤ n
unfolding read_int_from
read_int_from-le env none default minimum n least h = ground (arith, h)
read_int_from-le env (some raw) default minimum n least h = elim (Bool-cases (raw == "")) [
  | inl blank ↦ ground (arith, h, blank)
  | inr set ↦ at_least-le minimum n (env.parse_int raw) (lifted-ok _ n (rw set at h))
]

-- The numbers of an election, and how they relate.
pub record IsElection (s : LeaderElectionSettings) : Type 0 where
  pub lease_in :
      (5 ≤ s.leader_election_lease_duration_seconds)
      × (s.leader_election_lease_duration_seconds ≤ 120)
  pub renew_in :
      (2 ≤ s.leader_election_renew_deadline_seconds)
      × (s.leader_election_renew_deadline_seconds ≤ 119)
  pub retry_in :
      (1 ≤ s.leader_election_retry_period_seconds) × (s.leader_election_retry_period_seconds ≤ 60)
  pub renews_in_time :
      s.leader_election_renew_deadline_seconds < s.leader_election_lease_duration_seconds
  pub retries_in_time :
      s.leader_election_retry_period_seconds * 12 < s.leader_election_renew_deadline_seconds * 10

ok-lifted : {A : Type 0} (r : Result SettingsError A) (a : A) → r ≡ ok a → lifted r ≡ ok a
ok-lifted r a h = ap lifted h

pub load_leader_election_settings-IsElection :
    (env : Env) (settings : LeaderElectionSettings)
    → load_leader_election_settings env ≡ ok settings
    → IsElection settings
unfolding load_leader_election_settings get_int settings_of
load_leader_election_settings-IsElection env settings h =
    let (enabled, e, h₁) = bind-ok (get_bool env "LEADER_ELECTION_ENABLED" false) _ settings h in
    let (lease, is_lease, h₂) =
      bind-ok (get_int env "LEADER_ELECTION_LEASE_DURATION_SECONDS" 15 5 120) _ settings h₁ in
    let (renew, is_renew, h₃) =
      bind-ok (get_int env "LEADER_ELECTION_RENEW_DEADLINE_SECONDS" 10 2 119) _ settings h₂ in
    let (retry, is_retry, h₄) =
      bind-ok (get_int env "LEADER_ELECTION_RETRY_PERIOD_SECONDS" 2 1 60) _ settings h₃ in
    let (below, above, same) = checked-inv env enabled lease renew retry settings h₄ in
    subst IsElection same (record {
      lease_in =
          read_int-bounds env (env.getenv "LEADER_ELECTION_LEASE_DURATION_SECONDS") 15 5 120 lease
            (omega arith) (omega arith) (ok-lifted _ lease is_lease);
      renew_in =
          read_int-bounds env (env.getenv "LEADER_ELECTION_RENEW_DEADLINE_SECONDS") 10 2 119 renew
            (omega arith) (omega arith) (ok-lifted _ renew is_renew);
      retry_in =
          read_int-bounds env (env.getenv "LEADER_ELECTION_RETRY_PERIOD_SECONDS") 2 1 60 retry
            (omega arith) (omega arith) (ok-lifted _ retry is_retry);
      renews_in_time = below;
      retries_in_time = above;
    })
