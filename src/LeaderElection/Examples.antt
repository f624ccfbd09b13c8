-- ===== src/LeaderElection/Examples.antt =====
-- A small cluster, and the theorems of the election applied to it.
use azure_lustre_vmss_metric.Prelude.{
  ℕ, ◌+◌, ◌-◌, ◌≤◌, ltb, ◌≡◌, ◌≢◌, ◌⊎◌, refl, Bool, true, false, Option, none, some, [], ◌∷◌, arith,
  if◌then◌else◌, differ_lem, string_eq,
}
use azure_lustre_vmss_metric.Prelude.Result.{Result, ok, err}
use azure_lustre_vmss_metric.LeaderElection.Config.{LeaderElectionConfig}
use azure_lustre_vmss_metric.LeaderElection.Lease.{
  Lease, LeaseBody, aware, lease_key, lease_duration_seconds, holder_identity, as_utc_datetime,
  resource_version, acquire_time, renew_time, lease_transitions,
}
use azure_lustre_vmss_metric.LeaderElection.Monad.{
  Api, ApiError, Election, returned, out_of_fuel, seconds,
}
use azure_lustre_vmss_metric.LeaderElection.Calls.{observe_lease, read_lease}
use azure_lustre_vmss_metric.LeaderElection.Acquire.{try_acquire_once, observed_lease_valid}
use azure_lustre_vmss_metric.LeaderElection.Loop.{run}
use azure_lustre_vmss_metric.LeaderElection.Clockwork.{Clockwork}
use azure_lustre_vmss_metric.LeaderElection.Supervisor.{
  Ended, load, returned as ended, raised, Runner, stopped, run_forever,
}
use azure_lustre_vmss_metric.LeaderElection.Takeover.{HeldByOther, try_acquire_once-respects}
use azure_lustre_vmss_metric.LeaderElection.Observation.{observe_all, observed_lease_valid-renewed}
use azure_lustre_vmss_metric.LeaderElection.Termination.{run_lem}
use azure_lustre_vmss_metric.LeaderElection.Backoff.{Environment, run_forever_lem}

-- The clock in ticks, the stored Lease, and how often the candidate waits before the stop event.
record Cluster : Type 0 where
  ticks : ℕ
  stored : Option Lease
  waits_left : ℕ

abbrev config : LeaderElectionConfig
config = record {
  lock_name = "exporter";
  lock_namespace = "monitoring";
  identity = "pod-a";
  lease_duration_seconds = 15;
  renew_deadline_seconds = 10;
  retry_period_seconds = 2;
}

abbrev read_stored : Option Lease → Result ApiError Lease
read_stored none = err (record { status = some 404 })
read_stored (some lease) = ok lease

abbrev stored_body : LeaseBody → Lease
stored_body body = record {
  resource_version = body.resource_version;
  holder = some body.holder_identity;
  duration = some body.lease_duration_seconds;
  transitions = some body.lease_transitions;
  acquired_at = none;
  renewed_at = some (aware body.renew_time 0);
}

abbrev write : LeaseBody → Cluster → Result ApiError (Option Lease) × Cluster
write body w = (ok (some (stored_body body)), record w { stored = some (stored_body body) })

abbrev wait : Cluster → Bool × Cluster
wait w = (
  if ltb 0 w.waits_left then false else true,
  record w { ticks = w.ticks + seconds 2; waits_left = w.waits_left - 1 },
)

abbrev api : Api Cluster (Unit {0})
api = record {
  read_namespaced_lease = λ c name namespace timeout w. (read_stored w.stored, w);
  create_namespaced_lease = λ c namespace body timeout w. write body w;
  replace_namespaced_lease = λ c name namespace body timeout w. write body w;
  coordination_api_factory = none;
  utcnow = λ w. (w.ticks, w);
  monotonic = λ w. (w.ticks, w);
  sleep = λ t w. record w { ticks = w.ticks + t };
  stop_now = λ w. (false, w);
  stop_within = λ t w. wait w;
  on_started_leading = λ w. (ok tt, w);
  on_stopped_leading = λ w. (ok tt, w);
}

-- The Lease of another candidate.
abbrev others : Lease
others = record {
  resource_version = some "7";
  holder = some "pod-b";
  duration = some 15;
  transitions = some 1;
  acquired_at = some (aware 3600 3600);
  renewed_at = some (aware 3605 3600);
}

abbrev start : Election Cluster (Unit {0})
start = record {
  world = record { ticks = 5; stored = some others; waits_left = 3 };
  client = tt;
  observed_key = none;
  observed_time_monotonic = 0;
  is_leader = false;
  stop_event = false;
}

other_holder : HeldByOther config others
unfolding holder_identity
other_holder = (differ_lem "pod-b" "" refl, differ_lem "pod-b" "pod-a" refl)

try_acquire_once-respects_example :
    (try_acquire_once api config start
      ≡ (returned false, observe_lease api config (some others) 5 start))
    ⊎ ((start.observed_key ≡ some (lease_key config others))
        × (start.observed_time_monotonic + seconds (lease_duration_seconds config others) ≤ 5))
unfolding read_lease lease_duration_seconds
try_acquire_once-respects_example =
    try_acquire_once-respects api config start others refl (omega arith) other_holder

clockwork : Clockwork api (λ w. w.waits_left) (λ w. w.ticks)
clockwork = record {
  read = λ c n k t w. omega arith;
  create = λ c k b t w. omega arith;
  replace = λ c n k b t w. omega arith;
  factory = λ f w e. ground (arith, e);
  utcnow = λ w. omega arith;
  monotonic = λ w. omega arith;
  monotonic_reads = λ w. refl;
  sleep = λ t w. omega arith;
  sleeps = λ t w. omega arith;
  stop_now = λ w. omega arith;
  stop_within = λ t w. omega arith;
  stop_nears = λ t w. ground arith;
  started = λ w. omega arith;
  stopped = λ w. omega arith;
}

run_lem_example :
    ((run api config 101 start).0 ≢ out_of_fuel) × ((run api config 101 start).1.is_leader ≡ false)
run_lem_example = run_lem api config clockwork 101 start (omega arith) (omega arith) (omega arith)

-- The other candidate's Lease is seen at 5 seconds, and again at 12 and at 20, and it is 26 now.
abbrev sighted : Election Cluster (Unit {0})
sighted =
    observe_all api config ((others, seconds 5) ∷ (others, seconds 12) ∷ (others, seconds 20) ∷ [])
      start

observed_lease_valid-renewed_example : lease_key config others ≡ lease_key config others
unfolding observe_all observe_lease observed_lease_valid seconds lease_key lease_duration_seconds
    resource_version holder_identity acquire_time renew_time lease_transitions as_utc_datetime
observed_lease_valid-renewed_example =
    observed_lease_valid-renewed api config 0 (seconds 26) ((others, seconds 5) ∷ [])
      ((others, seconds 20) ∷ []) others others (seconds 12) start (omega arith)
      (omega arith, (omega arith, (omega arith, tt))) refl refl (omega arith)

-- A supervisor whose elections fail, until the stop event is set in the third wait.
abbrev runner : Runner ℕ
runner = record {
  kube_config_loader = some (λ w. (Ended.returned, w));
  run_election = λ started stopped w. (raised, w);
  on_started_leading = λ w. (ended, w);
  on_stopped_leading = λ w. (ended, w);
  stop_now = λ w. (false, w);
  stop_within = λ seconds w. (if ltb 0 w then false else true, w - 1);
}

environment : Environment runner (λ w. w ≤ 2) (λ w. w)
unfolding load
environment = record {
  loads = λ w good. (good, omega arith);
  look = λ w good. (good, omega arith);
  elect = λ w good. (good, omega arith);
  wait = λ seconds w least most good. (omega arith, ground arith);
}

run_forever_lem_example : (w : ℕ) × (run_forever runner config 3 2 ≡ stopped w) × (w ≤ 2)
run_forever_lem_example =
    run_forever_lem runner config environment 3 2 (omega arith) (omega arith) (omega arith)
      (omega arith)
