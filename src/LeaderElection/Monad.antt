-- ===== src/LeaderElection/Monad.antt =====
-- The state of a `_LeaseElection`, the environment that it calls, and its methods' effects.
--
-- `Api W C` stands for what is not the program's: the Kubernetes client `C`, the two clocks, the
-- waits on the stop event, which another thread may set, and the callbacks of the caller. `W` is
-- the state of all of it. Monotonic times are in ticks, `seconds` of which make a second.
use azure_lustre_vmss_metric.Prelude.{ℕ, ◌*◌, String, Bool, Option}
use azure_lustre_vmss_metric.Prelude.Result.{Result, ok, err}
use azure_lustre_vmss_metric.LeaderElection.Lease.{Lease, LeaseBody, LeaseKey}

-- An exception of the client; `status` is the HTTP status that it carries, if it has one.
pub record ApiError : Type 0 where
  pub status : Option ℕ

unfoldable pub api_status : ApiError → Option ℕ
api_status exc = exc.status

unfoldable pub seconds : ℕ → ℕ
seconds n = n * 1000000000

abbrev pub Timeout : Type 0
Timeout = ℕ × ℕ

pub record Api (W C : Type 0) : Type 0 where
  -- name, namespace, request timeout
  pub read_namespaced_lease : C → String → String → Timeout → W → Result ApiError Lease × W
  pub create_namespaced_lease :
      C → String → LeaseBody → Timeout → W → Result ApiError (Option Lease) × W
  pub replace_namespaced_lease :
      C → String → String → LeaseBody → Timeout → W → Result ApiError (Option Lease) × W
  pub coordination_api_factory : Option (W → Result ApiError C × W)
  pub utcnow : W → ℕ × W
  pub monotonic : W → ℕ × W
  pub sleep : ℕ → W → W
  -- whether another thread has set the stop event: now, and within so many ticks
  pub stop_now : W → Bool × W
  pub stop_within : ℕ → W → Bool × W
  pub on_started_leading : W → Result ApiError (Unit {0}) × W
  pub on_stopped_leading : W → Result ApiError (Unit {0}) × W

pub record Election (W C : Type 0) : Type 0 where
  pub world : W
  pub client : C
  pub observed_key : Option LeaseKey
  pub observed_time_monotonic : ℕ
  pub is_leader : Bool
  pub stop_event : Bool

-- How a method ends. `out_of_fuel` is an unfinished loop of the model, not an exception.
pub data Outcome (A : Type 0) : Type 0 where
  returned : A → Outcome A
  raised : ApiError → Outcome A
  out_of_fuel : Outcome A

abbrev pub M : Type 0 → Type 0 → Type 0 → Type 0
M W C A = Election W C → Outcome A × Election W C

abbrev pub to_outcome : {A : Type 0} → Result ApiError A → Outcome A
to_outcome (ok a) = returned a
to_outcome (err e) = raised e

module _ {W C A : Type 0} where
  abbrev pub pure : A → M W C A
  pure a s = (returned a, s)

  abbrev pub raise : ApiError → M W C A
  raise e s = (raised e, s)

  abbrev pub gets : (Election W C → A) → M W C A
  gets f s = (returned (f s), s)

  -- a call of the environment that cannot fail, and one that may
  abbrev pub ask : (W → A × W) → M W C A
  ask f s = let (a, w) = f s.world in (returned a, record s { world = w })

  abbrev pub call : (W → Result ApiError A × W) → M W C A
  call f s = let (r, w) = f s.world in (to_outcome r, record s { world = w })

  abbrev pub handle : Outcome A → (ApiError → M W C A) → M W C A
  handle (returned a) h s = (returned a, s)
  handle (raised e) h s = h e s
  handle out_of_fuel h s = (out_of_fuel, s)

  -- `try: m except Exception as e: h e`
  abbrev pub catch : M W C A → (ApiError → M W C A) → M W C A
  catch m h s = let (r, s') = m s in handle r h s'

module _ {W C : Type 0} where
  abbrev pub modify : (Election W C → Election W C) → M W C (Unit {0})
  modify f s = (returned tt, f s)

module _ {W C A B : Type 0} where
  abbrev pub continue : Outcome A → (A → M W C B) → M W C B
  continue (returned a) f s = f a s
  continue (raised e) f s = (raised e, s)
  continue out_of_fuel f s = (out_of_fuel, s)

  infixl 5 ◌>>=◌ ◌>>◌
  abbrev pub ◌>>=◌ : M W C A → (A → M W C B) → M W C B
  ◌>>=◌ m f s = let (r, s') = m s in continue r f s'

  abbrev pub ◌>>◌ : M W C A → M W C B → M W C B
  m >> n = m >>= λ _. n

module _ {W C A : Type 0} where
  abbrev pub finish : Outcome A → M W C (Unit {0}) → M W C A
  finish (returned a) n s = (n >> pure a) s
  finish (raised e) n s = (n >> raise e) s
  finish out_of_fuel n s = (out_of_fuel, s)

  -- `try: m finally: n`
  abbrev pub finally : M W C A → M W C (Unit {0}) → M W C A
  finally m n s = let (r, s') = m s in finish r n s'
