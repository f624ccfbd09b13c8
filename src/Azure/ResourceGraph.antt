-- ===== src/Azure/ResourceGraph.antt =====
-- src/vmss_metrics_exporter/azure_resource_graph.py: the retries of a query.
--
-- `Client W Q R F` stands for the Resource Graph client, `random.uniform` and `time.sleep`; `W` is
-- the state of all of it, `Q` are the requests and `R` the responses.
pub mod Retries
pub mod Rows
pub mod Paging
pub mod Collectors
mod Examples
use azure_lustre_vmss_metric.Prelude.{
  ℕ, zero, suc, ◌+◌, ◌^◌, Bool, true, false, ◌||◌, not, Option, none, some, List, [], ◌∷◌, nat_beq,
  nat_eq, leb, if◌then◌else◌,
}
use azure_lustre_vmss_metric.Prelude.Sets.{contains}
use azure_lustre_vmss_metric.Prelude.Number.{Floats, of_nat}
use azure_lustre_vmss_metric.Prelude.Result.{Result, ok, err}

-- An exception of the client: whether it is one of the two authentication errors, and the status
-- codes of its response and of itself.
pub record Failure : Type 0 where
  pub is_auth_error : Bool
  pub response_status : Option ℕ
  pub own_status : Option ℕ

-- `a or b` on optional numbers
unfoldable pub or_number : Option ℕ → Option ℕ → Option ℕ
or_number none b = b
or_number (some n) b = if nat_beq n 0 then b else some n

unfoldable pub is_transient : Option ℕ → Bool
unfolding contains
is_transient none = true
is_transient (some status) = contains (408 ∷ 409 ∷ 429 ∷ 500 ∷ 502 ∷ 503 ∷ 504 ∷ []) status

unfoldable pub is_retryable_exception : Failure → Bool
unfolding or_number is_transient
is_retryable_exception exc =
    if exc.is_auth_error then false else is_transient (or_number exc.response_status exc.own_status)

pub record Client (W Q R F : Type 0) : Type 0 where
  pub resources : Q → W → Result Failure R × W
  pub uniform : F → F → W → F × W
  pub sleep : F → W → W

pub data Reply (R : Type 0) : Type 0 where
  replied : R → Reply R
  failed : Failure → Reply R
  out_of_fuel : Reply R

module _ {W Q R F : Type 0} (floats : Floats F) (client : Client W Q R F) (base_delay : F) where
  open floats use {add, mul, lt}

  -- `min(base * 2**attempt, 30.0)` and the jitter
  unfoldable pub retry_delay : ℕ → W → F × W
  retry_delay attempt w =
      let backoff = mul base_delay (of_nat floats (2 ^ attempt)) in
      let most = of_nat floats 30 in
      let (jitter, w') = client.uniform (of_nat floats 0) base_delay w in
      (add (if lt most backoff then most else backoff) jitter, w')

  unfoldable pub pause : ℕ → W → W
  unfolding retry_delay
  pause attempt w = let (delay, w') = retry_delay attempt w in client.sleep delay w'

  -- After a call: answer, raise, or go on after a pause.
  unfoldable pub after_call : ℕ → ℕ → (W → Reply R × W) → Result Failure R → W → Reply R × W
  unfolding pause is_retryable_exception
  after_call max_retries attempt again (ok response) w = (replied response, w)
  after_call max_retries attempt again (err exc) w =
      if leb max_retries attempt || not (is_retryable_exception exc)
      then (failed exc, w)
      else again (pause attempt w)

  unfoldable pub execute_from : ℕ → ℕ → ℕ → Q → W → Reply R × W
  unfolding after_call
  execute_from zero max_retries attempt request w = (out_of_fuel, w)
  execute_from (suc fuel) max_retries attempt request w =
      let (result, w') = client.resources request w in
      after_call max_retries attempt (λ v. execute_from fuel max_retries (attempt + 1) request v)
        result w'

  -- `_execute_with_retry`
  unfoldable pub execute_with_retry : ℕ → ℕ → Q → W → Reply R × W
  unfolding execute_from
  execute_with_retry fuel max_retries request w = execute_from fuel max_retries 0 request w
