-- ===== src/Azure/ResourceGraph/Retries.antt =====
-- A query is answered, or given up for a reason, after a bounded number of calls.
use azure_lustre_vmss_metric.Prelude.{ℕ, ◌+◌, ◌≤◌, ◌≡◌, false}
use azure_lustre_vmss_metric.Prelude.Number.{Floats}
use azure_lustre_vmss_metric.Prelude.Result.{Result}
use azure_lustre_vmss_metric.Azure.ResourceGraph.{
  Client, Failure, Reply, replied, failed, is_retryable_exception,
}

-- How a query ends after `calls` calls of at most `limit`: with an answer, with an exception that
-- is not worth a retry, or with the exception of the last call.
pub data IsEnding {R : Type 0} (limit calls : ℕ) : Reply R → Type 0 where
  answers : (response : R) → calls ≤ limit → IsEnding limit calls (replied response)
  gives_up :
      (exc : Failure)
      → is_retryable_exception exc ≡ false
      → calls ≤ limit
      → IsEnding limit calls (failed exc)
  exhausts : (exc : Failure) → calls ≡ limit → IsEnding limit calls (failed exc)

-- `calls` counts the calls of the client: a query is one, a pause is none.
pub record Counts {W Q R F : Type 0} (client : Client W Q R F) (calls : W → ℕ) : Type 0 where
  pub counted : (q : Q) (w : W) → calls (client.resources q w).1 ≡ calls w + 1
  pub drawn : (a b : F) (w : W) → calls (client.uniform a b w).1 ≡ calls w
  pub slept : (t : F) (w : W) → calls (client.sleep t w) ≡ calls w

module _ {W Q R F : Type 0} (floats : Floats F) (client : Client W Q R F) (base_delay : F)
    {calls : W → ℕ} (counts : Counts client calls) where
  -- What is left of a query: `limit` calls at most.
  abbrev Ends : ℕ → ℕ → Reply R × W → Type 0
  Ends limit start (reply, w) = (n : ℕ) × (calls w ≡ start + n) × IsEnding limit n reply
