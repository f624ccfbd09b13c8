-- ===== src/Credentials.antt =====
-- `ResilientAzureCredential.get_token` of src/vmss_metrics_exporter/credentials.py.
--
-- A `Credential W T` stands for one of azure-identity's; `W` is the state of all of them. An error
-- is the text that is kept of it. The lock is held only to read or to set the cached credential,
-- and one thread is modelled.
pub mod Fallback
pub mod Chain
pub mod Choice
mod Examples
use azure_lustre_vmss_metric.Prelude.{String, Option, none, some, List, [], ◌∷◌, ◌++◌}
use azure_lustre_vmss_metric.Prelude.Result.{Result, ok, err}

pub record Credential (W T : Type 0) : Type 0 where
  pub name : String
  pub get_token : W → Result String T × W

pub record Resilient (W T : Type 0) : Type 0 where
  pub active : Option (Credential W T)
  pub credentials : List (Credential W T)

-- `ClientAuthenticationError` carries the name and the error of each credential that was tried.
abbrev pub ChainErrors : Type 0
ChainErrors = List (String × String)

module _ {W T : Type 0} where
  abbrev pub walked :
      Credential W T
      → ChainErrors
      → (ChainErrors → W → Result ChainErrors (T × Credential W T) × W)
      → Result String T × W
      → Result ChainErrors (T × Credential W T) × W
  walked cred errors next (ok token, w) = (ok (token, cred), w)
  walked cred errors next (err e, w) = next (errors ++ (cred.name, e) ∷ []) w

  -- The loop over the chain, with the errors so far.
  unfoldable pub walk :
      List (Credential W T) → ChainErrors → W → Result ChainErrors (T × Credential W T) × W
  walk [] errors w = (err errors, w)
  walk (cred ∷ rest) errors w = walked cred errors (walk rest) (cred.get_token w)

  -- The end of `get_token`: the credential that gave the token is cached.
  unfoldable pub settled :
      List (Credential W T)
      → Result ChainErrors (T × Credential W T) × W
      → Result ChainErrors T × Resilient W T × W
  settled chain (ok (token, cred), w) =
      (ok token, record { active = some cred; credentials = chain }, w)
  settled chain (err errors, w) = (err errors, record { active = none; credentials = chain }, w)

  unfoldable pub run_chain : List (Credential W T) → W → Result ChainErrors T × Resilient W T × W
  unfolding walk settled
  run_chain chain w = settled chain (walk chain [] w)

  -- The fast path: a token of the cached credential, or the chain.
  unfoldable pub from_active :
      Credential W T
      → List (Credential W T)
      → Result String T × W
      → Result ChainErrors T × Resilient W T × W
  unfolding run_chain
  from_active cred chain (ok token, w) =
      (ok token, record { active = some cred; credentials = chain }, w)
  from_active cred chain (err e, w) = run_chain chain w

  unfoldable pub start_from :
      Option (Credential W T) → List (Credential W T) → W → Result ChainErrors T × Resilient W T × W
  unfolding from_active run_chain
  start_from none chain w = run_chain chain w
  start_from (some cred) chain w = from_active cred chain (cred.get_token w)

  unfoldable pub get_token : Resilient W T → W → Result ChainErrors T × Resilient W T × W
  unfolding start_from
  get_token s w = start_from s.active s.credentials w
