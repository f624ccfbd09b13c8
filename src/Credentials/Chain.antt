-- ===== src/Credentials/Chain.antt =====
-- src/vmss_metrics_exporter/credentials.py: which credentials `ResilientAzureCredential` tries.
--
-- `Identity C` stands for the constructors of azure-identity, which read the environment; `C` is
-- what they build, and an error is the text kept of it. `lower` is `str.lower`.
use azure_lustre_vmss_metric.Prelude.{
  String, Bool, true, false, not, Option, none, some, List, [], ◌∷◌, ◌++◌, map, keep, all, ◌==◌,
  string_eq, if◌then◌else◌,
}
use azure_lustre_vmss_metric.Prelude.Dict.{Dict, lookup, insert, remove}
use azure_lustre_vmss_metric.Prelude.Text.{replace, strip}
use azure_lustre_vmss_metric.Prelude.Result.{Result, ok, err}
use azure_lustre_vmss_metric.Credentials.{Credential, Resilient}

abbrev pub Environ : Type 0
Environ = Dict String String

pub data AuthMode : Type 0 where
  auto service_principal workload_identity : AuthMode

pub data ChainError : Type 0 where
  unsupported_auth_mode : String → ChainError
  missing_env_vars : List String → ChainError
  not_constructed : String → ChainError
  no_credentials : ChainError

-- The value of a keyword argument.
pub data Argument : Type 0 where
  flag : Bool → Argument
  client_id : String → Argument

abbrev pub Arguments : Type 0
Arguments = Dict String Argument

pub record Identity (C : Type 0) : Type 0 where
  pub default_azure_credential : Arguments → Environ → Result String C
  pub workload_identity_credential : Environ → Result String C

abbrev pub workload_identity_env_vars : List String
workload_identity_env_vars =
    "AZURE_CLIENT_ID" ∷ "AZURE_TENANT_ID" ∷ "AZURE_FEDERATED_TOKEN_FILE" ∷ []

abbrev pub service_principal_env_vars : List String
service_principal_env_vars = "AZURE_CLIENT_ID" ∷ "AZURE_TENANT_ID" ∷ "AZURE_CLIENT_SECRET" ∷ []

abbrev pub sp_only_dac_exclude_kwargs : Arguments
sp_only_dac_exclude_kwargs =
    ("exclude_workload_identity_credential", flag true)
    ∷ ("exclude_managed_identity_credential", flag true)
    ∷ ("exclude_shared_token_cache_credential", flag true)
    ∷ ("exclude_visual_studio_code_credential", flag true)
    ∷ ("exclude_cli_credential", flag true)
    ∷ ("exclude_developer_cli_credential", flag true)
    ∷ ("exclude_powershell_credential", flag true)
    ∷ ("exclude_interactive_browser_credential", flag true)
    ∷ ("exclude_broker_credential", flag true)
    ∷ []

-- `_MI_TO_WI_TRIGGER_ENV_VARS` has this one name.
abbrev pub mi_to_wi_trigger_env_var : String
mi_to_wi_trigger_env_var = "AZURE_FEDERATED_TOKEN_FILE"

-- `bool(os.getenv(name))`
abbrev pub has_text : Option String → Bool
has_text none = false
has_text (some value) = not (value == "")

unfoldable pub is_set : Environ → String → Bool
unfolding lookup
is_set environ name = has_text (lookup name environ)

unfoldable pub missing_names : Environ → List String → List String
unfolding is_set
missing_names environ names = keep (λ name. not (is_set environ name)) names

unfoldable pub auth_mode_of : String → Result ChainError AuthMode
auth_mode_of value =
    if value == "auto"
    then ok auto
    else if value == "service_principal"
    then ok service_principal
    else if value == "workload_identity"
    then ok workload_identity
    else err (unsupported_auth_mode value)

abbrev or_auto : Option String → String
or_auto none = "auto"
or_auto (some value) = value

unfoldable pub requested_auth_mode : (String → String) → Environ → Result ChainError AuthMode
unfolding auth_mode_of lookup strip replace
requested_auth_mode lower environ =
    auth_mode_of
      (replace "-" "_" (lower (strip (or_auto (lookup "VMSS_METRICS_AUTH_MODE" environ)))))

-- `os.environ.update(saved)`, for what was popped of one variable
abbrev pub restored : Option String → Environ → Environ
restored none environ = environ
restored (some value) environ = insert mi_to_wi_trigger_env_var value environ

-- `_force_imds_managed_identity`: `body` runs without the variable, which is back when it is left,
-- also by an exception.
unfoldable pub force_imds_managed_identity {ℓ} :
    {R : Type ℓ} → (Environ → R) → Environ → R × Environ
unfolding lookup insert remove
force_imds_managed_identity body environ =
    let cleared = remove mi_to_wi_trigger_env_var environ in
    (body cleared, restored (lookup mi_to_wi_trigger_env_var environ) cleared)

abbrev pub is_auto : AuthMode → Bool
is_auto auto = true
is_auto service_principal = false
is_auto workload_identity = false

abbrev pub is_service_principal : AuthMode → Bool
is_service_principal auto = false
is_service_principal service_principal = true
is_service_principal workload_identity = false

abbrev pub is_workload_identity : AuthMode → Bool
is_workload_identity auto = false
is_workload_identity service_principal = false
is_workload_identity workload_identity = true

abbrev client_id_argument : Option String → Arguments
client_id_argument none = []
client_id_argument (some value) =
    if value == "" then [] else ("managed_identity_client_id", client_id value) ∷ []

-- `dac_kwargs`
unfoldable pub dac_kwargs : AuthMode → Environ → Arguments
unfolding lookup
dac_kwargs mode environ =
    ("exclude_workload_identity_credential", flag true)
    ∷ ((if is_workload_identity mode
          then ("exclude_environment_credential", flag true) ∷ []
          else [])
        ++ client_id_argument (lookup "AZURE_CLIENT_ID" environ))

abbrev pub Chain : Type 0 → Type 0
Chain C = List (String × C)

module _ {C : Type 0} where
  -- a credential that is kept where its construction succeeds, or may fail
  abbrev pub kept : Bool → String → Result String C → Result ChainError (Chain C)
  kept explicit name (ok credential) = ok ((name, credential) ∷ [])
  kept true name (err e) = err (not_constructed e)
  kept false name (err e) = ok []

  abbrev pub service_principal_chain :
      Identity C → AuthMode → Environ → Bool → Result ChainError (Chain C)
  service_principal_chain identity mode environ true =
      kept (is_service_principal mode) "service-principal"
        (identity.default_azure_credential sp_only_dac_exclude_kwargs environ)
  service_principal_chain identity mode environ false =
      err (missing_env_vars (missing_names environ service_principal_env_vars))

  -- the workload identity, where its variables are set
  abbrev pub workload_identity_chain :
      Identity C → AuthMode → Environ → Bool → Result ChainError (Chain C)
  workload_identity_chain identity mode environ true =
      kept (is_workload_identity mode) "workload-identity"
        (identity.workload_identity_credential environ)
  workload_identity_chain identity mode environ false =
      if is_workload_identity mode
      then err (missing_env_vars (missing_names environ workload_identity_env_vars))
      else ok []

  -- the last step, which never raises
  abbrev pub with_default : Chain C → Result String C → Chain C
  with_default chain (ok credential) = chain ++ ("default-azure-credential", credential) ∷ []
  with_default chain (err e) = chain

  abbrev pub fallback :
      Identity C
      → AuthMode
      → Environ
      → Result ChainError (Chain C)
      → Result ChainError (Chain C) × Environ
  fallback identity mode environ (err e) = (err e, environ)
  fallback identity mode environ (ok chain) =
      let (built, environ') =
        force_imds_managed_identity (identity.default_azure_credential (dac_kwargs mode environ))
          environ in
      (ok (with_default chain built), environ')

  abbrev pub by_mode :
      Identity C → Environ → Result ChainError AuthMode → Result ChainError (Chain C) × Environ
  by_mode identity environ (err e) = (err e, environ)
  by_mode identity environ (ok auto) =
      if all (is_set environ) service_principal_env_vars
      then (service_principal_chain identity auto environ true, environ)
      else fallback identity auto environ (
          workload_identity_chain identity auto environ
            (all (is_set environ) workload_identity_env_vars))
  by_mode identity environ (ok service_principal) = (
    service_principal_chain identity service_principal environ
        (all (is_set environ) service_principal_env_vars),
    environ,
  )
  by_mode identity environ (ok workload_identity) = fallback identity workload_identity environ (
      workload_identity_chain identity workload_identity environ
        (all (is_set environ) workload_identity_env_vars))

  unfoldable pub build_credential_chain :
      Identity C → (String → String) → Environ → Result ChainError (Chain C) × Environ
  unfolding requested_auth_mode missing_names is_set force_imds_managed_identity dac_kwargs
  build_credential_chain identity lower environ =
      by_mode identity environ (requested_auth_mode lower environ)

-- What a construction builds: `get_token`.
abbrev pub Built : Type 0 → Type 0 → Type 0
Built W T = W → Result String T × W

module _ {W T : Type 0} where
  abbrev pub credential_of : String × Built W T → Credential W T
  credential_of (name, get_token) = record { name = name; get_token = get_token }

  abbrev pub checked_chain :
      Result ChainError (Chain (Built W T)) → Result ChainError (Resilient W T)
  checked_chain (err e) = err e
  checked_chain (ok []) = err no_credentials
  checked_chain (ok (c ∷ chain)) =
      ok (record { active = none; credentials = map credential_of (c ∷ chain) })

  -- `ResilientAzureCredential.__init__`
  unfoldable pub init :
      Identity (Built W T)
      → (String → String)
      → Environ
      → Result ChainError (Resilient W T) × Environ
  unfolding build_credential_chain
  init identity lower environ =
      let (chain, environ') = build_credential_chain identity lower environ in
      (checked_chain chain, environ')
