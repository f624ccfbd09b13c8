-- ===== src/Credentials/Examples.antt =====
-- A workload identity that fails, and a managed identity that has a token.
use azure_lustre_vmss_metric.Prelude.{
  ℕ, ◌+◌, String, ◌≡◌, refl, ◌⊎◌, none, some, [], ◌∷◌, string_eq,
}
use azure_lustre_vmss_metric.Prelude.Result.{ok, err}
use azure_lustre_vmss_metric.Credentials.{Credential, Resilient, get_token}
use azure_lustre_vmss_metric.Prelude.Dict.{lookup}
use azure_lustre_vmss_metric.Credentials.Chain.{
  Environ, AuthMode, missing_env_vars, Identity, requested_auth_mode, Built, init,
}
use azure_lustre_vmss_metric.Credentials.Choice.{Chosen, init-lookup, init-Chosen}
use azure_lustre_vmss_metric.Credentials.Fallback.{Cached, Uncached, Tried, get_token_lem}

-- The state is the number of requests.
abbrev workload : Credential ℕ String
workload = record { name = "workload-identity"; get_token = λ w. (err "bad assertion", w + 1) }

abbrev managed : Credential ℕ String
managed = record { name = "default-azure-credential"; get_token = λ w. (ok "token", w + 1) }

abbrev resilient : Resilient ℕ String
resilient = record { active = some workload; credentials = workload ∷ managed ∷ [] }

falls_back : get_token resilient 0 ≡ (ok "token", record resilient { active = some managed }, 3)
unfolding get_token
falls_back = refl

get_token_lem_example :
    let (reply, s, w) = get_token resilient 0 in
    Cached (some workload) 0 reply s.active w
    ⊎ ((v : ℕ) × Uncached (some workload) 0 v × Tried (workload ∷ managed ∷ []) v reply s.active w)
get_token_lem_example = get_token_lem resilient 0

-- A pod with a workload identity, whose managed identity sees the client's id.
abbrev pod : Environ
pod =
    ("AZURE_CLIENT_ID", "client")
    ∷ ("AZURE_FEDERATED_TOKEN_FILE", "/var/run/token")
    ∷ ("AZURE_TENANT_ID", "tenant")
    ∷ []

abbrev identity : Identity (Built ℕ String)
identity = record {
  default_azure_credential = λ arguments environ. ok managed.get_token;
  workload_identity_credential = λ environ. ok workload.get_token;
}

abbrev constructed : Resilient ℕ String
constructed = record { active = none; credentials = workload ∷ managed ∷ [] }

init-pod : (init identity (λ word. word) pod).0 ≡ ok constructed
unfolding init
init-pod = refl

-- A mode that names the service principal is refused where its secret is missing.
init-service_principal :
    (init identity (λ word. word) (("VMSS_METRICS_AUTH_MODE", "service-principal") ∷ pod)).0
    ≡ err (missing_env_vars ("AZURE_CLIENT_SECRET" ∷ []))
unfolding init
init-service_principal = refl

init-Chosen_example :
    (mode : AuthMode) × (requested_auth_mode (λ word. word) pod ≡ ok mode)
    × Chosen identity pod mode constructed.credentials
    × (constructed.active ≡ none)
unfolding init
init-Chosen_example = init-Chosen identity (λ word. word) pod constructed refl

init-lookup_example :
    lookup "AZURE_FEDERATED_TOKEN_FILE" (init identity (λ word. word) pod).1
    ≡ lookup "AZURE_FEDERATED_TOKEN_FILE" pod
init-lookup_example = init-lookup identity (λ word. word) pod "AZURE_FEDERATED_TOKEN_FILE"
