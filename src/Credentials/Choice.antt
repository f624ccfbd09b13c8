-- ===== src/Credentials/Choice.antt =====
-- Which chain the mode and the environment choose, and what the choice leaves of the environment.
use azure_lustre_vmss_metric.Prelude.{
  String, ◌≡◌, refl, subst, Bool, true, false, ◌&&◌, Option, none, some, List, [], ◌∷◌, map, all,
  string_eq, if◌then◌else◌, arith, Bool-cases, inl, inr,
}
use azure_lustre_vmss_metric.Prelude.Dict.{lookup, remove, lookup-insert, lookup-remove}
use azure_lustre_vmss_metric.Prelude.Result.{Result, ok, err, ok-injective}
use azure_lustre_vmss_metric.Credentials.{Credential, Resilient}
use azure_lustre_vmss_metric.Credentials.Chain.{
  Environ, AuthMode, auto, service_principal, workload_identity, ChainError, Identity,
  workload_identity_env_vars, service_principal_env_vars, sp_only_dac_exclude_kwargs,
  mi_to_wi_trigger_env_var, is_set, requested_auth_mode, restored, force_imds_managed_identity,
  is_auto, is_service_principal, is_workload_identity, dac_kwargs, Chain, kept, with_default,
  fallback, by_mode, build_credential_chain, Built, credential_of, checked_chain, init,
}

-- What was popped is back: every variable reads as before.
restored-lookup :
    (environ : Environ) (name : String) (saved : Option String)
    → lookup mi_to_wi_trigger_env_var environ ≡ saved
    → lookup name (restored saved (remove mi_to_wi_trigger_env_var environ)) ≡ lookup name environ
restored-lookup environ name none h = ground (
  arith,
  lookup-remove mi_to_wi_trigger_env_var name environ,
  string_eq.equals_iff mi_to_wi_trigger_env_var name,
)
restored-lookup environ name (some value) h = ground (
  arith,
  lookup-remove mi_to_wi_trigger_env_var name environ,
  lookup-insert mi_to_wi_trigger_env_var name value (remove mi_to_wi_trigger_env_var environ),
  string_eq.equals_iff mi_to_wi_trigger_env_var name,
)

force_imds_managed_identity-lookup :
    {R : Type 0} (body : Environ → R) (environ : Environ) (name : String)
    → lookup name (force_imds_managed_identity body environ).1 ≡ lookup name environ
unfolding force_imds_managed_identity
force_imds_managed_identity-lookup body environ name =
    restored-lookup environ name (lookup mi_to_wi_trigger_env_var environ) refl

module _ {W T : Type 0} (identity : Identity (Built W T)) where
  fallback-lookup :
      (mode : AuthMode) (environ : Environ) (chain : Result ChainError (Chain (Built W T)))
      (name : String)
      → lookup name (fallback identity mode environ chain).1 ≡ lookup name environ
  fallback-lookup mode environ (err e) name = refl
  fallback-lookup mode environ (ok chain) name =
      force_imds_managed_identity-lookup
        (identity.default_azure_credential (dac_kwargs mode environ)) environ name

  by_mode-lookup :
      (environ : Environ) (mode : Result ChainError AuthMode) (name : String)
      → lookup name (by_mode identity environ mode).1 ≡ lookup name environ
  by_mode-lookup environ (err e) name = refl
  by_mode-lookup environ (ok auto) name =
      elim (Bool-cases (all (is_set environ) service_principal_env_vars)) [
        | inl complete ↦ rw complete
        | inr incomplete ↦ rw incomplete (fallback-lookup auto environ _ name)
      ]
  by_mode-lookup environ (ok service_principal) name = refl
  by_mode-lookup environ (ok workload_identity) name =
      fallback-lookup workload_identity environ _ name

  module _ (lower : String → String) where
    -- Every variable of the environment reads after the construction as before it, also where the
    -- construction raises.
    pub init-lookup :
        (environ : Environ) (name : String)
        → lookup name (init identity lower environ).1 ≡ lookup name environ
    unfolding init build_credential_chain
    init-lookup environ name = by_mode-lookup environ (requested_auth_mode lower environ) name

  -- The last credential, if it can be constructed: with the arguments of the mode, where the
  -- variable that would turn a managed identity into a workload identity is not set.
  pub data Fallback (mode : AuthMode) (environ : Environ) : List (Credential W T) → Type 0 where
    no_default :
        (e : String)
        → identity.default_azure_credential
            (dac_kwargs mode environ)
            (remove mi_to_wi_trigger_env_var environ)
          ≡ err e
        → Fallback mode environ []
    default_azure :
        (get_token : Built W T)
        → identity.default_azure_credential
            (dac_kwargs mode environ)
            (remove mi_to_wi_trigger_env_var environ)
          ≡ ok get_token
        → Fallback mode environ
            (record { name = "default-azure-credential"; get_token = get_token } ∷ [])

  pub data NoWorkload (environ : Environ) : Type 0 where
    not_given : all (is_set environ) workload_identity_env_vars ≡ false → NoWorkload environ
    not_built :
        (e : String) → identity.workload_identity_credential environ ≡ err e → NoWorkload environ

  pub data Chosen (environ : Environ) : AuthMode → List (Credential W T) → Type 0 where
    only_service_principal :
        (mode : AuthMode) (get_token : Built W T)
        → is_workload_identity mode ≡ false
        → all (is_set environ) service_principal_env_vars ≡ true
        → identity.default_azure_credential sp_only_dac_exclude_kwargs environ ≡ ok get_token
        → Chosen environ mode (record { name = "service-principal"; get_token = get_token } ∷ [])
    workload_identity_first :
        (mode : AuthMode) (get_token : Built W T) (rest : List (Credential W T))
        → is_service_principal mode ≡ false
        → (is_auto mode && all (is_set environ) service_principal_env_vars) ≡ false
        → all (is_set environ) workload_identity_env_vars ≡ true
        → identity.workload_identity_credential environ ≡ ok get_token
        → Fallback mode environ rest
        → Chosen environ mode (record { name = "workload-identity"; get_token = get_token } ∷ rest)
    only_default :
        (last : Credential W T)
        → all (is_set environ) service_principal_env_vars ≡ false
        → NoWorkload environ
        → Fallback auto environ (last ∷ [])
        → Chosen environ auto (last ∷ [])

  abbrev joined :
      Result ChainError (Chain (Built W T))
      → Result String (Built W T)
      → Result ChainError (Chain (Built W T))
  joined (err e) built = err e
  joined (ok chain) built = ok (with_default chain built)

  fallback-joined :
      (mode : AuthMode) (environ : Environ) (chain : Result ChainError (Chain (Built W T)))
      → (fallback identity mode environ chain).0
        ≡ joined chain (
            identity.default_azure_credential
              (dac_kwargs mode environ)
              (remove mi_to_wi_trigger_env_var environ))
  unfolding force_imds_managed_identity
  fallback-joined mode environ (err e) = refl
  fallback-joined mode environ (ok chain) = refl

  -- Where there is no credential of a workload identity, the mode is `auto`.
  default-Chosen :
      (environ : Environ) (built : Result String (Built W T)) (c : String × Built W T)
      (chain : Chain (Built W T))
      → all (is_set environ) service_principal_env_vars ≡ false
      → NoWorkload environ
      → identity.default_azure_credential
          (dac_kwargs auto environ)
          (remove mi_to_wi_trigger_env_var environ)
        ≡ built
      → with_default [] built ≡ c ∷ chain
      → Chosen environ auto (map credential_of (c ∷ chain))
  default-Chosen environ (ok g) c chain incomplete without is h =
      subst (λ l. Chosen environ auto (map credential_of l)) h
        (only_default _ incomplete without (default_azure g is))
  default-Chosen environ (err e) c chain incomplete without is h = absurd (ground (arith, h))

  workload-Chosen :
      (mode : AuthMode) (environ : Environ) (g : Built W T) (built : Result String (Built W T))
      (chain : Chain (Built W T))
      → is_service_principal mode ≡ false
      → (is_auto mode && all (is_set environ) service_principal_env_vars) ≡ false
      → all (is_set environ) workload_identity_env_vars ≡ true
      → identity.workload_identity_credential environ ≡ ok g
      → identity.default_azure_credential
          (dac_kwargs mode environ)
          (remove mi_to_wi_trigger_env_var environ)
        ≡ built
      → with_default (("workload-identity", g) ∷ []) built ≡ chain
      → Chosen environ mode (map credential_of chain)
  workload-Chosen mode environ g (ok d) chain explicit incomplete complete is is_default h =
      subst (λ l. Chosen environ mode (map credential_of l)) h
        (workload_identity_first mode g _ explicit incomplete complete is
          (default_azure d is_default))
  workload-Chosen mode environ g (err e) chain explicit incomplete complete is is_default h =
      subst (λ l. Chosen environ mode (map credential_of l)) h
        (workload_identity_first mode g _ explicit incomplete complete is (no_default e is_default))

  auto-Chosen :
      (environ : Environ) (all_set : Bool) (r : Result String (Built W T)) (c : String × Built W T)
      (chain : Chain (Built W T))
      → all (is_set environ) service_principal_env_vars ≡ false
      → all (is_set environ) workload_identity_env_vars ≡ all_set
      → identity.workload_identity_credential environ ≡ r
      → joined (if all_set then kept false "workload-identity" r else ok []) (
          identity.default_azure_credential
            (dac_kwargs auto environ)
            (remove mi_to_wi_trigger_env_var environ))
        ≡ ok (c ∷ chain)
      → Chosen environ auto (map credential_of (c ∷ chain))
  auto-Chosen environ true (ok g) c chain incomplete complete is h =
      workload-Chosen auto environ g _ (c ∷ chain) refl incomplete complete is refl
        (ok-injective _ _ h)
  auto-Chosen environ true (err e) c chain incomplete complete is h =
      default-Chosen environ _ c chain incomplete (not_built e is) refl (ok-injective _ _ h)
  auto-Chosen environ false r c chain incomplete complete is h =
      default-Chosen environ _ c chain incomplete (not_given complete) refl (ok-injective _ _ h)

  explicit-Chosen :
      (environ : Environ) (r : Result String (Built W T)) (chain : Chain (Built W T))
      → all (is_set environ) workload_identity_env_vars ≡ true
      → identity.workload_identity_credential environ ≡ r
      → joined (kept true "workload-identity" r) (
          identity.default_azure_credential
            (dac_kwargs workload_identity environ)
            (remove mi_to_wi_trigger_env_var environ))
        ≡ ok chain
      → Chosen environ workload_identity (map credential_of chain)
  explicit-Chosen environ (ok g) chain complete is h =
      workload-Chosen workload_identity environ g _ chain refl refl complete is refl
        (ok-injective _ _ h)
  explicit-Chosen environ (err e) chain complete is h = absurd (ground (arith, h))

  service-Chosen :
      (mode : AuthMode) (environ : Environ) (r : Result String (Built W T))
      (chain : Chain (Built W T)) (c : String × Built W T)
      → is_workload_identity mode ≡ false
      → all (is_set environ) service_principal_env_vars ≡ true
      → identity.default_azure_credential sp_only_dac_exclude_kwargs environ ≡ r
      → kept (is_service_principal mode) "service-principal" r ≡ ok (c ∷ chain)
      → Chosen environ mode (map credential_of (c ∷ chain))
  service-Chosen mode environ (ok g) chain c explicit complete is h =
      subst (λ l. Chosen environ mode (map credential_of l)) (ok-injective _ _ h)
        (only_service_principal mode g explicit complete is)
  service-Chosen auto environ (err e) chain c explicit complete is h =
      absurd (ground (arith, ok-injective _ _ h))
  service-Chosen service_principal environ (err e) chain c explicit complete is h =
      absurd (ground (arith, h))
  service-Chosen workload_identity environ (err e) chain c explicit complete is h =
      absurd (ground (arith, explicit))

  by_mode-Chosen :
      (mode : AuthMode) (environ : Environ) (c : String × Built W T) (chain : Chain (Built W T))
      → (by_mode identity environ (ok mode)).0 ≡ ok (c ∷ chain)
      → Chosen environ mode (map credential_of (c ∷ chain))
  by_mode-Chosen auto environ c chain h =
      elim (Bool-cases (all (is_set environ) service_principal_env_vars)) [
        | inl complete ↦ service-Chosen auto environ _ chain c refl complete refl (rw complete at h)
        | inr incomplete ↦ elim (Bool-cases (all (is_set environ) workload_identity_env_vars)) [
          | inl given ↦
              auto-Chosen environ true _ c chain incomplete given refl
                (rw (incomplete, given, fallback-joined) at h)
          | inr missing ↦
              auto-Chosen environ false _ c chain incomplete missing refl
                (rw (incomplete, missing, fallback-joined) at h)
        ]
      ]
  by_mode-Chosen service_principal environ c chain h =
      elim (Bool-cases (all (is_set environ) service_principal_env_vars)) [
        | inl complete ↦
            service-Chosen service_principal environ _ chain c refl complete refl (rw complete at h)
        | inr incomplete ↦ absurd (ground (arith, rw incomplete at h))
      ]
  by_mode-Chosen workload_identity environ c chain h =
      elim (Bool-cases (all (is_set environ) workload_identity_env_vars)) [
        | inl given ↦
            explicit-Chosen environ _ (c ∷ chain) given refl (rw (given, fallback-joined) at h)
        | inr missing ↦ absurd (ground (arith, rw missing at h))
      ]

  checked-Chosen :
      (environ : Environ) (mode : Result ChainError AuthMode)
      (chain : Result ChainError (Chain (Built W T))) (s : Resilient W T)
      → (by_mode identity environ mode).0 ≡ chain
      → checked_chain chain ≡ ok s
      → (m : AuthMode) × (mode ≡ ok m) × Chosen environ m s.credentials × (s.active ≡ none)
  checked-Chosen environ mode (err e) s is h = absurd (ground (arith, h))
  checked-Chosen environ mode (ok []) s is h = absurd (ground (arith, h))
  checked-Chosen environ (err e) (ok (c ∷ chain)) s is h = absurd (ground (arith, is))
  checked-Chosen environ (ok m) (ok (c ∷ chain)) s is h =
      let same = ok-injective _ _ h in
      (
        m,
        refl,
        subst (λ (t : Resilient W T). Chosen environ m t.credentials) same
            (by_mode-Chosen m environ c chain is),
        subst (λ (t : Resilient W T). t.active ≡ none) same refl,
      )

  -- The chain of a credential that is constructed is that of the mode asked for, and none of it is
  -- cached. In the mode of a service principal, or in `auto` where its variables are all set, it is
  -- the service principal alone. Otherwise the workload identity comes first, which `auto` leaves
  -- out only where its variables are not all set or it cannot be built, and the default credential
  -- follows if it can be built, with the variable cleared that would turn its managed identity into
  -- a workload identity.
  pub init-Chosen :
      (lower : String → String) (environ : Environ) (s : Resilient W T)
      → (init identity lower environ).0 ≡ ok s
      → (mode : AuthMode) × (requested_auth_mode lower environ ≡ ok mode)
        × Chosen environ mode s.credentials
        × (s.active ≡ none)
  unfolding init build_credential_chain
  init-Chosen lower environ s h =
      checked-Chosen environ (requested_auth_mode lower environ) _ s refl h
