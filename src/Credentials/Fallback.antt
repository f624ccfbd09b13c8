-- ===== src/Credentials/Fallback.antt =====
-- `get_token` gives the token of the first credential of the chain that has one.
use azure_lustre_vmss_metric.Prelude.{
  String, ◌≡◌, refl, Option, none, some, List, [], ◌∷◌, ◌++◌, ap, ◌∙◌, ◌⊎◌, inl, inr, subst, sym,
}
use azure_lustre_vmss_metric.Prelude.Result.{Result, ok, err}
use azure_lustre_vmss_metric.Credentials.{
  Credential, Resilient, ChainErrors, walked, walk, settled, run_chain, from_active, start_from,
  get_token,
}

-- The chain, tried in order from `w`, ends with a token of `cred` in `w'`, or with none of them.
pub data Tried {W T : Type 0}
    : List (Credential W T) → W → Result ChainErrors T → Option (Credential W T) → W → Type 0 where
  first :
      (cred : Credential W T) (rest : List (Credential W T)) (w w' : W) (token : T)
      → cred.get_token w ≡ (ok token, w')
      → Tried (cred ∷ rest) w (ok token) (some cred) w'
  nobody : (w : W) → Tried [] w (err []) none w
  missed :
      (cred : Credential W T) (rest : List (Credential W T)) (w w' w'' : W) (e : String) (token : T)
      (giver : Option (Credential W T))
      → cred.get_token w ≡ (err e, w')
      → Tried rest w' (ok token) giver w''
      → Tried (cred ∷ rest) w (ok token) giver w''
  all_missed :
      (cred : Credential W T) (rest : List (Credential W T)) (w w' w'' : W) (e : String)
      (errors : ChainErrors)
      → cred.get_token w ≡ (err e, w')
      → Tried rest w' (err errors) none w''
      → Tried (cred ∷ rest) w (err ((cred.name, e) ∷ errors)) none w''

-- What a walk with the errors `acc` so far comes to.
abbrev Walked :
    {W T : Type 0}
    → List (Credential W T)
    → ChainErrors
    → W
    → Result ChainErrors (T × Credential W T) × W
    → Type 0
Walked chain acc w (ok (token, cred), w') = Tried chain w (ok token) (some cred) w'
Walked {W = W} {T = T} chain acc w (err errors, w') =
    (more : ChainErrors) × (errors ≡ acc ++ more) × Tried {W = W} {T = T} chain w (err more) none w'

append-one :
    (acc more : ChainErrors) (e : String × String) → (acc ++ e ∷ []) ++ more ≡ acc ++ e ∷ more
append-one [] more e = refl
append-one (x ∷ acc) more e = ap (◌∷◌ x) (append-one acc more e)

append-none : (acc : ChainErrors) → acc ≡ acc ++ []
append-none [] = refl
append-none (x ∷ acc) = ap (◌∷◌ x) (append-none acc)

module _ {W T : Type 0} where
  missed-Walked :
      (cred : Credential W T) (rest : List (Credential W T)) (acc : ChainErrors) (w v : W)
      (e : String) (r : Result ChainErrors (T × Credential W T) × W)
      → cred.get_token w ≡ (err e, v)
      → Walked rest (acc ++ (cred.name, e) ∷ []) v r
      → Walked (cred ∷ rest) acc w r
  missed-Walked cred rest acc w v e (ok (token, c), w') is h =
      missed cred rest w v w' e token (some c) is h
  missed-Walked cred rest acc w v e (err errors, w') is (more, same, tried) = (
    (cred.name, e) ∷ more,
    same ∙ append-one acc more (cred.name, e),
    all_missed cred rest w v w' e more is tried,
  )

  step-Walked :
      (cred : Credential W T) (rest : List (Credential W T)) (acc : ChainErrors) (w : W)
      (r : Result String T × W)
      → cred.get_token w ≡ r
      → ((more : ChainErrors) (v : W) → Walked rest more v (walk rest more v))
      → Walked (cred ∷ rest) acc w (walked cred acc (walk rest) r)
  step-Walked cred rest acc w (ok token, v) is go = first cred rest w v token is
  step-Walked cred rest acc w (err e, v) is go =
      missed-Walked cred rest acc w v e (walk rest (acc ++ (cred.name, e) ∷ []) v) is
        (go (acc ++ (cred.name, e) ∷ []) v)

  walk-Walked :
      (chain : List (Credential W T)) (acc : ChainErrors) (w : W)
      → Walked chain acc w (walk chain acc w)
  unfolding walk
  walk-Walked [] acc w = ([], append-none acc, nobody w)
  walk-Walked (cred ∷ rest) acc w =
      step-Walked cred rest acc w (cred.get_token w) refl (walk-Walked rest)

  settled-Tried :
      (chain : List (Credential W T)) (w : W) (r : Result ChainErrors (T × Credential W T) × W)
      → Walked chain [] w r
      → let (reply, s, w') = settled chain r in Tried chain w reply s.active w'
  unfolding settled
  settled-Tried chain w (ok (token, cred), w') h = h
  settled-Tried chain w (err errors, w') (more, same, tried) =
      subst (λ es. Tried chain w (err es) none w') (sym same) tried

  run_chain-Tried :
      (chain : List (Credential W T)) (w : W)
      → let (reply, s, w') = run_chain chain w in Tried chain w reply s.active w'
  unfolding run_chain
  run_chain-Tried chain w = settled-Tried chain w (walk chain [] w) (walk-Walked chain [] w)

-- How a call comes to the chain: nothing is cached, or what is cached fails.
pub data Uncached {W T : Type 0} : Option (Credential W T) → W → W → Type 0 where
  empty : (w : W) → Uncached none w w
  broken :
      (cred : Credential W T) (w v : W) (e : String)
      → cred.get_token w ≡ (err e, v)
      → Uncached (some cred) w v

-- The cached credential gave the token and stays cached.
pub data Cached {W T : Type 0}
    : Option (Credential W T)
      → W
      → Result ChainErrors T
      → Option (Credential W T)
      → W
      → Type 0 where
  served :
      (cred : Credential W T) (w w' : W) (token : T)
      → cred.get_token w ≡ (ok token, w')
      → Cached (some cred) w (ok token) (some cred) w'

module _ {W T : Type 0} where
  from_active-cases :
      (cred : Credential W T) (chain : List (Credential W T)) (w : W) (r : Result String T × W)
      → cred.get_token w ≡ r
      → let (reply, s, w') = from_active cred chain r in
        Cached (some cred) w reply s.active w'
        ⊎ ((v : W) × Uncached (some cred) w v × Tried chain v reply s.active w')
  unfolding from_active
  from_active-cases cred chain w (ok token, w') is = inl (served cred w w' token is)
  from_active-cases cred chain w (err e, v) is =
      inr (v, broken cred w v e is, run_chain-Tried chain v)

  start_from-cases :
      (active : Option (Credential W T)) (chain : List (Credential W T)) (w : W)
      → let (reply, s, w') = start_from active chain w in
        Cached active w reply s.active w'
        ⊎ ((v : W) × Uncached active w v × Tried chain v reply s.active w')
  unfolding start_from
  start_from-cases none chain w = inr (w, empty w, run_chain-Tried chain w)
  start_from-cases (some cred) chain w = from_active-cases cred chain w (cred.get_token w) refl

  -- A call gives the token of the cached credential, or, where none is cached or the cached one
  -- fails, that of the first credential of the chain that has one, which is then cached. Only where
  -- every credential fails does it raise, with the name and the error of each in order, and nothing
  -- is cached.
  pub get_token_lem :
      (s : Resilient W T) (w : W)
      → let (reply, s', w') = get_token s w in
        Cached s.active w reply s'.active w'
        ⊎ ((v : W) × Uncached s.active w v × Tried s.credentials v reply s'.active w')
  unfolding get_token
  get_token_lem s w = start_from-cases s.active s.credentials w
