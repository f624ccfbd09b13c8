-- ===== src/Azure/ResourceGraph/Paging.antt =====
-- `_run_paged_query`: the pages of a query until a response has no skip token.
--
-- azure_managed_lustre.py has the same code.
use mathlib.Core.List.{append_assoc, append-nil}
use azure_lustre_vmss_metric.Prelude.{
  ℕ, zero, suc, ◌≤◌, String, ◌≡◌, refl, ap, sym, subst, ◌∙◌, true, false, Option, none, some, List,
  [], ◌∷◌, ◌++◌, if◌then◌else◌, arith, Bool-cases, inl, inr, length, concat,
}
use azure_lustre_vmss_metric.Prelude.Number.{Floats}
use azure_lustre_vmss_metric.Prelude.Result.{Result, ok, err}
use azure_lustre_vmss_metric.Azure.Value.{Value, sequence, nil, getattr, or_value, truthy, to_list}
use azure_lustre_vmss_metric.Azure.ResourceGraph.{Failure, Reply, replied, failed, out_of_fuel}

-- `build_query_request`: a falsy token is left out
pub record QueryRequest (F : Type 0) : Type 0 where
  pub subscriptions : List String
  pub query : String
  pub top : ℕ
  pub skip_token : Option (Value F)

-- A `TypeError` or a `ValueError`
abbrev pub plain_exception : Failure
plain_exception = record { is_auth_error = false; response_status = none; own_status = none }

module _ {F : Type 0} (floats : Floats F) where
  unfoldable pub build_query_request : List String → String → ℕ → Value F → QueryRequest F
  unfolding truthy
  build_query_request subscriptions query top skip_token = record {
    subscriptions = subscriptions;
    query = query;
    top = top;
    skip_token = if truthy floats skip_token then some skip_token else none;
  }

  abbrev list_of : Value F → Result String (List (Value F))
  list_of (sequence vs) = ok (to_list vs)
  list_of _ = err "TypeError"

  -- `getattr(response, "data", None) or []`, which must be a list
  unfoldable pub page_data : Value F → Result String (List (Value F))
  unfolding getattr or_value
  page_data response = list_of (or_value floats (getattr response "data") (sequence nil))

-- `fetch` is `_execute_with_retry` of the request that has the token.
module _ {W F : Type 0} (floats : Floats F) (fetch : Value F → W → Reply (Value F) × W) where
  abbrev Loop : Type 0
  Loop = Value F → List (Value F) → W → Reply (List (Value F)) × W

  abbrev after_data :
      Loop
      → List (Value F)
      → Value F
      → Result String (List (Value F))
      → W
      → Reply (List (Value F)) × W
  after_data again rows token (err e) w = (failed plain_exception, w)
  after_data again rows token (ok page) w =
      if truthy floats token then again token (rows ++ page) w else (replied (rows ++ page), w)

  abbrev after_fetch : Loop → List (Value F) → Reply (Value F) → W → Reply (List (Value F)) × W
  after_fetch again rows out_of_fuel w = (out_of_fuel, w)
  after_fetch again rows (failed exc) w = (failed exc, w)
  after_fetch again rows (replied response) w =
      after_data again rows (getattr response "skip_token") (page_data floats response) w

  unfoldable pub run_pages : ℕ → Loop
  unfolding page_data truthy getattr
  run_pages zero token rows w = (out_of_fuel, w)
  run_pages (suc fuel) token rows w =
      let (reply, w') = fetch token w in after_fetch (run_pages fuel) rows reply w'

  -- The pages from a token on: each is fetched with the token of the one before, and the last has
  -- none.
  pub data IsPaged : Value F → W → List (List (Value F)) → W → Type 0 where
    last :
        {token : Value F} {w : W} (response : Value F) (page : List (Value F)) (w' : W)
        → fetch token w ≡ (replied response, w')
        → page_data floats response ≡ ok page
        → truthy floats (getattr response "skip_token") ≡ false
        → IsPaged token w (page ∷ []) w'
    more :
        {token : Value F} {w : W} (response : Value F) (page : List (Value F)) (w' : W)
        {pages : List (List (Value F))} {v : W}
        → fetch token w ≡ (replied response, w')
        → page_data floats response ≡ ok page
        → truthy floats (getattr response "skip_token") ≡ true
        → IsPaged (getattr response "skip_token") w' pages v
        → IsPaged token w (page ∷ pages) v

  fetched-page :
      (fuel : ℕ) (token : Value F) (rows : List (Value F)) (w : W) (response : Value F)
      (page : List (Value F)) (w' : W)
      → fetch token w ≡ (replied response, w')
      → page_data floats response ≡ ok page
      → run_pages (suc fuel) token rows w ≡ (
          let next = getattr response "skip_token" in
          if truthy floats next
          then run_pages fuel next (rows ++ page) w'
          else (replied (rows ++ page), w'))
  unfolding run_pages
  fetched-page fuel token rows w response page w' fetched read =
      ap (λ r. after_fetch (run_pages fuel) rows r.0 r.1) fetched
      ∙ ap (λ d. after_data (run_pages fuel) rows (getattr response "skip_token") d w') read

  -- With fuel for its pages, a query returns their rows, in the order of the pages.
  pub run_pages_complete :
      (fuel : ℕ) {token : Value F} {w v : W} {pages : List (List (Value F))} (rows : List (Value F))
      → length pages ≤ fuel
      → IsPaged token w pages v
      → run_pages fuel token rows w ≡ (replied (rows ++ concat pages), v)
  run_pages_complete zero rows enough (last response page w' fetched read done) =
      absurd (omega (arith, enough))
  run_pages_complete zero rows enough (more response page w' fetched read token later) =
      absurd (omega (arith, enough))
  run_pages_complete (suc fuel) rows enough (last response page w' fetched read done) =
      fetched-page fuel _ rows _ response page w' fetched read ∙ rw (done, append-nil page) refl
  run_pages_complete (suc fuel) {v = end} rows enough
        (more response page w' {pages = pages} fetched read token later) =
      fetched-page fuel _ rows _ response page w' fetched read
      ∙ rw token (
          run_pages_complete fuel (rows ++ page) (omega (arith, enough)) later
          ∙ ap (λ (all_rows : List (Value F)). (replied all_rows, end))
              (append_assoc rows page (concat pages)))

  -- What a query has returned.
  abbrev Returned : Value F → List (Value F) → W → List (Value F) → W → Type 0
  Returned token rows w all_rows v =
      (pages : List (List (Value F))) × IsPaged token w pages v × (all_rows ≡ rows ++ concat pages)

  after_data-Returned :
      (again : Loop) (token : Value F) (rows : List (Value F)) (w : W) (response : Value F) (w' : W)
      (d : Result String (List (Value F))) (all_rows : List (Value F)) (v : W)
      → fetch token w ≡ (replied response, w')
      → page_data floats response ≡ d
      → ((next : Value F) (rs : List (Value F)) (u : W)
          → again next rs u ≡ (replied all_rows, v)
          → Returned next rs u all_rows v)
      → after_data again rows (getattr response "skip_token") d w' ≡ (replied all_rows, v)
      → Returned token rows w all_rows v
  after_data-Returned again token rows w response w' (err e) all_rows v fetched read later h =
      absurd (ground (arith, h))
  after_data-Returned again token rows w response w' (ok page) all_rows v fetched read later h =
      elim (Bool-cases (truthy floats (getattr response "skip_token"))) [
        | inl is ↦
            let go = rw is at h in
            let (pages, paged, all_of) =
              later (getattr response "skip_token") (rows ++ page) w' go in
            (
              page ∷ pages,
              more response page w' fetched read is paged,
              all_of ∙ append_assoc rows page (concat pages),
            )
        | inr isnt ↦
            let same = rw isnt at h in
            let (rows_same, w_same) : (all_rows ≡ rows ++ page) × (w' ≡ v) = ground (arith, same) in
            (
              page ∷ [],
              subst (IsPaged token w (page ∷ [])) w_same (last response page w' fetched read isnt),
              rows_same ∙ ap (◌++◌ rows) (sym (append-nil page)),
            )
      ]

  after_fetch-Returned :
      (again : Loop) (token : Value F) (rows : List (Value F)) (w : W) (reply : Reply (Value F))
      (w' : W) (all_rows : List (Value F)) (v : W)
      → fetch token w ≡ (reply, w')
      → ((next : Value F) (rs : List (Value F)) (u : W)
          → again next rs u ≡ (replied all_rows, v)
          → Returned next rs u all_rows v)
      → after_fetch again rows reply w' ≡ (replied all_rows, v)
      → Returned token rows w all_rows v
  after_fetch-Returned again token rows w out_of_fuel w' all_rows v fetched later h =
      absurd (ground (arith, h))
  after_fetch-Returned again token rows w (failed exc) w' all_rows v fetched later h =
      absurd (ground (arith, h))
  after_fetch-Returned again token rows w (replied response) w' all_rows v fetched later h =
      after_data-Returned again token rows w response w' (page_data floats response) all_rows v
        fetched refl later h

  -- What a query returns are the rows of its pages, which it read from the first to the one without
  -- a token.
  pub run_pages_sound :
      (fuel : ℕ) (token : Value F) (rows : List (Value F)) (w : W) (all_rows : List (Value F))
      (v : W)
      → run_pages fuel token rows w ≡ (replied all_rows, v)
      → (pages : List (List (Value F))) × IsPaged token w pages v
        × (all_rows ≡ rows ++ concat pages)
  unfolding run_pages
  run_pages_sound zero token rows w all_rows v h = absurd (ground (arith, h))
  run_pages_sound (suc fuel) token rows w all_rows v h =
      after_fetch-Returned (run_pages fuel) token rows w (fetch token w).0 (fetch token w).1
        all_rows v refl (λ next rs u. run_pages_sound fuel next rs u all_rows v) h
