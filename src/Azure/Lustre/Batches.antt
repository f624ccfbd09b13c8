-- ===== src/Azure/Lustre/Batches.antt =====
-- `_chunk_metric_names`: the batches of metric names that one request may ask for.
use azure_lustre_vmss_metric.Prelude.{
  ℕ, zero, suc, ◌≤◌, String, ◌≡◌, refl, ap, ◌∙◌, List, [], ◌∷◌, ◌++◌, nat_beq, arith, length, take,
  drop, concat, take-drop, length-take, length-drop, All, if◌then◌else◌,
}
use azure_lustre_vmss_metric.Prelude.Result.{Result, ok, err}

module _ {ℓ} {A : Type ℓ} where
  -- `[items[i : i + size] for i in range(0, len(items), size)]`
  unfoldable pub chunks : ℕ → ℕ → List A → List (List A)
  chunks zero size items = []
  chunks (suc fuel) size [] = []
  chunks (suc fuel) size (item ∷ items) =
      take size (item ∷ items) ∷ chunks fuel size (drop size (item ∷ items))

  -- `_chunk_metric_names`: there are no more chunks than items
  unfoldable pub chunk_metric_names : List A → ℕ → Result String (List (List A))
  unfolding chunks
  chunk_metric_names items size =
      if nat_beq size 0
      then err "chunk_size must be positive"
      else ok (chunks (length items) size items)

  concat-chunks :
      (fuel size : ℕ) (items : List A)
      → 1 ≤ size
      → length items ≤ fuel
      → concat (chunks fuel size items) ≡ items
  unfolding chunks
  concat-chunks zero size [] some_size enough = refl
  concat-chunks zero size (item ∷ items) some_size enough = absurd (omega (arith, enough))
  concat-chunks (suc fuel) size [] some_size enough = refl
  concat-chunks (suc fuel) size (item ∷ items) some_size enough =
      ap (◌++◌ (take size (item ∷ items))) (
        concat-chunks fuel size (drop size (item ∷ items)) some_size
          (omega (arith, enough, some_size, length-drop size (item ∷ items))))
      ∙ take-drop size (item ∷ items)

  -- A chunk is neither empty nor longer than allowed.
  abbrev Fits : ℕ → List A → Type 0
  Fits size chunk = (1 ≤ length chunk) × (length chunk ≤ size)

  chunks-Fits :
      (fuel size : ℕ) (items : List A) → 1 ≤ size → All (Fits size) (chunks fuel size items)
  unfolding chunks
  chunks-Fits zero size items some_size = tt
  chunks-Fits (suc fuel) size [] some_size = tt
  chunks-Fits (suc fuel) (suc size) (item ∷ items) some_size = (
    (omega arith, length-take (suc size) (item ∷ items)),
    chunks-Fits fuel (suc size) (drop (suc size) (item ∷ items)) some_size,
  )
  chunks-Fits (suc fuel) zero (item ∷ items) some_size = absurd (omega (arith, some_size))

  -- The batches hold the names, each once and in their order, and each batch holds at least one and
  -- at most as many as a request may ask for.
  pub chunk_metric_names_lem :
      (items : List A) (size : ℕ)
      → 1 ≤ size
      → (batches : List (List A)) × (chunk_metric_names items size ≡ ok batches)
        × (concat batches ≡ items)
        × All (λ batch. (1 ≤ length batch) × (length batch ≤ size)) batches
  unfolding chunk_metric_names
  chunk_metric_names_lem items size some_size = (
    chunks (length items) size items,
    ground (arith, some_size),
    concat-chunks (length items) size items some_size (omega arith),
    chunks-Fits (length items) size items some_size,
  )
