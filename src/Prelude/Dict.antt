-- ===== src/Prelude/Dict.antt =====
-- Python's `dict`, in insertion order.
use mathlib.Core.Logic.{inl, inr}
use azure_lustre_vmss_metric.Prelude.Tests.{if◌then◌else◌, Bool-cases}
use azure_lustre_vmss_metric.Prelude.Equality.{Equatable, ◌==◌}
use mathlib.Core.Path.{◌≡◌, refl}
use mathlib.Core.Option.{Option, none, some}
use mathlib.Core.List.{List, [], ◌∷◌}
use native.Mathlib.Omega.{arith}

abbrev pub Dict {ℓ κ} : Type ℓ → Type κ → Type (ℓ ⊔ κ)
Dict K V = List (K × V)

module _ {ℓ κ} {K : Type ℓ} {V : Type κ} ⦃e : Equatable K⦄ where
  -- `d.get(k)`
  unfoldable pub lookup : K → Dict K V → Option V
  lookup k [] = none
  lookup k ((j, v) ∷ d) = if j == k then some v else lookup k d

  -- `d[k] = v`
  unfoldable pub insert : K → V → Dict K V → Dict K V
  insert k v [] = (k, v) ∷ []
  insert k v ((j, w) ∷ d) = if j == k then (j, v) ∷ d else (j, w) ∷ insert k v d

  -- `d.pop(k, None)`
  unfoldable pub remove : K → Dict K V → Dict K V
  remove k [] = []
  remove k ((j, w) ∷ d) = let rest = remove k d in if j == k then rest else (j, w) ∷ rest

  pub lookup-insert :
      (k j : K) (v : V) (d : Dict K V)
      → lookup j (insert k v d) ≡ (if k == j then some v else lookup j d)
  unfolding lookup insert
  lookup-insert k j v [] = refl
  lookup-insert k j v ((i, w) ∷ d) =
      ground (arith, e.equals_iff k j, e.equals_iff i k, e.equals_iff i j, lookup-insert k j v d)

  pub lookup-remove :
      (k j : K) (d : Dict K V) → lookup j (remove k d) ≡ (if k == j then none else lookup j d)
  unfolding lookup remove
  lookup-remove k j [] = ground arith
  lookup-remove k j ((i, w) ∷ d) =
      ground (arith, e.equals_iff k j, e.equals_iff i k, e.equals_iff i j, lookup-remove k j d)

  -- No key stands twice.
  abbrev pub Distinct : Dict K V → Type (ℓ ⊔ κ)
  Distinct [] = Unit
  Distinct (entry ∷ d) = (lookup entry.0 d ≡ none) × Distinct d

  pub insert-Distinct : (k : K) (v : V) (d : Dict K V) → Distinct d → Distinct (insert k v d)
  unfolding insert lookup
  insert-Distinct k v [] h = (refl, tt)
  insert-Distinct k v ((j, w) ∷ d) h = elim (Bool-cases (j == k)) [
    | inl is ↦ rw is h
    | inr isnt ↦ rw isnt (
      ground (arith, e.equals_iff j k, e.equals_iff k j, lookup-insert k j v d, h.0),
      insert-Distinct k v d h.1,
    )
  ]

  pub ruleset dict_laws = (lookup-insert, lookup-remove)
