-- ===== src/Prelude/Sorting.antt =====
-- Python's `sorted`, which is stable, as insertion.
use Prim.Native.Nat.{Ordering}
use Prim.Native.String.{String, compare}
use mathlib.Core.Path.{◌≡◌, refl}
use mathlib.Core.Bool.{Bool, true, false, ◌||◌}
use mathlib.Core.List.{List, [], ◌∷◌, map}
use native.Mathlib.Omega.{arith}
use azure_lustre_vmss_metric.Prelude.Tests.{if◌then◌else◌}
use azure_lustre_vmss_metric.Prelude.Equality.{Equatable, ◌==◌, string_eq, beq_refl}
use azure_lustre_vmss_metric.Prelude.Sets.{contains}

-- Python's `<=` on tuples of texts.
unfoldable pub tuple_le : List String → List String → Bool
tuple_le [] bs = true
tuple_le (a ∷ as') [] = false
tuple_le (a ∷ as') (b ∷ bs) = elim (compare a b) [
  | Ordering.lt ↦ true
  | Ordering.eq ↦ tuple_le as' bs
  | Ordering.gt ↦ false
]

pub tuple_le_refl : (as' : List String) → tuple_le as' as' ≡ true
unfolding tuple_le
tuple_le_refl [] = refl
tuple_le_refl (a ∷ as') = let same = beq_refl a in ground (arith, same, tuple_le_refl as')

module _ {ℓ} {A : Type ℓ} (le : A → A → Bool) where
  -- Before the first that is not below it.
  unfoldable pub insert_sorted : A → List A → List A
  insert_sorted x [] = x ∷ []
  insert_sorted x (y ∷ ys) =
      let rest = insert_sorted x ys in if le x y then x ∷ y ∷ ys else y ∷ rest

  unfoldable pub sorted : List A → List A
  unfolding insert_sorted
  sorted [] = []
  sorted (x ∷ xs) = insert_sorted x (sorted xs)

module _ {ℓ κ} {A : Type ℓ} {B : Type κ} ⦃e : Equatable B⦄ (le : A → A → Bool) (f : A → B) where
  contains-insert_sorted :
      (x : A) (xs : List A) (b : B)
      → contains (map f (insert_sorted le x xs)) b ≡ (f x == b || contains (map f xs) b)
  unfolding insert_sorted contains
  contains-insert_sorted x [] b = refl
  contains-insert_sorted x (y ∷ ys) b = ground (arith, contains-insert_sorted x ys b)

  pub contains-sorted :
      (xs : List A) (b : B) → contains (map f (sorted le xs)) b ≡ contains (map f xs) b
  unfolding sorted contains
  contains-sorted [] b = refl
  contains-sorted (x ∷ xs) b =
      ground (arith, contains-insert_sorted x (sorted le xs) b, contains-sorted xs b)
