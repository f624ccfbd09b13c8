-- ===== src/Prelude/Sets.antt =====
-- Python's `set` as a list that is read through `contains` only; order and repetition do not show.
use azure_lustre_vmss_metric.Prelude.Equality.{Equatable, ◌==◌}
use azure_lustre_vmss_metric.Prelude.Lists.{keep}
use mathlib.Core.Path.{◌≡◌, refl}
use mathlib.Core.Bool.{Bool, false, ◌&&◌, ◌||◌, not}
use mathlib.Core.List.{List, [], ◌∷◌, ◌++◌, map}
use azure_lustre_vmss_metric.Prelude.Tests.{if◌then◌else◌}
use native.Mathlib.Omega.{arith}

module _ {ℓ} {A : Type ℓ} ⦃e : Equatable A⦄ where
  unfoldable pub contains : List A → A → Bool
  contains [] a = false
  contains (x ∷ xs) a = x == a || contains xs a

  -- `xs - ys`
  unfoldable pub difference : List A → List A → List A
  unfolding contains
  difference xs ys = keep (λ x. not (contains ys x)) xs

  -- `xs | ys`
  unfoldable pub union : List A → List A → List A
  union xs ys = xs ++ ys

  pub contains-append :
      (xs ys : List A) (a : A) → contains (xs ++ ys) a ≡ (contains xs a || contains ys a)
  unfolding contains
  contains-append [] ys a = refl
  contains-append (x ∷ xs) ys a = ground (arith, contains-append xs ys a)

  pub contains-keep :
      (p : A → Bool) (xs : List A) (a : A) → contains (keep p xs) a ≡ (contains xs a && p a)
  unfolding contains
  contains-keep p [] a = refl
  contains-keep p (x ∷ xs) a = ground (arith, e.equals_iff x a, contains-keep p xs a)

  pub contains-difference :
      (xs ys : List A) (a : A)
      → contains (difference xs ys) a ≡ (contains xs a && not (contains ys a))
  unfolding difference
  contains-difference xs ys a = contains-keep (λ x. not (contains ys x)) xs a

-- A set of items that `f` tells apart.
module _ {ℓ κ} {A : Type ℓ} {B : Type κ} ⦃e : Equatable B⦄ (f : A → B) where
  unfoldable pub unique_by : List A → List A
  unfolding contains
  unique_by [] = []
  unique_by (x ∷ xs) =
      let rest = unique_by xs in if contains (map f rest) (f x) then rest else x ∷ rest

  pub contains-unique_by :
      (xs : List A) (b : B) → contains (map f (unique_by xs)) b ≡ contains (map f xs) b
  unfolding unique_by contains
  contains-unique_by [] b = refl
  contains-unique_by (x ∷ xs) b =
      ground (arith, contains-unique_by xs b, contains-unique_by xs (f x), e.equals_iff (f x) b)
