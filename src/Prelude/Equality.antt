-- ===== src/Prelude/Equality.antt =====
-- Python's `==` at the types that the program compares.
use Prim.Native.Nat.{ℕ}
use Prim.Native.String.{String}
use mathlib.Core.Path.{◌≡◌, refl}
use mathlib.Core.Logic.{◌↔◌, ◌≢◌}
use mathlib.Core.Bool.{Bool, true, false, ◌&&◌}
use mathlib.Core.Option.{Option, none, some}
use mathlib.Core.List.{List, [], ◌∷◌}
use native.Mathlib.Omega.{arith}
use text.Mathlib.Text.{◌==◌ as str_beq}
use text.Mathlib.TextEquality.{eq_iff}
use azure_lustre_vmss_metric.Prelude.Tests.{nat_beq, nat_beq_iff}

pub record Equatable {ℓ} (A : Type ℓ) : Type ℓ where
  pub equals : A → A → Bool
  pub equals_iff : (x y : A) → (equals x y ≡ true) ↔ (x ≡ y)

infix 50 ◌==◌
abbrev pub ◌==◌ {ℓ} : {A : Type ℓ} ⦃e : Equatable A⦄ → A → A → Bool
◌==◌ ⦃e⦄ = e.equals

module _ {ℓ} {A : Type ℓ} ⦃e : Equatable A⦄ where
  abbrev pub option_beq : Option A → Option A → Bool
  option_beq none none = true
  option_beq none (some b) = false
  option_beq (some a) none = false
  option_beq (some a) (some b) = a == b

  pub option_beq_iff : (x y : Option A) → (option_beq x y ≡ true) ↔ (x ≡ y)
  option_beq_iff none none = ground arith
  option_beq_iff none (some b) = ground arith
  option_beq_iff (some a) none = ground arith
  option_beq_iff (some a) (some b) = ground (arith, e.equals_iff a b)

  abbrev pub list_beq : List A → List A → Bool
  list_beq [] [] = true
  list_beq [] (b ∷ bs) = false
  list_beq (a ∷ as') [] = false
  list_beq (a ∷ as') (b ∷ bs) = a == b && list_beq as' bs

  pub list_beq_iff : (x y : List A) → (list_beq x y ≡ true) ↔ (x ≡ y)
  list_beq_iff [] [] = ground arith
  list_beq_iff [] (b ∷ bs) = ground arith
  list_beq_iff (a ∷ as') [] = ground arith
  list_beq_iff (a ∷ as') (b ∷ bs) = ground (arith, e.equals_iff a b, list_beq_iff as' bs)

instance abbrev pub string_eq : Equatable String
string_eq = record { equals = str_beq; equals_iff = eq_iff }

instance abbrev pub option_eq {ℓ} : {A : Type ℓ} ⦃e : Equatable A⦄ → Equatable (Option A)
option_eq = record { equals = option_beq; equals_iff = option_beq_iff }

instance abbrev pub list_eq {ℓ} : {A : Type ℓ} ⦃e : Equatable A⦄ → Equatable (List A)
list_eq = record { equals = list_beq; equals_iff = list_beq_iff }

instance abbrev pub nat_eq : Equatable ℕ
nat_eq = record { equals = nat_beq; equals_iff = nat_beq_iff }

pub beq_refl {ℓ} : {A : Type ℓ} ⦃e : Equatable A⦄ (a : A) → (a == a) ≡ true
beq_refl ⦃e⦄ a = (e.equals_iff a a).1 refl

pub differ_lem {ℓ} : {A : Type ℓ} ⦃e : Equatable A⦄ (a b : A) → (a == b) ≡ false → a ≢ b
differ_lem ⦃e⦄ a b differ same = ground (arith, (e.equals_iff a b).1 same, differ)

module _ {ℓ κ} {A : Type ℓ} {B : Type κ} ⦃e : Equatable A⦄ ⦃f : Equatable B⦄ where
  abbrev pub pair_beq : A × B → A × B → Bool
  pair_beq (a, b) (a', b') = a == a' && b == b'

  pub pair_beq_iff : (x y : A × B) → (pair_beq x y ≡ true) ↔ (x ≡ y)
  pair_beq_iff (a, b) (a', b') = ground (arith, e.equals_iff a a', f.equals_iff b b')

instance abbrev pub pair_eq {ℓ κ} :
    {A : Type ℓ} {B : Type κ} ⦃e : Equatable A⦄ ⦃f : Equatable B⦄ → Equatable (A × B)
pair_eq = record { equals = pair_beq; equals_iff = pair_beq_iff }
