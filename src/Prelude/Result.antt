-- ===== src/Prelude/Result.antt =====
-- A computation that returns a value or raises.
use mathlib.Core.Path.{◌≡◌, refl, ap, subst}
use mathlib.Core.List.{List, [], ◌∷◌}
use azure_lustre_vmss_metric.Prelude.Lists.{All}
use native.Mathlib.Omega.{arith}

pub data Result {ℓ κ} (E : Type ℓ) (A : Type κ) : Type (ℓ ⊔ κ) where
  ok : A → Result E A
  err : E → Result E A

infixl 5 ◌>>=◌
abbrev pub ◌>>=◌ {ℓ κ μ} :
    {E : Type ℓ} {A : Type κ} {B : Type μ} → Result E A → (A → Result E B) → Result E B
ok a >>= f = f a
err e >>= f = err e

-- What every result of `f` has, the result of a chain that ends with `f` has.
pub bind-returns {ℓ κ μ ν} :
    {E : Type ℓ} {A : Type κ} {B : Type μ} (P : B → Type ν) (r : Result E A) (f : A → Result E B)
    → ((a : A) (b : B) → f a ≡ ok b → P b)
    → (b : B) → (r >>= f) ≡ ok b
    → P b
bind-returns P (ok a) f each b h = each a b h
bind-returns P (err e) f each b h = absurd (ground (arith, h))

-- A chain that returns has returned at each link.
pub bind-ok {ℓ κ μ} :
    {E : Type ℓ} {A : Type κ} {B : Type μ} (r : Result E A) (f : A → Result E B) (b : B)
    → (r >>= f) ≡ ok b
    → (a : A) × (r ≡ ok a) × (f a ≡ ok b)
bind-ok (ok a) f b h = (a, refl, h)
bind-ok (err e) f b h = absurd (ground (arith, h))

-- `for x in xs: s = step(x, s)`, where a step may raise
abbrev pub fold {ℓ κ μ} :
    {E : Type ℓ} {A : Type κ} {S : Type μ} → (A → S → Result E S) → List A → S → Result E S
fold step [] s = ok s
fold step (x ∷ xs) s = step x s >>= λ s'. fold step xs s'

-- `[f(x) for x in xs]`, where `f` may raise
abbrev pub map_all {ℓ κ μ} :
    {E : Type ℓ} {A : Type κ} {B : Type μ} → (A → Result E B) → List A → Result E (List B)
map_all f [] = ok []
map_all f (x ∷ xs) = f x >>= λ y. map_all f xs >>= λ ys. ok (y ∷ ys)

abbrev value_of {ℓ κ} : {E : Type ℓ} {A : Type κ} → A → Result E A → A
value_of default (ok a) = a
value_of default (err e) = default

pub ok-injective {ℓ κ} :
    {E : Type ℓ} {A : Type κ} (a b : A) → ◌≡◌ {A = Result E A} (ok a) (ok b) → a ≡ b
ok-injective a b h = ap (value_of a) h

-- What every result of `f` has, every item of the list has.
pub map_all-All {ℓ κ μ} :
    {E : Type ℓ} {A : Type κ} {B : Type μ} (P : B → Type μ) (f : A → Result E B)
    → ((x : A) (y : B) → f x ≡ ok y → P y)
    → (xs : List A) (ys : List B) → map_all f xs ≡ ok ys
    → All P ys
map_all-All P f each [] ys h = subst (All P) (ok-injective [] ys h) tt
map_all-All P f each (x ∷ xs) ys h =
    let (y, first, more) = bind-ok (f x) (λ y. map_all f xs >>= λ ys. ok (y ∷ ys)) ys h in
    let (rest, later, last) = bind-ok (map_all f xs) (λ ys. ok (y ∷ ys)) ys more in
    subst (All P) (ok-injective (y ∷ rest) ys last)
      (each x y first, map_all-All P f each xs rest later)
