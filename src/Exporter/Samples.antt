-- ===== src/Exporter/Samples.antt =====
-- What a list of samples makes of a series, when each item of a collection writes one sample.
use azure_lustre_vmss_metric.Prelude.{
  ◌≡◌, refl, true, Option, none, some, List, [], ◌∷◌, map, ◌==◌, string_eq, list_eq, if◌then◌else◌,
  All-mono, arith, beq_refl, subst,
}
use azure_lustre_vmss_metric.Prelude.Sets.{contains}
use azure_lustre_vmss_metric.Models.Vmss.{Labels}
use azure_lustre_vmss_metric.Exporter.Family.{
  Write, put, Sample, set_or_remove, set_if_some, after_write, after_samples, Covers,
}

-- The last item with the labels `l`, whose sample wins.
unfoldable pub last_with : {A : Type 0} → (A → Labels) → List A → Labels → Option A
last_with f [] l = none
last_with f (x ∷ xs) l = elim (last_with f xs l) [
  | none ↦ if f x == l then some x else none
  | some y ↦ some y
]

-- The label values of the items.
pub Covers-own :
    {N F : Type 0} (samples : List (Sample N F)) → Covers (map (λ s. s.0) samples) samples
unfolding contains
Covers-own [] = tt
Covers-own {N = N} {F = F} (s ∷ rest) = (
  rw (beq_refl s.0),
  All-mono (λ t. contains (map (λ s. s.0) rest) t.0 ≡ true)
      (λ t. contains (map (λ s. s.0) (s ∷ rest)) t.0 ≡ true) rest (λ t h. ground (arith, h))
      (Covers-own rest),
)

pub Covers-labels :
    {N F : Type 0} (new : List Labels) (samples : List (Sample N F))
    → map (λ s. s.0) samples ≡ new
    → Covers new samples
Covers-labels new samples e = subst (λ ls. Covers ls samples) e (Covers-own samples)

-- What the last sample for a series leaves.
unfoldable pub last_or : {A F : Type 0} → (A → Option F) → Option A → Option F → Option F
last_or v none old = old
last_or v (some x) old = v x

-- The last value that the items with the labels `l` have.
unfoldable pub last_value :
    {A F : Type 0} → (A → Option F) → (A → Labels) → List A → Labels → Option F
last_value v f [] l = none
last_value v f (x ∷ xs) l = elim (last_value v f xs l) [
  | none ↦ if f x == l then v x else none
  | some y ↦ some y
]

unfoldable pub value_or : {F : Type 0} → Option F → Option F → Option F
value_or none old = old
value_or (some v) old = some v

after_write-set_if_some :
    {F : Type 0} (v old : Option F) → after_write (set_if_some v) old ≡ value_or v old
unfolding after_write set_if_some value_or
after_write-set_if_some none old = refl
after_write-set_if_some (some v) old = refl

after_write-set_or_remove : {F : Type 0} (v old : Option F) → after_write (set_or_remove v) old ≡ v
unfolding after_write set_or_remove
after_write-set_or_remove none old = refl
after_write-set_or_remove (some v) old = refl

-- Labels that no item has show nothing of an old value.
pub last_or-stale :
    {A F : Type 0} (v : A → Option F) (f : A → Labels) (xs : List A) (l : Labels) (old : Option F)
    → last_or v (last_with f xs l) (if contains (map f xs) l then old else none)
      ≡ last_or v (last_with f xs l) none
unfolding last_or last_with contains
last_or-stale v f [] l old = refl
last_or-stale v f (x ∷ xs) l old = ground (arith, last_or-stale v f xs l old)

pub put-set_or_remove : {F : Type 0} (v : F) → put v ≡ set_or_remove (some v)
unfolding set_or_remove
put-set_or_remove v = refl

module _ {A N F : Type 0} (f : A → Labels) (w : A → N → Write F) where
  abbrev pub samples_of : List A → List (Sample N F)
  samples_of xs = map (λ x. (f x, w x)) xs

  -- A gauge that every sample sets or removes shows what the last sample for the series says.
  pub after_samples-last :
      (v : A → Option F) (xs : List A) (n : N) (l : Labels) (old : Option F)
      → ((x : A) → w x n ≡ set_or_remove (v x))
      → after_samples (samples_of xs) n l old ≡ last_or v (last_with f xs l) old
  unfolding after_samples last_with last_or
  after_samples-last v [] n l old h = refl
  after_samples-last v (x ∷ xs) n l old h = ground (
    arith,
    h x,
    after_write-set_or_remove (v x) old,
    after_samples-last v xs n l (v x) h,
    after_samples-last v xs n l old h,
  )

  -- A gauge that a sample sets only where there is a value shows the last value there is.
  pub after_samples-latest :
      (v : A → Option F) (xs : List A) (n : N) (l : Labels) (old : Option F)
      → ((x : A) → w x n ≡ set_if_some (v x))
      → after_samples (samples_of xs) n l old ≡ value_or (last_value v f xs l) old
  unfolding after_samples last_value value_or
  after_samples-latest v [] n l old h = refl
  after_samples-latest v (x ∷ xs) n l old h = ground (
    arith,
    h x,
    after_write-set_if_some (v x) old,
    after_samples-latest v xs n l (value_or (v x) old) h,
    after_samples-latest v xs n l old h,
  )
