-- ===== src/Scripts/Shards.antt =====
-- scripts/av_lustre_workload.py: which files a pod processes.
use azure_lustre_vmss_metric.Prelude.{
  ℕ, zero, suc, ◌+◌, ◌%◌, ◌<◌, ltb, leb, nat_beq, String, ◌≡◌, refl, ap, fun_ext, ◌∙◌, Bool, true,
  List, [], ◌∷◌, if◌then◌else◌, arith, length, keep,
}
use azure_lustre_vmss_metric.Prelude.Number.{ℤ, pos, negsuc}
use azure_lustre_vmss_metric.Prelude.Result.{Result, ok, err}
use native.Mathlib.Nat.{mod-lt, zero-lt-suc}

pub record FileEntry : Type 0 where
  pub path : String
  pub size : ℕ
  pub bucket : String

abbrev bucket_of : ℕ → ℕ → ℕ → ℕ → String
bucket_of small_max medium_max large_max size =
    if leb size small_max
    then "small"
    else if leb size medium_max
    then "medium"
    else if leb size large_max
    then "large"
    else "xlarge"

-- `classify_size` with its limits
unfoldable pub classify_size : ℕ → ℕ → ℕ → ℤ → Result String String
classify_size small_max medium_max large_max (negsuc n) = err "size_bytes must be non-negative"
classify_size small_max medium_max large_max (pos size) =
    ok (bucket_of small_max medium_max large_max size)

module _ {ℓ} {A : Type ℓ} where
  -- `[entry for index, entry in enumerate(entries) if index % pod_count == pod_index]`, from an index
  -- on
  unfoldable pub shard_from : ℕ → ℕ → ℕ → List A → List A
  shard_from index pod_count pod_index [] = []
  shard_from index pod_count pod_index (entry ∷ entries) =
      let rest = shard_from (suc index) pod_count pod_index entries in
      if nat_beq (index % pod_count) pod_index then entry ∷ rest else rest

  unfoldable pub shard_files : List A → ℤ → ℤ → Result String (List A)
  unfolding shard_from
  shard_files entries pod_index (negsuc n) = err "pod_count must be positive"
  shard_files entries pod_index (pos zero) = err "pod_count must be positive"
  shard_files entries (negsuc k) (pos (suc n)) =
      err "pod_index must satisfy 0 <= pod_index < pod_count"
  shard_files entries (pos k) (pos (suc n)) =
      if ltb k (suc n)
      then ok (shard_from 0 (suc n) k entries)
      else err "pod_index must satisfy 0 <= pod_index < pod_count"

-- The sum of `f` over the first `n` pods
unfoldable pub sum_over : ℕ → (ℕ → ℕ) → ℕ
sum_over zero f = 0
sum_over (suc n) f = f n + sum_over n f

sum_over-add : (n : ℕ) (f g : ℕ → ℕ) → sum_over n (λ k. f k + g k) ≡ sum_over n f + sum_over n g
unfolding sum_over
sum_over-add zero f g = refl
sum_over-add (suc n) f g = omega (arith, sum_over-add n f g)

sum_over-zero : (n : ℕ) → sum_over n (λ k. 0) ≡ 0
unfolding sum_over
sum_over-zero zero = refl
sum_over-zero (suc n) = omega (arith, sum_over-zero n)

-- An index belongs to exactly one pod.
sum_over-one :
    (n i c : ℕ) → sum_over n (λ k. if nat_beq i k then c else 0) ≡ (if ltb i n then c else 0)
unfolding sum_over
sum_over-one zero i c = ground arith
sum_over-one (suc n) i c = ground (arith, sum_over-one n i c)

module _ {ℓ} {A : Type ℓ} (p : A → Bool) where
  abbrev how_many : List A → ℕ
  how_many xs = length (keep p xs)

  shard_from-step :
      (i n k : ℕ) (x : A) (xs : List A)
      → how_many (shard_from i n k (x ∷ xs))
        ≡ (if nat_beq (i % n) k then how_many (x ∷ []) else 0)
          + how_many (shard_from (suc i) n k xs)
  unfolding shard_from
  shard_from-step i n k x xs = ground arith

  shard_from-partition :
      (i n : ℕ) (xs : List A)
      → sum_over (suc n) (λ k. how_many (shard_from i (suc n) k xs)) ≡ how_many xs
  unfolding shard_from
  shard_from-partition i n [] = sum_over-zero (suc n)
  shard_from-partition i n (x ∷ xs) =
      let first = λ (k : ℕ). if nat_beq (i % suc n) k then how_many (x ∷ []) else 0 in
      let rest = λ (k : ℕ). how_many (shard_from (suc i) (suc n) k xs) in
      let below : i % suc n < suc n = mod-lt i (zero-lt-suc n) in
      ap (sum_over (suc n)) (fun_ext (λ k. shard_from-step i (suc n) k x xs))
      ∙ sum_over-add (suc n) first rest
      ∙ ap (λ m. m + sum_over (suc n) rest) (sum_over-one (suc n) (i % suc n) (how_many (x ∷ [])))
      ∙ ap (λ m. (if ltb (i % suc n) (suc n) then how_many (x ∷ []) else 0) + m)
          (shard_from-partition (suc i) n xs)
      ∙ ground (arith, below)

sum_over-below : (n : ℕ) (f g : ℕ → ℕ) → ((k : ℕ) → k < n → f k ≡ g k) → sum_over n f ≡ sum_over n g
unfolding sum_over
sum_over-below zero f g same = refl
sum_over-below (suc n) f g same =
    omega
      (arith, same n (omega arith), sum_over-below n f g (λ k below. same k (omega (arith, below))))

module _ {ℓ} {A : Type ℓ} (p : A → Bool) where
  -- How many of a shard `p` holds of
  abbrev pub shard_count : Result String (List A) → ℕ
  shard_count (ok shard) = length (keep p shard)
  shard_count (err e) = 0

  shard_files-count :
      (entries : List A) (n k : ℕ)
      → k < suc n
      → shard_count (shard_files entries (pos k) (pos (suc n)))
        ≡ length (keep p (shard_from 0 (suc n) k entries))
  unfolding shard_files
  shard_files-count entries n k below =
      let is : ltb k (suc n) ≡ true = ground (arith, below) in rw is refl

  -- The shards of all pods together hold every entry as often as the dataset lists it: no file is
  -- left out, and none goes to two pods. The entries are counted by any test on them.
  pub shard_files-partition :
      (entries : List A) (n : ℕ)
      → sum_over (suc n) (λ k. shard_count (shard_files entries (pos k) (pos (suc n))))
        ≡ length (keep p entries)
  shard_files-partition entries n =
      sum_over-below (suc n) (λ k. shard_count (shard_files entries (pos k) (pos (suc n))))
        (λ k. length (keep p (shard_from 0 (suc n) k entries))) (shard_files-count entries n)
      ∙ shard_from-partition p 0 n entries
