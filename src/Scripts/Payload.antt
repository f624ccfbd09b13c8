-- ===== src/Scripts/Payload.antt =====
-- scripts/av_lustre_workload.py: how much a run writes for a file.
--
-- `trunc` is Python's `int` of a float that is not negative.
use azure_lustre_vmss_metric.Prelude.{
  ℕ, zero, suc, ◌+◌, ◌-◌, ◌≤◌, leb, min, String, ◌≡◌, refl, Bool, ◌&&◌, ◌||◌, List, [], ◌∷◌,
  if◌then◌else◌, arith, All, Bool-cases, inl, inr, nat_beq, subst, leb→le,
}
use azure_lustre_vmss_metric.Prelude.Number.{ℤ, pos, negsuc, Floats, of_nat}
use azure_lustre_vmss_metric.Prelude.Result.{Result, ok, err, ◌>>=◌, bind-returns, ok-injective}

-- A guard that raises on a negative number
abbrev non_negative : String → ℤ → Result String ℕ
non_negative message (pos n) = ok n
non_negative message (negsuc n) = err message

module _ {F : Type 0} (floats : Floats F) (trunc : F → ℕ) where
  open floats use {mul, lt, le}

  abbrev is_zero : F → Bool
  is_zero x = le x (of_nat floats 0) && le (of_nat floats 0) x

  abbrev ratio_in_range : F → Result String F
  ratio_in_range ratio =
      if lt ratio (of_nat floats 0)
      then err "output_bytes_per_input must be non-negative"
      else ok ratio

  -- Below the guards
  unfoldable pub payload_of : ℕ → F → ℕ → ℕ
  payload_of input ratio most =
      if nat_beq input 0 || is_zero ratio || nat_beq most 0
      then 0
      else min (trunc (mul (of_nat floats input) ratio)) most

  unfoldable pub planned_output_payload_bytes : ℤ → F → ℤ → Result String ℕ
  unfolding payload_of
  planned_output_payload_bytes input_bytes output_bytes_per_input max_output_bytes_per_file =
      non_negative "input_bytes must be non-negative" input_bytes >>= λ input.
      ratio_in_range output_bytes_per_input >>= λ ratio.
      non_negative "max_output_bytes_per_file must be non-negative" max_output_bytes_per_file
      >>= λ most. ok (payload_of input ratio most)

  payload_of-capped : (input : ℕ) (ratio : F) (most : ℕ) → payload_of input ratio most ≤ most
  unfolding payload_of
  payload_of-capped input ratio most = ground arith

-- `len(block)`
abbrev pub block_length : ℕ
block_length = 1024

-- The lengths of the chunks that the loop writes; `fuel` bounds its turns.
unfoldable pub write_chunks : ℕ → ℕ → List ℕ
write_chunks zero remaining = []
write_chunks (suc fuel) zero = []
write_chunks (suc fuel) (suc rest) =
    let remaining = suc rest in
    let chunk = if leb block_length remaining then block_length else remaining in
    chunk ∷ write_chunks fuel (remaining - chunk)

abbrev pub sum : List ℕ → ℕ
sum [] = 0
sum (n ∷ ns) = n + sum ns

write_chunks-sum :
    (fuel remaining : ℕ) → remaining ≤ fuel → sum (write_chunks fuel remaining) ≡ remaining
unfolding write_chunks
write_chunks-sum zero remaining h = omega (arith, h)
write_chunks-sum (suc fuel) zero h = refl
write_chunks-sum (suc fuel) (suc rest) h = elim (Bool-cases (leb block_length (suc rest))) [
  | inl is ↦
      let block : 1024 ≤ suc rest = leb→le 1024 (suc rest) is in
      rw is
        (omega (arith, block, h, write_chunks-sum fuel (suc rest - 1024) (omega (arith, h, block))))
  | inr isnt ↦
      rw isnt (omega (arith, h, write_chunks-sum fuel (suc rest - suc rest) (omega (arith, h))))
]

write_chunks-blocks :
    (fuel remaining : ℕ) → All (λ chunk. (1 ≤ chunk) × (chunk ≤ 1024)) (write_chunks fuel remaining)
unfolding write_chunks
write_chunks-blocks zero remaining = tt
write_chunks-blocks (suc fuel) zero = tt
write_chunks-blocks (suc fuel) (suc rest) = (ground arith, write_chunks-blocks fuel _)

module _ {F : Type 0} (floats : Floats F) (trunc : F → ℕ) where
  abbrev Written : ℕ → ℕ → Type 0
  Written most payload =
      (payload ≤ most)
      × (sum (write_chunks payload payload) ≡ payload)
      × All (λ chunk. (1 ≤ chunk) × (chunk ≤ 1024)) (write_chunks payload payload)

  -- The payload that is planned for a file is at most the cap, and the loop that writes it ends with
  -- exactly that many bytes written, in chunks of one to 1024 bytes.
  pub planned_output_payload_bytes-write_chunks :
      (input_bytes : ℤ) (ratio : F) (most payload : ℕ)
      → planned_output_payload_bytes floats trunc input_bytes ratio (pos most) ≡ ok payload
      → (payload ≤ most)
        × (sum (write_chunks payload payload) ≡ payload)
        × All (λ chunk. (1 ≤ chunk) × (chunk ≤ 1024)) (write_chunks payload payload)
  unfolding planned_output_payload_bytes
  planned_output_payload_bytes-write_chunks input_bytes ratio most payload h =
      bind-returns (Written most) (non_negative _ input_bytes) _
        (λ input. bind-returns (Written most) (ratio_in_range floats trunc ratio) _ (λ r n made.
          subst (Written most) (ok-injective _ n made) (
            payload_of-capped floats trunc input r most,
            write_chunks-sum (payload_of floats trunc input r most) _ (omega arith),
            write_chunks-blocks (payload_of floats trunc input r most) _,
          )))
        payload h
