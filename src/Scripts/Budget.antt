-- ===== src/Scripts/Budget.antt =====
-- scripts/lustre_safe_write_budget.py: whether a planned write fits under the cap.
--
-- `trunc` is Python's `int` of a float that is not negative.
use azure_lustre_vmss_metric.Prelude.{
  ℕ, zero, suc, ◌+◌, ◌-◌, ◌≤◌, ltb, String, ◌≡◌, ◌↔◌, Bool, true, false, ◌||◌, if◌then◌else◌, arith,
  subst,
}
use azure_lustre_vmss_metric.Prelude.Number.{ℤ, pos, negsuc, Floats, of_nat}
use azure_lustre_vmss_metric.Prelude.Result.{Result, ok, err, ◌>>=◌, bind-returns, ok-injective}

pub record Arguments (F : Type 0) : Type 0 where
  pub capacity_bytes : ℤ
  pub used_bytes : ℤ
  pub max_used_percent : F
  pub safety_reserve_bytes : ℤ
  pub planned_write_bytes : ℤ

pub record SafeWriteBudget (F : Type 0) : Type 0 where
  pub capacity_bytes : ℕ
  pub used_bytes : ℕ
  pub max_used_percent : F
  pub safety_reserve_bytes : ℕ
  pub planned_write_bytes : ℕ
  pub max_allowed_used_bytes : ℕ
  pub safe_write_budget_bytes : ℕ
  pub projected_used_bytes : ℕ
  pub projected_used_percent : F
  pub allowed : Bool
  pub reason : String

-- A guard that raises on a negative number
abbrev non_negative : String → ℤ → Result String ℕ
non_negative message (pos n) = ok n
non_negative message (negsuc n) = err message

-- A guard that raises on a number that is not positive
abbrev positive : String → ℤ → Result String ℕ
positive message (pos zero) = err message
positive message (pos (suc n)) = ok (suc n)
positive message (negsuc n) = err message

module _ {F : Type 0} (floats : Floats F) (trunc : F → ℕ) where
  open floats use {mul, div, lt, le}

  abbrev percent_in_range : F → Result String F
  percent_in_range percent =
      if le percent (of_nat floats 0) || lt (of_nat floats 100) percent
      then err "max_used_percent must be in the range (0, 100]"
      else ok percent

  -- Below the guards. The budget is negative where the use and the reserve exceed what is allowed,
  -- and it is reported as 0 then.
  unfoldable pub budget_of : ℕ → ℕ → ℕ → ℕ → F → SafeWriteBudget F
  budget_of capacity used reserve planned percent =
      let max_allowed = trunc (mul (of_nat floats capacity) (div percent (of_nat floats 100))) in
      let is_negative = ltb max_allowed (used + reserve) in
      let budget = max_allowed - (used + reserve) in
      let exceeds = ltb budget planned in
      record {
        capacity_bytes = capacity;
        used_bytes = used;
        max_used_percent = percent;
        safety_reserve_bytes = reserve;
        planned_write_bytes = planned;
        max_allowed_used_bytes = max_allowed;
        safe_write_budget_bytes = budget;
        projected_used_bytes = used + planned;
        projected_used_percent =
            mul (div (of_nat floats (used + planned)) (of_nat floats capacity)) (of_nat floats 100);
        allowed = if is_negative then false else if exceeds then false else true;
        reason =
            if is_negative
            then "filesystem is already above the safe write budget"
            else if exceeds
            then "planned write exceeds the safe write budget"
            else "planned write fits within the safe write budget";
      }

  unfoldable pub calculate_budget : Arguments F → Result String (SafeWriteBudget F)
  unfolding budget_of
  calculate_budget args =
      positive "capacity_bytes must be greater than zero" args.capacity_bytes >>= λ capacity.
      non_negative "used_bytes must be non-negative" args.used_bytes >>= λ used.
      non_negative "safety_reserve_bytes must be non-negative" args.safety_reserve_bytes
      >>= λ reserve.
          non_negative "planned_write_bytes must be non-negative" args.planned_write_bytes
          >>= λ planned. percent_in_range args.max_used_percent >>= λ percent.
              ok (budget_of capacity used reserve planned percent)

  -- What `main` returns for the arguments
  unfoldable pub exit_code : SafeWriteBudget F → ℕ
  exit_code budget = if budget.allowed then 0 else 2

  abbrev Fits : SafeWriteBudget F → Type 0
  Fits b =
      (exit_code b ≡ 0)
      ↔ (b.used_bytes + b.planned_write_bytes + b.safety_reserve_bytes ≤ b.max_allowed_used_bytes)

  budget_of-Fits :
      (capacity used reserve planned : ℕ) (percent : F)
      → Fits (budget_of capacity used reserve planned percent)
  unfolding budget_of exit_code
  budget_of-Fits capacity used reserve planned percent = ground arith

  -- Where the arguments are in range, `main` succeeds exactly if what is used, what is planned and
  -- the reserve fit together under what is allowed.
  calculate_budget-exit_code :
      (args : Arguments F) (b : SafeWriteBudget F)
      → calculate_budget args ≡ ok b
      → (exit_code b ≡ 0)
        ↔ (b.used_bytes + b.planned_write_bytes + b.safety_reserve_bytes ≤ b.max_allowed_used_bytes)
  unfolding calculate_budget
  calculate_budget-exit_code args b h =
      bind-returns Fits (positive _ args.capacity_bytes) _
        (λ capacity. bind-returns Fits (non_negative _ args.used_bytes) _ (λ used.
          bind-returns Fits (non_negative _ args.safety_reserve_bytes) _ (λ reserve.
            bind-returns Fits (non_negative _ args.planned_write_bytes) _ (λ planned.
              bind-returns Fits (percent_in_range args.max_used_percent) _ (λ percent b' made.
                subst Fits (ok-injective _ b' made)
                  (budget_of-Fits capacity used reserve planned percent))))))
        b h
