-- ===== src/Prelude/Fixtures.antt =====
-- Whole numbers as the floats of the examples.
use Prim.Native.Nat.{ℕ, ◌+◌, ◌-◌, ◌*◌, ◌/◌}
use azure_lustre_vmss_metric.Prelude.Tests.{ltb, leb}
use azure_lustre_vmss_metric.Prelude.Number.{ℤ, pos, negsuc, Floats}

abbrev int_value : ℤ → ℕ
int_value (pos n) = n
int_value (negsuc n) = 0

abbrev pub floats : Floats ℕ
floats = record {
  of_int = int_value;
  add = λ a b. a + b;
  sub = λ a b. a - b;
  mul = λ a b. a * b;
  div = λ a b. a / b;
  lt = ltb;
  le = leb;
}
