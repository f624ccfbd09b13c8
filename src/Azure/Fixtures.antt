-- ===== src/Azure/Fixtures.antt =====
-- What Python does to the values of the examples.
use azure_lustre_vmss_metric.Prelude.{ℕ, String}
use azure_lustre_vmss_metric.Prelude.Number.{ℤ, pos}
use azure_lustre_vmss_metric.Prelude.Result.{Result, ok, err}
use azure_lustre_vmss_metric.Azure.Value.{Value, text, number, Python}

abbrev str : Value ℕ → String
str (text s) = s
str _ = "?"

abbrev float : Value ℕ → Result String ℕ
float (number x) = ok x
float _ = err "TypeError"

abbrev int : Value ℕ → Result String ℤ
int (number x) = ok (pos x)
int _ = err "TypeError"

abbrev pub py : Python ℕ
py = record {
  str = str;
  lower = λ s. s;
  strip = λ s. s;
  float = float;
  int = int;
  fromisoformat = λ s. err "ValueError";
}
