-- ===== src/Exporter/Fixtures.antt =====
-- Gauges as dictionaries, for the examples.
use azure_lustre_vmss_metric.Prelude.{
  ℕ, ◌≡◌, refl, Option, none, some, [], arith, if◌then◌else◌, list_eq, string_eq, ◌==◌,
}
use azure_lustre_vmss_metric.Prelude.Dict.{
  Dict, lookup, insert, remove, lookup-insert, lookup-remove,
}
use azure_lustre_vmss_metric.Models.Vmss.{Labels}
use azure_lustre_vmss_metric.Exporter.Gauge.{Gauges}

abbrev pub Series : Type 0
Series = Dict Labels ℕ

-- `remove`, with its `KeyError`
abbrev removed : Option ℕ → Labels → Series → Option Series
removed none l g = none
removed (some v) l g = some (remove l g)

pub value_removed :
    (o : Option ℕ) (l k : Labels) (g g' : Series)
    → removed o l g ≡ some g'
    → lookup k g' ≡ (if l == k then none else lookup k g)
value_removed none l k g g' h = ground (arith, h)
value_removed (some v) l k g g' h = ground (arith, h, lookup-remove l k g)

pub removed_missing : (o : Option ℕ) (l : Labels) (g : Series) → removed o l g ≡ none → o ≡ none
removed_missing none l g h = refl
removed_missing (some v) l g h = ground (arith, h)

abbrev pub api : Gauges Series ℕ
unfolding lookup insert remove
api = record {
  fresh = [];
  value = λ g l. lookup l g;
  set = λ l v g. insert l v g;
  remove = λ l g. removed (lookup l g) l g;
  clear = λ g. [];
  value_fresh = λ l. refl;
  value_set = λ l k v g. lookup-insert l k v g;
  value_remove = λ l k g g' h. value_removed (lookup l g) l k g g' h;
  remove_missing = λ l g h. removed_missing (lookup l g) l g h;
  value_clear = λ l g. refl;
}
