-- ===== src/Config/Subscriptions.antt =====
-- What `_parse_subscription_ids` makes of its variable.
use azure_lustre_vmss_metric.Prelude.{
  String, ◌≡◌, false, ◌&&◌, ◌||◌, not, none, List, [], ◌∷◌, map, ◌==◌, string_eq, arith, refl, ◌∙◌,
}
use azure_lustre_vmss_metric.Prelude.Dict.{Dict, insert, lookup, Distinct, insert-Distinct}
use azure_lustre_vmss_metric.Prelude.Sets.{contains, contains-keep}
use azure_lustre_vmss_metric.Prelude.Text.{replace, split, strip}
use azure_lustre_vmss_metric.Config.Load.{
  placeholder_subscription, from_keys, key_of, real_items, parse_subscription_ids,
}

-- No item stands twice.
abbrev pub IsDistinct : List String → Type 0
IsDistinct [] = Unit
IsDistinct (x ∷ xs) = (contains xs x ≡ false) × IsDistinct xs

contains-keys :
    (d : Dict String (Unit {0})) (k : String)
    → lookup k d ≡ none
    → contains (map key_of d) k ≡ false
unfolding lookup contains
contains-keys [] k h = refl
contains-keys ((j, v) ∷ d) k h = ground (arith, contains-keys d k, h)

keys-IsDistinct : (d : Dict String (Unit {0})) → Distinct d → IsDistinct (map key_of d)
keys-IsDistinct [] h = tt
keys-IsDistinct ((k, v) ∷ d) h = (contains-keys d k h.0, keys-IsDistinct d h.1)

from_keys-Distinct :
    (xs : List String) (d : Dict String (Unit {0})) → Distinct d → Distinct (from_keys xs d)
unfolding from_keys
from_keys-Distinct [] d h = h
from_keys-Distinct (x ∷ xs) d h = from_keys-Distinct xs (insert x tt d) (insert-Distinct x tt d h)

contains-insert :
    (x k : String) (d : Dict String (Unit {0}))
    → contains (map key_of (insert x tt d)) k ≡ (x == k || contains (map key_of d) k)
unfolding insert contains
contains-insert x k [] = refl
contains-insert x k ((j, v) ∷ d) = ground (
  arith,
  contains-insert x k d,
  string_eq.equals_iff j x,
  string_eq.equals_iff j k,
  string_eq.equals_iff x k,
)

contains-from_keys :
    (xs : List String) (d : Dict String (Unit {0})) (k : String)
    → contains (map key_of (from_keys xs d)) k ≡ (contains xs k || contains (map key_of d) k)
unfolding from_keys contains
contains-from_keys [] d k = refl
contains-from_keys (x ∷ xs) d k =
    ground (arith, contains-from_keys xs (insert x tt d) k, contains-insert x k d)

contains-from_keys_nil :
    (xs : List String) (k : String) → contains (map key_of (from_keys xs [])) k ≡ contains xs k
unfolding contains
contains-from_keys_nil xs k = ground (arith, contains-from_keys xs [] k)

-- The subscriptions are the items of the variable, split at commas and semicolons and stripped, that
-- are neither blank nor the placeholder, each once.
pub contains-parse_subscription_ids :
    (raw id : String)
    → (contains (parse_subscription_ids raw) id ≡ (
        contains (map strip (split "," (replace ";" "," raw))) id
        && (not (id == "") && not (id == placeholder_subscription))))
      × IsDistinct (parse_subscription_ids raw)
unfolding parse_subscription_ids real_items
contains-parse_subscription_ids raw id = (
  contains-from_keys_nil (real_items raw) id
      ∙ contains-keep
          (λ (item : String). not (item == "") && not (item == placeholder_subscription))
          (map strip (split "," (replace ";" "," raw))) id,
  keys-IsDistinct _ (from_keys-Distinct (real_items raw) [] tt),
)
