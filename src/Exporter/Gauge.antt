-- ===== src/Exporter/Gauge.antt =====
-- The labelled gauges of prometheus_client, as an interface with the laws that its documentation
-- gives. A gauge without labels is modelled by its value, a counter by its count.
use azure_lustre_vmss_metric.Prelude.{
  ◌≡◌, Option, none, some, ◌==◌, string_eq, list_eq, if◌then◌else◌, Option-cases, inl, inr, ◌↔◌,
  true, list_beq_iff, Bool-cases,
}
use azure_lustre_vmss_metric.Models.Vmss.{Labels}

pub record Gauges (G F : Type 0) : Type 0 where
  -- a gauge that was just registered
  pub fresh : G
  -- the sample that a scrape shows for the labels
  pub value : G → Labels → Option F
  -- `gauge.labels(*labels).set(v)`
  pub set : Labels → F → G → G
  -- `gauge.remove(*labels)`; `none` is a `KeyError`
  pub remove : Labels → G → Option G
  -- `gauge.clear()`
  pub clear : G → G
  pub value_fresh : (l : Labels) → value fresh l ≡ none
  pub value_set :
      (l k : Labels) (v : F) (g : G) → value (set l v g) k ≡ (if l == k then some v else value g k)
  pub value_remove :
      (l k : Labels) (g g' : G)
      → remove l g ≡ some g'
      → value g' k ≡ (if l == k then none else value g k)
  pub remove_missing : (l : Labels) (g : G) → remove l g ≡ none → value g l ≡ none
  pub value_clear : (l : Labels) (g : G) → value (clear g) l ≡ none

-- `with suppress(KeyError): gauge.remove(*labels)`
module _ {G F : Type 0} (api : Gauges G F) where
  kept : G → Option G → G
  kept g none = g
  kept g (some g') = g'

  unfoldable pub discard : Labels → G → G
  unfolding kept
  discard l g = kept g (api.remove l g)

  pub value-discard :
      (l k : Labels) (g : G) → api.value (discard l g) k ≡ (if l == k then none else api.value g k)
  unfolding discard
  value-discard l k g = elim (Option-cases (api.remove l g)) [
    | inl e ↦
        let same : ((l == k) ≡ true) ↔ (l ≡ k) = list_beq_iff l k in
        let gone = api.remove_missing l g e in
        rw e (elim (Bool-cases (l == k)) [
          | inl is ↦ rw is (rw (same.0 is) at gone)
          | inr isnt ↦ rw isnt
        ])
    | inr (g', e) ↦ rw e (api.value_remove l k g g' e)
  ]
