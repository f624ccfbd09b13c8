-- ===== src/Pipeline/Aggregates.antt =====
-- The derived gauges of a filesystem against the samples of a collection.
use azure_lustre_vmss_metric.Prelude.{
  ◌≡◌, refl, ap, ◌∙◌, true, false, ◌||◌, not, Option, none, some, List, [], ◌∷◌, ◌++◌, map, ◌==◌,
  string_eq, list_eq, if◌then◌else◌, is_empty, keep, arith, Bool-cases, Option-cases, inl, inr,
  map-append,
}
use azure_lustre_vmss_metric.Prelude.Sets.{contains, contains-append, unique_by, contains-unique_by}
use azure_lustre_vmss_metric.Prelude.Sorting.{sorted, contains-sorted}
use azure_lustre_vmss_metric.Prelude.Number.{Floats}
use azure_lustre_vmss_metric.Models.Vmss.{Labels}
use azure_lustre_vmss_metric.Models.Lustre.{
  Place, AggregateMetric, place_label_values, aggregate_label_values,
}
use azure_lustre_vmss_metric.Models.Aggregates.{
  Inputs, present, is_at, filesystem_key, samples_at, has_samples, all_keys, place_le, aggregate_of,
  build_lustre_filesystem_aggregate_metrics,
}
use azure_lustre_vmss_metric.Exporter.Samples.{last_with}

abbrev of_labels : Place → Labels → Place
of_labels default (a ∷ b ∷ c ∷ d ∷ []) = record {
  subscription_id = a;
  resource_group = b;
  filesystem_name = c;
  location = d;
}
of_labels default _ = default

place_ext : (p q : Place) → place_label_values p ≡ place_label_values q → p ≡ q
unfolding place_label_values
place_ext p q h = ap (of_labels p) h

at_iff : (p q : Place) → (place_label_values p == place_label_values q) ≡ true → p ≡ q
at_iff p q h =
    place_ext p q ((list_eq.equals_iff (place_label_values p) (place_label_values q)).0 h)

contains_either :
    (ps qs : List Place) (l : Labels)
    → contains (map place_label_values (ps ++ qs)) l
      ≡ (contains (map place_label_values ps) l || contains (map place_label_values qs) l)
contains_either ps qs l =
    ap (λ xs. contains xs l) (map-append place_label_values ps qs)
    ∙ contains-append (map place_label_values ps) (map place_label_values qs) l

contains_none :
    (f a b c d : List Place) (l : Labels)
    → contains (map place_label_values (f ++ a ++ b ++ c ++ d)) l ≡ false
    → (contains (map place_label_values a) l ≡ false)
      × (contains (map place_label_values b) l ≡ false)
      × (contains (map place_label_values c) l ≡ false)
      × (contains (map place_label_values d) l ≡ false)
contains_none f a b c d l h = ground (
  arith,
  h,
  contains_either (f ++ a ++ b ++ c) d l,
  contains_either (f ++ a ++ b) c l,
  contains_either (f ++ a) b l,
  contains_either f a l,
)

-- A key that no sample has leaves nothing to aggregate.
is_empty-keep :
    {A : Type 0} (place : A → Place) (key : Place) (xs : List A)
    → is_empty (keep (λ x. is_at key (place x)) xs)
      ≡ not (contains (map place_label_values (map place xs)) (place_label_values key))
unfolding contains
is_empty-keep place key [] = refl
is_empty-keep place key (x ∷ xs) = elim (Bool-cases (is_at key (place x))) [
  | inl is ↦ rw is refl
  | inr isnt ↦ rw isnt (is_empty-keep place key xs)
]

module _ {F : Type 0} where
  own_labels : (m : AggregateMetric F) → aggregate_label_values m ≡ place_label_values m.place
  unfolding aggregate_label_values place_label_values
  own_labels m = refl

  present-last :
      (derived : Place → Option (AggregateMetric F)) (key : Place) (ps : List Place)
      → ((p : Place) (m : AggregateMetric F) → derived p ≡ some m → m.place ≡ p)
      → last_with aggregate_label_values (present (map derived ps)) (place_label_values key) ≡ (
          if contains (map place_label_values ps) (place_label_values key)
          then derived key
          else none)
  unfolding last_with contains
  present-last derived key [] own = refl
  present-last derived key (p ∷ ps) own =
      let rest = present-last derived key ps own in
      elim (Option-cases (derived p)) [
        | inl is ↦ rw is (ground (arith, is, rest, at_iff p key))
        | inr (m, is) ↦
            let labels = own_labels m ∙ ap place_label_values (own p m is) in
            rw is (ground (arith, is, rest, at_iff p key, labels))
      ]

  keeps-all_keys :
      (inputs : Inputs F) (key : Place)
      → contains (map place_label_values (all_keys inputs)) (place_label_values key) ≡ false
      → has_samples (samples_at key inputs) ≡ false
  unfolding all_keys has_samples samples_at
  keeps-all_keys inputs key h =
      let (ost, ost_operation, mdt, mdt_operation) =
        contains_none (map filesystem_key inputs.filesystems) (map (λ m. m.place) inputs.metrics)
          (map (λ m. m.place) inputs.operation_metrics) (map (λ m. m.place) inputs.mdt_metrics)
          (map (λ m. m.place) inputs.mdt_operation_metrics) (place_label_values key) h in
      rw
        (
          is_empty-keep (λ m. m.place) key inputs.metrics,
          is_empty-keep (λ m. m.place) key inputs.operation_metrics,
          is_empty-keep (λ m. m.place) key inputs.mdt_metrics,
          is_empty-keep (λ m. m.place) key inputs.mdt_operation_metrics,
        )
        (ground (arith, ost, ost_operation, mdt, mdt_operation))

module _ {F : Type 0} (floats : Floats F) (sum : List F → F) where
  aggregate_of-place :
      (now : F) (p : Place) (inputs : Inputs F) (m : AggregateMetric F)
      → aggregate_of floats sum now p inputs ≡ some m
      → m.place ≡ p
  unfolding aggregate_of
  aggregate_of-place now p inputs m h = ground (arith, h)

  abbrev derived : Inputs F → F → Place → Option (AggregateMetric F)
  derived inputs now key = aggregate_of floats sum now key (samples_at key inputs)

  derived-absent :
      (inputs : Inputs F) (now : F) (key : Place)
      → (if contains (map place_label_values (all_keys inputs)) (place_label_values key)
          then derived inputs now key
          else none)
        ≡ derived inputs now key
  unfolding aggregate_of
  derived-absent inputs now key =
      elim (Bool-cases
        (contains (map place_label_values (all_keys inputs)) (place_label_values key))) [
          | inl is ↦ rw is refl
          | inr isnt ↦ rw (isnt, keeps-all_keys inputs key isnt) refl
        ]

  -- Whatever the order of the filesystems and of their samples, a filesystem has the derived sample
  -- of all its samples, and has none where it has no samples. What the list has last with its labels
  -- is what the gauges show.
  pub build_lustre_filesystem_aggregate_metrics_lem :
      (inputs : Inputs F) (now : F) (key : Place)
      → last_with aggregate_label_values
          (build_lustre_filesystem_aggregate_metrics floats sum inputs now)
          (place_label_values key)
        ≡ aggregate_of floats sum now key (samples_at key inputs)
  unfolding build_lustre_filesystem_aggregate_metrics
  build_lustre_filesystem_aggregate_metrics_lem inputs now key =
      let ps = all_keys inputs in
      let all_there =
        contains-sorted place_le place_label_values (unique_by place_label_values ps)
          (place_label_values key)
        ∙ contains-unique_by place_label_values ps (place_label_values key) in
      present-last (derived inputs now) key (sorted place_le (unique_by place_label_values ps))
        (λ p m h. aggregate_of-place now p (samples_at p inputs) m h)
      ∙ ap (λ b. if b then derived inputs now key else none) all_there
      ∙ derived-absent inputs now key
