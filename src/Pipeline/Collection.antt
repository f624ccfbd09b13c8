-- ===== src/Pipeline/Collection.antt =====
-- The OST gauges after a collection of several filesystems, in whatever order their workers end.
use azure_lustre_vmss_metric.Prelude.{
  String, ◌≡◌, refl, sym, ap, subst, ◌∙◌, Bool, true, false, none, some, List, [], ◌∷◌, ◌++◌, map,
  ◌==◌, string_eq, list_eq, nat_beq, arith, flat_map, All,
}
use azure_lustre_vmss_metric.Prelude.Dict.{Dict}
use azure_lustre_vmss_metric.Prelude.Number.{Floats}
use azure_lustre_vmss_metric.Prelude.Result.{ok, bind-ok, ok-injective}
use azure_lustre_vmss_metric.Prelude.Sorting.{sorted, insert_sorted, tuple_le, tuple_le_refl}
use azure_lustre_vmss_metric.Models.Vmss.{Labels}
use azure_lustre_vmss_metric.Models.Lustre.{
  Filesystem, OstMetric, ost_label_values, capacity_label_values,
}
use azure_lustre_vmss_metric.Azure.Value.{Value, Python}
use azure_lustre_vmss_metric.Azure.ResourceGraph.{replied, failed, out_of_fuel}
use azure_lustre_vmss_metric.Azure.Lustre.Tables.{Table, fill_tables}
use azure_lustre_vmss_metric.Azure.Lustre.Normalize.{
  Collected, ost_sample, samples_of, normalize_lustre_metrics_response,
}
use azure_lustre_vmss_metric.Azure.Lustre.Tables.Notes.{last_noted, or_old, or_old-none}
use azure_lustre_vmss_metric.Azure.Lustre.Tables.Readings.{Reading, readings}
use azure_lustre_vmss_metric.Azure.Lustre.Outcomes.{
  Outcome, samples_of_reply, errors_of, ost_sort_key, by_key, merge_outcomes, collection_result,
}
use azure_lustre_vmss_metric.Exporter.Gauge.{Gauges}
use azure_lustre_vmss_metric.Exporter.Samples.{last_with, last_or}
use azure_lustre_vmss_metric.Exporter.Lustre.{LustreGauges, OstGauge}
use azure_lustre_vmss_metric.Exporter.Lustre.Update.{
  LustreTracked, ost_reading, update_lustre_metrics, update_lustre_metrics-osts,
}
use azure_lustre_vmss_metric.Pipeline.Osts.{
  metric_of, metric_of-other, ost_notes, ost_labels, ost_label_values-sample,
  normalize_lustre_metrics_response-osts,
}

module _ {A : Type 0} (f : A → Labels) where
  last_with-append :
      (xs ys : List A) (l : Labels)
      → last_with f (xs ++ ys) l ≡ or_old (last_with f ys l) (last_with f xs l)
  unfolding last_with or_old
  last_with-append [] ys l = ground arith
  last_with-append (x ∷ xs) ys l = ground (arith, last_with-append xs ys l)

  -- A stable sort does not change which item with a label comes last, where items with the same
  -- label have the same key.
  last_with-insert_sorted :
      (le : A → A → Bool) (x : A) (xs : List A) (l : Labels)
      → ((a b : A) → (f a == l) ≡ true → (f b == l) ≡ true → le a b ≡ true)
      → last_with f (insert_sorted le x xs) l ≡ last_with f (x ∷ xs) l
  unfolding last_with insert_sorted
  last_with-insert_sorted le x [] l same = refl
  last_with-insert_sorted le x (y ∷ ys) l same =
      ground (arith, last_with-insert_sorted le x ys l same, same x y)

  last_with-sorted :
      (le : A → A → Bool) (xs : List A) (l : Labels)
      → ((a b : A) → (f a == l) ≡ true → (f b == l) ≡ true → le a b ≡ true)
      → last_with f (sorted le xs) l ≡ last_with f xs l
  unfolding last_with sorted
  last_with-sorted le [] l same = refl
  last_with-sorted le (x ∷ xs) l same =
      ground
        (arith, last_with-insert_sorted le x (sorted le xs) l same, last_with-sorted le xs l same)

abbrev without_location : Labels → List String
without_location (a ∷ b ∷ c ∷ d ∷ e ∷ []) = a ∷ b ∷ c ∷ e ∷ []
without_location _ = []

-- Samples of the same series have the same sort key.
same_key :
    {F : Type 0} (l : Labels) (a b : OstMetric F)
    → (ost_label_values a == l) ≡ true
    → (ost_label_values b == l) ≡ true
    → by_key ost_sort_key a b ≡ true
unfolding ost_label_values
same_key l a b is_a is_b =
    let same_labels =
      (list_eq.equals_iff (ost_label_values a) l).0 is_a
      ∙ sym ((list_eq.equals_iff (ost_label_values b) l).0 is_b) in
    ap (λ key. tuple_le (ost_sort_key a) key) (sym (ap without_location same_labels))
    ∙ tuple_le_refl (ost_sort_key a)

module _ {F : Type 0} where
  ost_labels-differ :
      (f g : Filesystem F) (j k : String)
      → (capacity_label_values g == capacity_label_values f) ≡ false
      → (ost_labels g j == ost_labels f k) ≡ false
  unfolding capacity_label_values ost_labels
  ost_labels-differ f g j k h = ground (arith, h)

  -- A filesystem with other labels has no sample of the series.
  other_place :
      (f g : Filesystem F) (table : Table String F) (rows : Dict String (Dict String F))
      (k : String)
      → (capacity_label_values g == capacity_label_values f) ≡ false
      → last_with ost_label_values (map (ost_sample g table) rows) (ost_labels f k) ≡ none
  unfolding last_with
  other_place f g table [] k h = refl
  other_place f g table ((j, row) ∷ rows) k h =
      let rest = other_place f g table rows k h in
      let differ =
        ap (λ l. l == ost_labels f k) (ost_label_values-sample g table j row)
        ∙ ost_labels-differ f g j k h in
      ground (arith, rest, differ)

module _ {F : Type 0} (floats : Floats F) (py : Python F) where
  -- Where a worker has returned, it has returned what a response says.
  abbrev pub Settled : Outcome F → Type 0
  Settled (filesystem, replied samples) =
      (response : Value F) × (normalize_lustre_metrics_response floats py filesystem response
        ≡ ok samples)
  Settled (filesystem, _) = Unit

  -- A settled outcome of a filesystem whose labels are not those of `f`.
  abbrev pub Elsewhere : Filesystem F → Outcome F → Type 0
  Elsewhere f outcome =
      Settled outcome × ((capacity_label_values outcome.0 == capacity_label_values f) ≡ false)

  abbrev metrics_of : List (Outcome F) → List (OstMetric F)
  metrics_of outcomes =
      flat_map (λ s. s.metrics) (map (λ outcome. samples_of_reply outcome.1) outcomes)

  foreign-none :
      (f : Filesystem F) (outcome : Outcome F) (k : String)
      → Elsewhere f outcome
      → last_with ost_label_values (samples_of_reply outcome.1).metrics (ost_labels f k) ≡ none
  unfolding last_with normalize_lustre_metrics_response samples_of
  foreign-none f (g, failed exc) k other = refl
  foreign-none f (g, out_of_fuel) k other = refl
  foreign-none f (g, replied samples) k ((response, made), elsewhere) =
      let (tables, filled, same) =
        bind-ok (fill_tables floats py response) (λ tables. ok (samples_of g tables)) samples
          made in
      subst (λ s. last_with ost_label_values s.metrics (ost_labels f k) ≡ none)
        (ok-injective _ _ same) (other_place f g tables.ost tables.ost.values k elsewhere)

  foreign_outcomes-none :
      (f : Filesystem F) (outcomes : List (Outcome F)) (k : String)
      → All (Elsewhere f) outcomes
      → last_with ost_label_values (metrics_of outcomes) (ost_labels f k) ≡ none
  unfolding last_with or_old
  foreign_outcomes-none f [] k h = refl
  foreign_outcomes-none f (outcome ∷ outcomes) k (first, rest) =
      last_with-append ost_label_values (samples_of_reply outcome.1).metrics (metrics_of outcomes)
        (ost_labels f k)
      ∙ rw (foreign_outcomes-none f outcomes k rest) (foreign-none f outcome k first)

  -- What the samples of one filesystem say of a series is what the lists of all of them say.
  metrics_of-own :
      (f : Filesystem F) (before after : List (Outcome F)) (samples : Collected F) (k : String)
      → All (Elsewhere f) before
      → All (Elsewhere f) after
      → last_with ost_label_values
          (metrics_of (before ++ (f, replied samples) ∷ after))
          (ost_labels f k)
        ≡ last_with ost_label_values samples.metrics (ost_labels f k)
  unfolding or_old
  metrics_of-own f [] after samples k none_before others =
      last_with-append ost_label_values samples.metrics (metrics_of after) (ost_labels f k)
      ∙ rw (foreign_outcomes-none f after k others) refl
  metrics_of-own f (outcome ∷ before) after samples k (first, rest) others =
      last_with-append ost_label_values (samples_of_reply outcome.1).metrics
        (metrics_of (before ++ (f, replied samples) ∷ after)) (ost_labels f k)
      ∙ rw (metrics_of-own f before after samples k rest others, foreign-none f outcome k first)
          (or_old-none (last_with ost_label_values samples.metrics (ost_labels f k)))

  merge_outcomes-own :
      (f : Filesystem F) (before after : List (Outcome F)) (samples : Collected F) (k : String)
      → All (Elsewhere f) before
      → All (Elsewhere f) after
      → last_with ost_label_values
          (merge_outcomes (before ++ (f, replied samples) ∷ after)).metrics
          (ost_labels f k)
        ≡ last_with ost_label_values samples.metrics (ost_labels f k)
  unfolding merge_outcomes
  merge_outcomes-own f before after samples k before_other after_other =
      last_with-sorted ost_label_values (by_key ost_sort_key)
        (metrics_of (before ++ (f, replied samples) ∷ after)) (ost_labels f k)
        (same_key (ost_labels f k))
      ∙ metrics_of-own f before after samples k before_other after_other

module _ {G F : Type 0} (floats : Floats F) (py : Python F) (api : Gauges G F)
    (sum : List F → F) where
  -- After a collection in which no filesystem failed, an OST gauge that shows an Azure Monitor metric
  -- as it is shows, for every OST of a filesystem, the last reading of that metric in the response
  -- for the filesystem, and nothing where the response has none, in whatever order the workers
  -- ended. No other filesystem has the labels of this one, every worker returned the samples of a
  -- response, and every series that was shown before is noted.
  pub update_lustre_metrics-collection :
      (filesystems : List (Filesystem F)) (f : Filesystem F) (before after : List (Outcome F))
      (response : Value F) (samples : Collected F) (now : F) (gauges : LustreGauges G)
      (n : OstGauge) (metric ostnum : String)
      → normalize_lustre_metrics_response floats py f response ≡ ok samples
      → All (Elsewhere floats py f) before
      → All (Elsewhere floats py f) after
      → errors_of (before ++ (f, replied samples) ∷ after) ≡ 0
      → metric_of n ≡ some metric
      → LustreTracked floats api gauges
      → let result =
          collection_result floats sum filesystems (before ++ (f, replied samples) ∷ after) now in
        (rs : List (Reading F)) × (readings floats py response ≡ ok rs)
        × (api.value
              ((update_lustre_metrics floats api result.samples
                  (nat_beq result.error_count 0)
                  gauges).osts.gauge
                n)
              (ost_labels f ostnum)
            ≡ last_noted (ost_notes rs) ostnum metric)
  unfolding collection_result
  update_lustre_metrics-collection filesystems f before after response samples now gauges n metric
        ostnum made before_other after_other clean shows tracked =
      let outcomes = before ++ (f, replied samples) ∷ after in
      let result = collection_result floats sum filesystems outcomes now in
      let (rs, read, value) =
        normalize_lustre_metrics_response-osts floats py f response samples n metric ostnum made
          shows in
      (
        rs,
        read,
        ap
              (λ stale.
                api.value
                  ((update_lustre_metrics floats api result.samples stale gauges).osts.gauge n)
                  (ost_labels f ostnum))
              (ap (λ errors. nat_beq errors 0) clean)
            ∙ update_lustre_metrics-osts floats api result.samples true gauges n
                (ost_labels f ostnum) tracked (metric_of-other n metric shows)
            ∙ ap (λ o. last_or (ost_reading floats n) o none)
                (merge_outcomes-own floats py f before after samples ostnum before_other
                  after_other)
            ∙ value,
      )
