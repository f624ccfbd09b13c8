-- ===== src/Azure/Lustre/Tables/Readings.antt =====
-- The readings of a response in their order, of which the tables are filled.
use azure_lustre_vmss_metric.Prelude.{
  String, ◌≡◌, refl, sym, ap, ◌∙◌, fun_ext, Option, none, some, List, [], ◌∷◌, ◌++◌, string_eq,
  pair_eq, if◌then◌else◌, Bool-cases, inl, inr,
}
use azure_lustre_vmss_metric.Prelude.Sets.{contains}
use azure_lustre_vmss_metric.Prelude.Number.{Floats}
use azure_lustre_vmss_metric.Prelude.Result.{Result, ok, err, ◌>>=◌, fold}
use azure_lustre_vmss_metric.Azure.Value.{Value, Python, iter_sequence_attr}
use azure_lustre_vmss_metric.Azure.Lustre.Names.{lustre_metrics}
use azure_lustre_vmss_metric.Azure.Lustre.Series.{metric_name, latest_metric_value}
use azure_lustre_vmss_metric.Azure.Lustre.Tables.{
  Tables, Target, empty_tables, store, target_of, store_latest, add_named, add_series, add_metric,
  fill_tables,
}

-- The metric, its latest value, and where it goes.
abbrev pub Reading : Type 0 → Type 0
Reading F = String × (F × Option F) × Option Target

module _ {F : Type 0} (floats : Floats F) (py : Python F) where
  abbrev reading_of : String → Value F → Option (F × Option F) → List (Reading F)
  reading_of metric time_series none = []
  reading_of metric time_series (some latest) =
      (metric, latest, target_of floats py metric time_series) ∷ []

  abbrev series_readings : String → List (Value F) → Result String (List (Reading F))
  series_readings metric [] = ok []
  series_readings metric (time_series ∷ rest) =
      latest_metric_value floats py metric time_series >>= λ latest.
      series_readings metric rest >>= λ later. ok (reading_of metric time_series latest ++ later)

  abbrev named_readings : Option String → Value F → Result String (List (Reading F))
  named_readings none metric = ok []
  named_readings (some name) metric =
      if contains lustre_metrics name
      then series_readings name (iter_sequence_attr metric "timeseries" (some "time_series"))
      else ok []

  abbrev metrics_readings : List (Value F) → Result String (List (Reading F))
  metrics_readings [] = ok []
  metrics_readings (metric ∷ rest) = named_readings (metric_name py metric) metric >>= λ first.
      metrics_readings rest >>= λ later. ok (first ++ later)

  -- The latest value of every time series of a known metric.
  unfoldable pub readings : Value F → Result String (List (Reading F))
  readings response = metrics_readings (iter_sequence_attr response "metrics" none)

module _ {F : Type 0} (floats : Floats F) where
  unfoldable pub store_all : List (Reading F) → Tables F → Tables F
  store_all [] tables = tables
  store_all ((metric, latest, target) ∷ rest) tables =
      store_all rest (store floats metric latest target tables)

  store_all-append :
      (xs ys : List (Reading F)) (tables : Tables F)
      → store_all (xs ++ ys) tables ≡ store_all ys (store_all xs tables)
  unfolding store_all
  store_all-append [] ys tables = refl
  store_all-append ((m, l, t) ∷ xs) ys tables = store_all-append xs ys _

-- `store_all` of what is read, as a step of a loop.
module _ {F : Type 0} (floats : Floats F) (py : Python F) where
  abbrev stored : Result String (List (Reading F)) → Tables F → Result String (Tables F)
  stored rs tables = rs >>= λ xs. ok (store_all floats xs tables)

  stored-then :
      (xs ys : Result String (List (Reading F))) (tables : Tables F)
      → (stored xs tables >>= λ t. stored ys t)
        ≡ stored (xs >>= λ first. ys >>= λ later. ok (first ++ later)) tables
  stored-then (err x) ys tables = refl
  stored-then (ok xs) (err y) tables = refl
  stored-then (ok xs) (ok ys) tables = ap ok (sym (store_all-append floats xs ys tables))

  -- One time series, whatever its latest value came to.
  store_latest-stored :
      (r : Result String (Option (F × Option F))) (metric : String) (time_series : Value F)
      (tables : Tables F)
      → (r >>= λ latest. store_latest floats py metric time_series latest tables)
        ≡ stored (r >>= λ latest. ok (reading_of floats py metric time_series latest)) tables
  unfolding store_all
  store_latest-stored (err x) metric time_series tables = refl
  store_latest-stored (ok none) metric time_series tables = refl
  store_latest-stored (ok (some latest)) metric time_series tables = refl

  series-stored :
      (r : Result String (Option (F × Option F))) (metric : String) (time_series : Value F)
      (rest : List (Value F)) (tables : Tables F)
      → ((t : Tables F)
          → fold (add_series floats py metric) rest t
            ≡ stored (series_readings floats py metric rest) t)
      → ((r >>= λ latest. store_latest floats py metric time_series latest tables) >>= λ t.
          fold (add_series floats py metric) rest t)
        ≡ stored
            (r >>= λ latest. series_readings floats py metric rest >>= λ later.
              ok (reading_of floats py metric time_series latest ++ later))
            tables
  series-stored (err x) metric time_series rest tables later = refl
  series-stored (ok latest) metric time_series rest tables later =
      ap (λ u. u >>= λ t. fold (add_series floats py metric) rest t)
        (store_latest-stored (ok latest) metric time_series tables)
      ∙ later _
      ∙ stored-then (ok (reading_of floats py metric time_series latest))
          (series_readings floats py metric rest) tables

  fold-add_series :
      (metric : String) (series : List (Value F)) (tables : Tables F)
      → fold (add_series floats py metric) series tables
        ≡ stored (series_readings floats py metric series) tables
  unfolding add_series store_all
  fold-add_series metric [] tables = refl
  fold-add_series metric (time_series ∷ rest) tables =
      series-stored (latest_metric_value floats py metric time_series) metric time_series rest
        tables (fold-add_series metric rest)

  add_named-stored :
      (name : Option String) (metric : Value F) (tables : Tables F)
      → add_named floats py name metric tables
        ≡ stored (named_readings floats py name metric) tables
  unfolding store_all
  add_named-stored none metric tables = refl
  add_named-stored (some name) metric tables = elim (Bool-cases (contains lustre_metrics name)) [
    | inl is ↦ rw is (fold-add_series name _ tables)
    | inr isnt ↦ rw isnt refl
  ]

  fold-add_metric :
      (metrics : List (Value F)) (tables : Tables F)
      → fold (add_metric floats py) metrics tables
        ≡ stored (metrics_readings floats py metrics) tables
  unfolding add_metric store_all
  fold-add_metric [] tables = refl
  fold-add_metric (metric ∷ rest) tables =
      ap (λ u. u >>= λ t. fold (add_metric floats py) rest t)
        (add_named-stored (metric_name py metric) metric tables)
      ∙ ap (λ f. stored (named_readings floats py (metric_name py metric) metric) tables >>= f)
          (fun_ext (fold-add_metric rest))
      ∙ stored-then (named_readings floats py (metric_name py metric) metric)
          (metrics_readings floats py rest) tables

  -- The tables are filled with the readings of the response, one after the other, and a response
  -- that cannot be read raises what reading it raises.
  pub fill_tables-readings :
      (response : Value F)
      → fill_tables floats py response
        ≡ (readings floats py response >>= λ rs. ok (store_all floats rs empty_tables))
  unfolding fill_tables readings
  fill_tables-readings response =
      fold-add_metric (iter_sequence_attr response "metrics" none) empty_tables
