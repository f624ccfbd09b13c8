-- ===== src/Azure/Lustre/Tables.antt =====
-- `normalize_lustre_metrics_response`: the tables that it fills from the time series.
pub mod Notes
pub mod Readings
use azure_lustre_vmss_metric.Prelude.{
  ℕ, String, Bool, true, false, ◌||◌, ◌&&◌, not, Option, none, some, List, [], ◌∷◌, ◌++◌, map, ◌==◌,
  string_eq, pair_eq, if◌then◌else◌, Equatable,
}
use azure_lustre_vmss_metric.Prelude.Dict.{Dict, lookup, insert}
use azure_lustre_vmss_metric.Prelude.Sets.{contains}
use azure_lustre_vmss_metric.Prelude.Number.{Floats, of_nat}
use azure_lustre_vmss_metric.Prelude.Result.{Result, ok, err, ◌>>=◌, fold}
use azure_lustre_vmss_metric.Models.Lustre.{
  Filesystem, Place, OstMetric, MdtMetric, OperationMetric,
}
use azure_lustre_vmss_metric.Azure.Value.{Value, Python, iter_sequence_attr}
use azure_lustre_vmss_metric.Azure.Lustre.Names.{
  aggregate_dimension_value, ost_simple_metrics, ost_operation_metrics, ost_metrics,
  mdt_simple_metrics, mdt_operation_metrics, mdt_total_metrics, mdt_metrics, lustre_metrics,
}
use azure_lustre_vmss_metric.Azure.Lustre.Series.{
  metric_name, dimension_value, dimension_value_or_aggregate, latest_metric_value,
}

-- The values of each key by metric, and the newest timestamp of each key.
pub record Table (K F : Type 0) : Type 0 where
  pub values : Dict K (Dict String F)
  pub timestamps : Dict K F

-- `(ostnum, operation)` or `(mdtnum, operation)`
abbrev pub OperationKey : Type 0
OperationKey = String × String

pub record Tables (F : Type 0) : Type 0 where
  pub ost : Table String F
  pub ost_operation : Table OperationKey F
  pub mdt : Table String F
  pub mdt_operation : Table OperationKey F

-- The table to which a time series goes, and its key there.
pub data Target : Type 0 where
  to_ost : String → Target
  to_ost_operation : OperationKey → Target
  to_mdt : String → Target
  to_mdt_operation : OperationKey → Target

abbrev pub empty_table : {K F : Type 0} → Table K F
empty_table = record { values = []; timestamps = [] }

abbrev pub empty_tables : {F : Type 0} → Tables F
empty_tables = record {
  ost = empty_table;
  ost_operation = empty_table;
  mdt = empty_table;
  mdt_operation = empty_table;
}

-- `d.get(key, default)`
abbrev pub or_default {ℓ} : {A : Type ℓ} → Option A → A → A
or_default none default = default
or_default (some a) default = a

module _ {F : Type 0} (floats : Floats F) where
  -- `max(t, timestamps.get(key, 0))`
  unfoldable pub newest : F → Option F → F
  newest t old =
      let before = or_default old (of_nat floats 0) in if floats.lt t before then before else t

module _ {K F : Type 0} ⦃e : Equatable K⦄ (floats : Floats F) where
  abbrev stamp : K → Option F → Dict K F → Dict K F
  unfolding newest insert lookup
  stamp key none timestamps = timestamps
  stamp key (some t) timestamps = insert key (newest floats t (lookup key timestamps)) timestamps

  -- `values.setdefault(key, {})[metric_name] = value`, and the timestamp if there is one
  unfoldable pub note : K → String → F × Option F → Table K F → Table K F
  unfolding stamp insert lookup
  note key metric (value, timestamp) table = record {
    values =
        insert key (insert metric value (or_default (lookup key table.values) [])) table.values;
    timestamps = stamp key timestamp table.timestamps;
  }

module _ {F : Type 0} (floats : Floats F) (py : Python F) where
  -- `_dimension_value(time_series, "operation") or AGGREGATE_DIMENSION_VALUE`
  unfoldable pub operation_of : Value F → String
  unfolding dimension_value
  operation_of time_series =
      let operation = or_default (dimension_value py time_series "operation") "" in
      if operation == "" then aggregate_dimension_value else operation

  abbrev ost_target : String → Value F → Option String → Option Target
  ost_target metric time_series none = none
  ost_target metric time_series (some ostnum) =
      if ostnum == ""
      then none
      else if contains ost_operation_metrics metric
      then some (to_ost_operation (ostnum, operation_of time_series))
      else some (to_ost ostnum)

  abbrev mdt_target : String → Value F → Option String → Option Target
  mdt_target metric time_series none = none
  mdt_target metric time_series (some mdtnum) =
      if mdtnum == ""
      then none
      else if contains mdt_operation_metrics metric
      then some (to_mdt_operation (mdtnum, operation_of time_series))
      else some (to_mdt mdtnum)

  -- The tests of the loop's body; `none` is a `continue`.
  unfoldable pub target_of : String → Value F → Option Target
  unfolding operation_of dimension_value_or_aggregate contains
  target_of metric time_series =
      if contains ost_metrics metric
      then ost_target metric time_series (
          dimension_value_or_aggregate floats py time_series "ostnum"
            (contains ost_operation_metrics metric))
      else if contains mdt_metrics metric
      then mdt_target metric time_series (
          dimension_value_or_aggregate floats py time_series "mdtnum"
            (contains mdt_operation_metrics metric))
      else none

module _ {F : Type 0} (floats : Floats F) where
  unfoldable pub store : String → F × Option F → Option Target → Tables F → Tables F
  unfolding note
  store metric latest none tables = tables
  store metric latest (some (to_ost ostnum)) tables = record tables {
    ost = note floats ostnum metric latest tables.ost;
  }
  store metric latest (some (to_ost_operation key)) tables = record tables {
    ost_operation = note floats key metric latest tables.ost_operation;
  }
  store metric latest (some (to_mdt mdtnum)) tables = record tables {
    mdt = note floats mdtnum metric latest tables.mdt;
  }
  store metric latest (some (to_mdt_operation key)) tables = record tables {
    mdt_operation = note floats key metric latest tables.mdt_operation;
  }

module _ {F : Type 0} (floats : Floats F) (py : Python F) where
  abbrev pub store_latest :
      String → Value F → Option (F × Option F) → Tables F → Result String (Tables F)
  store_latest metric time_series none tables = ok tables
  store_latest metric time_series (some latest) tables =
      ok (store floats metric latest (target_of floats py metric time_series) tables)

  -- The body of the loop over the time series of a metric.
  unfoldable pub add_series : String → Value F → Tables F → Result String (Tables F)
  unfolding latest_metric_value target_of store
  add_series metric time_series tables =
      latest_metric_value floats py metric time_series >>= λ latest.
      store_latest metric time_series latest tables

  abbrev pub add_named : Option String → Value F → Tables F → Result String (Tables F)
  add_named none metric tables = ok tables
  add_named (some name) metric tables =
      if contains lustre_metrics name
      then fold (add_series name) (iter_sequence_attr metric "timeseries" (some "time_series"))
          tables
      else ok tables

  -- The body of the loop over the metrics of the response.
  unfoldable pub add_metric : Value F → Tables F → Result String (Tables F)
  unfolding metric_name contains iter_sequence_attr add_series
  add_metric metric tables = add_named (metric_name py metric) metric tables

  unfoldable pub fill_tables : Value F → Result String (Tables F)
  unfolding add_metric iter_sequence_attr
  fill_tables response = fold add_metric (iter_sequence_attr response "metrics" none) empty_tables
