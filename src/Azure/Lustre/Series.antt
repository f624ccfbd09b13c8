-- ===== src/Azure/Lustre/Series.antt =====
-- What a time series of an Azure Monitor response says: its metric, its dimensions and its latest
-- value.
use azure_lustre_vmss_metric.Prelude.{
  String, Bool, ◌&&◌, not, Option, none, some, List, [], ◌∷◌, ◌==◌, string_eq, if◌then◌else◌,
}
use azure_lustre_vmss_metric.Prelude.Number.{Floats}
use azure_lustre_vmss_metric.Prelude.Result.{Result, ok, ◌>>=◌}
use azure_lustre_vmss_metric.Azure.Value.{
  Value, absent, text, moment, mapping, Entries, end, entry, Python, is_absent, or_absent,
  attr_or_mapping, iter_sequence_attr, truthy, or_value, has_text,
}
use azure_lustre_vmss_metric.Azure.Lustre.Names.{
  aggregate_dimension_value, lustre_client_evictions_metric,
}

abbrev pub reverse_onto {ℓ} : {A : Type ℓ} → List A → List A → List A
reverse_onto [] acc = acc
reverse_onto (x ∷ xs) acc = reverse_onto xs (x ∷ acc)

-- `reversed(xs)`
abbrev pub reversed {ℓ} : {A : Type ℓ} → List A → List A
reversed xs = reverse_onto xs []

module _ {F : Type 0} (py : Python F) where
  -- `_metric_name`
  unfoldable pub metric_name : Value F → Option String
  unfolding attr_or_mapping
  metric_name metric =
      let name = attr_or_mapping metric "name" in
      if is_absent name then none else some (py.str (or_absent (attr_or_mapping name "value") name))

  -- `_dimension_value` where the metadata is a mapping
  unfoldable pub dimension_in_mapping : Entries F → String → Option String
  unfolding has_text
  dimension_in_mapping end dimension = none
  dimension_in_mapping (entry raw_name value es) dimension =
      if py.lower raw_name == py.lower dimension && has_text py value
      then some (py.str value)
      else dimension_in_mapping es dimension

  -- the name of a metadata object, or the object that it wraps
  unfoldable pub raw_name : Value F → Value F
  unfolding attr_or_mapping
  raw_name metadata =
      let name = attr_or_mapping metadata "name" in or_absent (attr_or_mapping name "value") name

  -- `_dimension_value` where the metadata is a sequence
  unfoldable pub dimension_in_list : List (Value F) → String → Option String
  unfolding raw_name attr_or_mapping has_text
  dimension_in_list [] dimension = none
  dimension_in_list (metadata ∷ rest) dimension =
      let name = raw_name metadata in
      let value = attr_or_mapping metadata "value" in
      if not (is_absent name) && py.lower (py.str name) == py.lower dimension && has_text py value
      then some (py.str value)
      else dimension_in_list rest dimension

  abbrev dimension_of : Value F → List (Value F) → String → Option String
  dimension_of (mapping es) items dimension = dimension_in_mapping es dimension
  dimension_of _ items dimension = dimension_in_list items dimension

  -- `_dimension_value`
  unfoldable pub dimension_value : Value F → String → Option String
  unfolding dimension_in_mapping dimension_in_list attr_or_mapping iter_sequence_attr
  dimension_value time_series dimension =
      dimension_of (attr_or_mapping time_series "metadata_values")
        (iter_sequence_attr time_series "metadata_values" none) dimension

abbrev when_missing : Bool → Option String
when_missing aggregate_when_missing =
    if aggregate_when_missing then some aggregate_dimension_value else none

-- `if value: return value`, and what follows
abbrev pub or_aggregate : Option String → Bool → Option String
or_aggregate none aggregate_when_missing = when_missing aggregate_when_missing
or_aggregate (some value) aggregate_when_missing =
    if value == "" then when_missing aggregate_when_missing else some value

module _ {F : Type 0} (floats : Floats F) (py : Python F) where
  -- `_dimension_value_or_aggregate`
  unfoldable pub dimension_value_or_aggregate : Value F → String → Bool → Option String
  unfolding dimension_value truthy attr_or_mapping
  dimension_value_or_aggregate time_series dimension aggregate_when_missing =
      if truthy floats (attr_or_mapping time_series "metadata_values")
      then or_aggregate (dimension_value py time_series dimension) aggregate_when_missing
      else some aggregate_dimension_value

  abbrev timestamp_of : Value F → Result String (Option F)
  timestamp_of (moment t) = ok (some t)
  timestamp_of (text s) = py.fromisoformat s >>= λ t. ok (some t)
  timestamp_of _ = ok none

  -- `_timestamp_seconds`
  unfoldable pub timestamp_seconds : Value F → Result String (Option F)
  unfolding attr_or_mapping or_value
  timestamp_seconds point =
      timestamp_of
        (or_value floats (attr_or_mapping point "timestamp") (attr_or_mapping point "time_stamp"))

  -- The inner loop of `_latest_value`: the first field of a point that is there.
  unfoldable pub first_field : Value F → List String → Value F
  unfolding attr_or_mapping
  first_field point [] = absent
  first_field point (field ∷ fields) =
      or_absent (attr_or_mapping point field) (first_field point fields)

  abbrev pub read_point : Value F → Value F → Result String (Option (F × Option F))
  read_point value point = py.float value >>= λ x. timestamp_seconds point >>= λ t. ok (some (x, t))

  unfoldable pub latest_of : List (Value F) → List String → Result String (Option (F × Option F))
  unfolding first_field timestamp_seconds
  latest_of [] fields = ok none
  latest_of (point ∷ points) fields =
      let value = first_field point fields in
      if is_absent value then latest_of points fields else read_point value point

  -- `_latest_value`
  unfoldable pub latest_value : Value F → List String → Result String (Option (F × Option F))
  unfolding latest_of iter_sequence_attr
  latest_value time_series fields =
      latest_of (reversed (iter_sequence_attr time_series "data" none)) fields

  -- `_latest_metric_value`
  unfoldable pub latest_metric_value : String → Value F → Result String (Option (F × Option F))
  unfolding latest_value
  latest_metric_value metric_name time_series =
      if metric_name == lustre_client_evictions_metric
      then latest_value time_series ("total" ∷ "maximum" ∷ "average" ∷ [])
      else latest_value time_series ("average" ∷ [])
