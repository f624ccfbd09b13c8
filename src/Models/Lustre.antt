-- ===== src/Models/Lustre.antt =====
-- The Managed Lustre records and the percentages that they derive.
use azure_lustre_vmss_metric.Prelude.{String, [], ◌∷◌, Option, none, some, if◌then◌else◌}
use azure_lustre_vmss_metric.Prelude.Number.{Floats, of_nat}
use azure_lustre_vmss_metric.Models.Vmss.{Labels}

pub record Filesystem (F : Type 0) : Type 0 where
  pub subscription_id : String
  pub resource_group : String
  pub filesystem_name : String
  pub resource_id : String
  pub location : String
  pub sku_tier : String
  pub storage_capacity_tib : F

-- The four labels that name a filesystem on every series.
pub record Place : Type 0 where
  pub subscription_id : String
  pub resource_group : String
  pub filesystem_name : String
  pub location : String

pub record OstMetric (F : Type 0) : Type 0 where
  pub place : Place
  pub open place use *
  pub ostnum : String
  pub bytes_available : Option F
  pub bytes_used : Option F
  pub bytes_total : Option F
  pub client_read_ops : Option F
  pub client_read_throughput_bytes_per_second : Option F
  pub client_write_ops : Option F
  pub client_write_throughput_bytes_per_second : Option F
  pub connected_clients : Option F
  pub sample_timestamp_seconds : Option F

pub record MdtMetric (F : Type 0) : Type 0 where
  pub place : Place
  pub open place use *
  pub mdtnum : String
  pub bytes_available : Option F
  pub bytes_used : Option F
  pub bytes_total : Option F
  pub files_free : Option F
  pub files_used : Option F
  pub files_total : Option F
  pub hsm_action_errors : Option F
  pub hsm_current_requests : Option F
  pub client_evictions : Option F
  pub connected_clients : Option F
  pub sample_timestamp_seconds : Option F

-- `ManagedLustreOstOperationMetric` and `ManagedLustreMdtOperationMetric`; `num` is the ostnum or
-- the mdtnum.
pub record OperationMetric (F : Type 0) : Type 0 where
  pub place : Place
  pub open place use *
  pub num : String
  pub operation : String
  pub client_latency_milliseconds : Option F
  pub client_ops : Option F
  pub sample_timestamp_seconds : Option F

pub record AggregateMetric (F : Type 0) : Type 0 where
  pub place : Place
  pub open place use *
  pub connected_clients : Option F
  pub client_evictions : Option F
  pub metadata_amplification_ratio : Option F
  pub sample_max_age_seconds : Option F

unfoldable pub place_label_values : Place → Labels
place_label_values p = p.subscription_id ∷ p.resource_group ∷ p.filesystem_name ∷ p.location ∷ []

module _ {F : Type 0} where
  unfoldable pub info_label_values : Filesystem F → Labels
  info_label_values f =
      f.subscription_id ∷ f.resource_group ∷ f.filesystem_name ∷ f.location ∷ f.sku_tier ∷ []

  unfoldable pub capacity_label_values : Filesystem F → Labels
  capacity_label_values f =
      f.subscription_id ∷ f.resource_group ∷ f.filesystem_name ∷ f.location ∷ []

  unfoldable pub ost_label_values : OstMetric F → Labels
  ost_label_values m =
      m.subscription_id ∷ m.resource_group ∷ m.filesystem_name ∷ m.location ∷ m.ostnum ∷ []

  unfoldable pub mdt_label_values : MdtMetric F → Labels
  mdt_label_values m =
      m.subscription_id ∷ m.resource_group ∷ m.filesystem_name ∷ m.location ∷ m.mdtnum ∷ []

  unfoldable pub operation_label_values : OperationMetric F → Labels
  operation_label_values m =
      m.subscription_id ∷ m.resource_group ∷ m.filesystem_name ∷ m.location ∷ m.num ∷ m.operation
      ∷ []

  unfoldable pub aggregate_label_values : AggregateMetric F → Labels
  aggregate_label_values m =
      m.subscription_id ∷ m.resource_group ∷ m.filesystem_name ∷ m.location ∷ []

module _ {F : Type 0} (floats : Floats F) where
  open floats use {mul, div, le}

  -- The body that the six percentage properties share: `None` unless both are known and the total
  -- is not at most zero.
  unfoldable pub percent : Option F → Option F → Option F
  percent none total = none
  percent (some part) none = none
  percent (some part) (some total) =
      if le total (of_nat floats 0) then none else some (mul (div part total) (of_nat floats 100))

  unfoldable pub ost_bytes_available_percent : OstMetric F → Option F
  unfolding percent
  ost_bytes_available_percent m = percent m.bytes_available m.bytes_total

  unfoldable pub ost_bytes_used_percent : OstMetric F → Option F
  unfolding percent
  ost_bytes_used_percent m = percent m.bytes_used m.bytes_total

  unfoldable pub mdt_bytes_available_percent : MdtMetric F → Option F
  unfolding percent
  mdt_bytes_available_percent m = percent m.bytes_available m.bytes_total

  unfoldable pub mdt_bytes_used_percent : MdtMetric F → Option F
  unfolding percent
  mdt_bytes_used_percent m = percent m.bytes_used m.bytes_total

  unfoldable pub files_free_percent : MdtMetric F → Option F
  unfolding percent
  files_free_percent m = percent m.files_free m.files_total

  unfoldable pub files_used_percent : MdtMetric F → Option F
  unfolding percent
  files_used_percent m = percent m.files_used m.files_total
