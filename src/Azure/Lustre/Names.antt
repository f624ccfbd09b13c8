-- ===== src/Azure/Lustre/Names.antt =====
-- The metric names and their groups.
use azure_lustre_vmss_metric.Prelude.{String, List, [], ◌∷◌, ◌++◌}

abbrev pub aggregate_dimension_value : String
aggregate_dimension_value = "all"

abbrev pub lustre_client_evictions_metric : String
lustre_client_evictions_metric = "LustreClientEvictions"

abbrev pub ost_simple_metrics : List String
ost_simple_metrics =
    "OSTBytesAvailable" ∷ "OSTBytesUsed" ∷ "OSTBytesTotal" ∷ "OSTConnectedClients" ∷ "ClientReadOps"
    ∷ "ClientReadThroughput" ∷ "ClientWriteOps" ∷ "ClientWriteThroughput" ∷ []

abbrev pub ost_operation_metrics : List String
ost_operation_metrics = "OSTClientLatency" ∷ "OSTClientOps" ∷ []

abbrev pub ost_metrics : List String
ost_metrics = ost_simple_metrics ++ ost_operation_metrics

abbrev pub mdt_simple_metrics : List String
mdt_simple_metrics =
    "MDTBytesAvailable" ∷ "MDTBytesUsed" ∷ "MDTBytesTotal" ∷ "MDTConnectedClients" ∷ "MDTFilesFree"
    ∷ "MDTFilesUsed" ∷ "MDTFilesTotal" ∷ "HSMActionErrors" ∷ "HSMCurrentRequests" ∷ []

abbrev pub mdt_operation_metrics : List String
mdt_operation_metrics = "MDTClientLatency" ∷ "MDTClientOps" ∷ []

abbrev pub mdt_total_metrics : List String
mdt_total_metrics = lustre_client_evictions_metric ∷ []

abbrev pub mdt_metrics : List String
mdt_metrics = mdt_simple_metrics ++ mdt_operation_metrics ++ mdt_total_metrics

abbrev pub lustre_simple_average_metrics : List String
lustre_simple_average_metrics = ost_simple_metrics ++ mdt_simple_metrics

abbrev pub lustre_metrics : List String
lustre_metrics = ost_metrics ++ mdt_simple_metrics ++ mdt_operation_metrics ++ mdt_total_metrics
