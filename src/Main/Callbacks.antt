-- ===== src/Main/Callbacks.antt =====
-- src/vmss_metrics_exporter/main.py: what the election's callbacks do to a pod.
--
-- A pod is its exporter and whether it carries the label by which the Service selects the leader. A
-- patch of the label fails or succeeds; its exception is dropped. What the pollers and the main
-- thread do between the sections of a callback are lists of the actions of Exporter/State/Steps;
-- `set_leader` is called by the thread of the callbacks only.
pub mod Started
mod Examples
use azure_lustre_vmss_metric.Prelude.{ℕ, Bool, true, false, List, [], ◌∷◌, if◌then◌else◌}
use azure_lustre_vmss_metric.Prelude.Number.{Floats}
use azure_lustre_vmss_metric.Exporter.Gauge.{Gauges}
use azure_lustre_vmss_metric.Exporter.State.{Exporter}
use azure_lustre_vmss_metric.Exporter.State.Leadership.{set_leader}
use azure_lustre_vmss_metric.Exporter.State.Steps.{Action, perform}
use azure_lustre_vmss_metric.Exporter.State.Once.{Collected, collect_once}

pub record Pod (G F : Type 0) : Type 0 where
  pub exporter : Exporter G F
  pub labelled : Bool

-- `_patch_pod_leader_label`
unfoldable pub patch_pod_leader_label : {G F : Type 0} → Bool → Bool → Pod G F → Pod G F
patch_pod_leader_label patched is_leader pod =
    if patched then record pod { labelled = is_leader } else pod

module _ {G F : Type 0} (floats : Floats F) (api : Gauges G F) where
  -- what other threads do, in that order
  unfoldable pub performs : List (Action F) → Exporter G F → Exporter G F
  unfolding perform
  performs [] e = e
  performs (action ∷ actions) e = performs actions (perform floats api action e)

module _ {G F E : Type 0} (floats : Floats F) (api : Gauges G F) where
  -- `others` are the actions of the other threads: 0 to 5 within `collect_once`, 6 while the label is
  -- patched.
  unfoldable pub on_started_leading :
      Collected F E → (ℕ → List (Action F)) → Bool → Pod G F → Pod G F
  unfolding set_leader collect_once patch_pod_leader_label performs
  on_started_leading collected others patched pod =
      let leader = set_leader floats api true pod.exporter in
      let populated =
        collect_once floats api collected (λ k. performs floats api (others k)) leader in
      patch_pod_leader_label patched true
        (record pod { exporter = performs floats api (others 6) populated })

module _ {G F : Type 0} (floats : Floats F) (api : Gauges G F) where
  unfoldable pub on_stopped_leading : Bool → Pod G F → Pod G F
  unfolding set_leader patch_pod_leader_label
  on_stopped_leading patched pod =
      let pod' = patch_pod_leader_label patched false pod in
      record pod' { exporter = set_leader floats api false pod'.exporter }
