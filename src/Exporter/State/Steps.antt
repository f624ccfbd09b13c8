-- ===== src/Exporter/State/Steps.antt =====
-- The threads of the exporter as interleaved steps: the pollers' and the main thread's single
-- actions, and the supervisor's calls of `set_leader`, between whose two parts the others can run.
pub mod Follower
pub mod Noted
use azure_lustre_vmss_metric.Prelude.{ℕ, ◌≡◌, Bool, true, List}
use azure_lustre_vmss_metric.Prelude.Number.{Floats}
use azure_lustre_vmss_metric.Prelude.Result.{ok}
use azure_lustre_vmss_metric.Models.Vmss.{VmssCount}
use azure_lustre_vmss_metric.Models.Vm.{StandaloneVm}
use azure_lustre_vmss_metric.Exporter.Gauge.{Gauges}
use azure_lustre_vmss_metric.Exporter.State.{Exporter, init}
use azure_lustre_vmss_metric.Exporter.State.Leadership.{
  promote, demote, clear_resource_gauges, stop,
}
use azure_lustre_vmss_metric.Exporter.State.Collection.{
  LustreResult, publish_vmss, publish_standalone_vms, publish_lustre, summarize_vmss,
  summarize_standalone_vms, summarize_lustre, fail_vmss, fail_standalone_vms, fail_lustre,
  clear_wake,
}

-- One action of a poller or of the main thread, with what it was handed: a lock's section, an
-- `except` branch, or a change of an event.
pub data Action (F : Type 0) : Type 0 where
  publishes_vmss : List VmssCount → Action F
  publishes_standalone_vms : List StandaloneVm → Action F
  publishes_lustre : LustreResult F → Action F
  summarizes_vmss : F → F → List VmssCount → Action F
  summarizes_standalone_vms : F → F → List StandaloneVm → Action F
  summarizes_lustre : F → F → LustreResult F → Action F
  fails_vmss : F → Action F
  fails_standalone_vms : F → Action F
  fails_lustre : F → Action F
  clears_wake : Action F
  stops : Action F

-- Where the supervisor stands: outside `set_leader`, or in `set_leader(False)` before it clears.
pub data Phase : Type 0 where
  outside : Phase
  demoting : Phase

module _ {G F : Type 0} (floats : Floats F) (api : Gauges G F) where
  unfoldable pub perform : Action F → Exporter G F → Exporter G F
  unfolding publish_vmss publish_standalone_vms publish_lustre summarize_vmss
      summarize_standalone_vms summarize_lustre fail_vmss fail_standalone_vms fail_lustre clear_wake
      stop
  perform (publishes_vmss counts) e = publish_vmss floats api counts e
  perform (publishes_standalone_vms vms) e = publish_standalone_vms floats api vms e
  perform (publishes_lustre result) e = publish_lustre floats api result e
  perform (summarizes_vmss now duration counts) e = summarize_vmss floats now duration counts e
  perform (summarizes_standalone_vms now duration vms) e =
      summarize_standalone_vms floats now duration vms e
  perform (summarizes_lustre now duration result) e = summarize_lustre floats now duration result e
  perform (fails_vmss duration) e = fail_vmss duration e
  perform (fails_standalone_vms duration) e = fail_standalone_vms duration e
  perform (fails_lustre duration) e = fail_lustre duration e
  perform clears_wake e = clear_wake e
  perform stops e = stop e

  pub data Step : Phase → Exporter G F → Phase → Exporter G F → Type 0 where
    promoted :
        (e : Exporter G F)
        → e.leader_election_enabled ≡ true
        → Step outside e outside (promote floats e)
    demoted :
        (e : Exporter G F)
        → e.leader_election_enabled ≡ true
        → Step outside e demoting (demote floats e)
    cleared : (e : Exporter G F) → Step demoting e outside (clear_resource_gauges floats api e)
    acted :
        (phase : Phase) (e : Exporter G F) (action : Action F)
        → Step phase e phase (perform action e)

  -- What an exporter can come to.
  pub data Reachable : Phase → Exporter G F → Type 0 where
    started :
        (enabled : Bool) (max_inventory : ℕ) (e : Exporter G F)
        → init floats api enabled max_inventory ≡ ok e
        → Reachable outside e
    stepped : {p q : Phase} {e e' : Exporter G F} → Reachable p e → Step p e q e' → Reachable q e'
