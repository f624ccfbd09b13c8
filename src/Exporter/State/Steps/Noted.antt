-- ===== src/Exporter/State/Steps/Noted.antt =====
-- Every series that an exporter shows is in the set that the next update compares with.
use azure_lustre_vmss_metric.Prelude.{sym, subst, Bool-cases, inl, inr, nat_beq}
use azure_lustre_vmss_metric.Prelude.Number.{Floats}
use azure_lustre_vmss_metric.Exporter.Gauge.{Gauges}
use azure_lustre_vmss_metric.Exporter.Family.{hidden-Tracked}
use azure_lustre_vmss_metric.Exporter.Vmss.{VmssTracked, update_metrics-VmssTracked}
use azure_lustre_vmss_metric.Exporter.Vm.{VmTracked, update_standalone_vm_metrics-VmTracked}
use azure_lustre_vmss_metric.Exporter.Lustre.Update.{
  LustreTracked, update_lustre_metrics-LustreTracked,
}
use azure_lustre_vmss_metric.Exporter.State.{Exporter, Shown, can_write_metrics_locked}
use azure_lustre_vmss_metric.Exporter.State.Leadership.{
  promote, demote, stop, clear_resource_gauges,
}
use azure_lustre_vmss_metric.Exporter.State.Collection.{
  guarded, write_vmss, write_standalone_vms, write_lustre, write_summary_vmss,
  write_summary_standalone_vms, write_summary_lustre, publish_vmss, publish_standalone_vms,
  publish_lustre, summarize_vmss, summarize_standalone_vms, summarize_lustre, fail_vmss,
  fail_standalone_vms, fail_lustre, clear_wake,
}
use azure_lustre_vmss_metric.Exporter.State.Steps.{
  Action, publishes_vmss, publishes_standalone_vms, publishes_lustre, summarizes_vmss,
  summarizes_standalone_vms, summarizes_lustre, fails_vmss, fails_standalone_vms, fails_lustre,
  clears_wake, stops, Phase, perform, Step, promoted, demoted, cleared, acted, Reachable, started,
  stepped,
}
use azure_lustre_vmss_metric.Exporter.State.Steps.Follower.{
  Hidden, init-shown, fresh_shown-Hidden, clear_shown-Hidden,
}

module _ {G F : Type 0} (floats : Floats F) (api : Gauges G F) where
  pub record Noted (s : Shown G F) : Type 0 where
    pub vmss : VmssTracked floats api s.vmss
    pub vms : VmTracked floats api s.vms
    pub lustre : LustreTracked floats api s.lustre

  pub Hidden-Noted : (s : Shown G F) → Hidden floats api s → Noted s
  Hidden-Noted s h = record {
    vmss = record {
      counts_noted = hidden-Tracked api _ h.counts;
      states_noted = hidden-Tracked api _ h.states;
      infos_noted = hidden-Tracked api _ h.infos;
    };
    vms = record {
      infos_noted = hidden-Tracked api _ h.vm_infos;
      power_states_noted = hidden-Tracked api _ h.vm_power_states;
      sizes_noted = hidden-Tracked api _ h.vm_sizes;
    };
    lustre = record {
      filesystems_noted = hidden-Tracked api _ h.filesystems;
      capacities_noted = hidden-Tracked api _ h.capacities;
      aggregates_noted = hidden-Tracked api _ h.aggregates;
      osts_noted = hidden-Tracked api _ h.osts;
      ost_operations_noted = hidden-Tracked api _ h.ost_operations;
      mdts_noted = hidden-Tracked api _ h.mdts;
      mdt_operations_noted = hidden-Tracked api _ h.mdt_operations;
    };
  }

  guarded-Noted :
      (write : Exporter G F → Exporter G F) (e : Exporter G F)
      → Noted e.shown
      → Noted (write e).shown
      → Noted (guarded write e).shown
  unfolding guarded
  guarded-Noted write e old new = elim (Bool-cases (can_write_metrics_locked e)) [
    | inl is ↦ rw is new
    | inr isnt ↦ rw isnt old
  ]

  perform-Noted :
      (action : Action F) (e : Exporter G F)
      → Noted e.shown
      → Noted (perform floats api action e).shown
  unfolding perform publish_vmss publish_standalone_vms publish_lustre summarize_vmss
      summarize_standalone_vms summarize_lustre fail_vmss fail_standalone_vms fail_lustre clear_wake
      stop
  perform-Noted (publishes_vmss counts) e h =
      guarded-Noted (write_vmss floats api counts) e h (record {
        vmss = update_metrics-VmssTracked floats api counts e.shown.vmss h.vmss;
        vms = h.vms;
        lustre = h.lustre;
      })
  perform-Noted (publishes_standalone_vms vms) e h =
      guarded-Noted (write_standalone_vms floats api vms) e h (record {
        vmss = h.vmss;
        vms =
            update_standalone_vm_metrics-VmTracked floats api e.standalone_vm_max_inventory vms
              e.shown.vms h.vms;
        lustre = h.lustre;
      })
  perform-Noted (publishes_lustre result) e h =
      guarded-Noted (write_lustre floats api result) e h (record {
        vmss = h.vmss;
        vms = h.vms;
        lustre =
            update_lustre_metrics-LustreTracked floats api result.samples
              (nat_beq result.error_count 0) e.shown.lustre h.lustre;
      })
  perform-Noted (summarizes_vmss now duration counts) e h =
      guarded-Noted (write_summary_vmss floats now duration counts) e h
        (record { vmss = h.vmss; vms = h.vms; lustre = h.lustre })
  perform-Noted (summarizes_standalone_vms now duration vms) e h =
      guarded-Noted (write_summary_standalone_vms floats now duration vms) e h
        (record { vmss = h.vmss; vms = h.vms; lustre = h.lustre })
  perform-Noted (summarizes_lustre now duration result) e h =
      guarded-Noted (write_summary_lustre floats now duration result) e h
        (record { vmss = h.vmss; vms = h.vms; lustre = h.lustre })
  perform-Noted (fails_vmss duration) e h = h
  perform-Noted (fails_standalone_vms duration) e h = h
  perform-Noted (fails_lustre duration) e h = h
  perform-Noted clears_wake e h = h
  perform-Noted stops e h = h

  Step-Noted :
      {p q : Phase} {e e' : Exporter G F}
      → Noted e.shown
      → Step floats api p e q e'
      → Noted e'.shown
  unfolding promote demote clear_resource_gauges
  Step-Noted h (promoted e on) = h
  Step-Noted h (demoted e on) = h
  Step-Noted h (cleared e) = Hidden-Noted _ (clear_shown-Hidden floats api e.shown)
  Step-Noted h (acted phase e action) = perform-Noted action e h

  -- However the steps interleave, every series that an exporter shows is noted: no update of it can
  -- leave a series behind that was not reported.
  pub Reachable-Noted : {p : Phase} {e : Exporter G F} → Reachable floats api p e → Noted e.shown
  Reachable-Noted (started enabled max_inventory e is) =
      subst Noted (sym (init-shown floats api enabled max_inventory e is))
        (Hidden-Noted _ (fresh_shown-Hidden floats api))
  Reachable-Noted (stepped reached step) = Step-Noted (Reachable-Noted reached) step
