-- ===== src/Exporter/State/Poll/Examples.antt =====
-- Pollers that are stopped.
use azure_lustre_vmss_metric.Prelude.{ℕ, ◌≤◌, ◌<◌, ◌⊎◌, ◌≡◌, refl, true, false, List, [], ◌∷◌}
use azure_lustre_vmss_metric.Prelude.Fixtures.{floats}
use azure_lustre_vmss_metric.Exporter.Fixtures.{Series, api}
use azure_lustre_vmss_metric.Exporter.State.{Exporter, fresh_shown, zero_durations}
use azure_lustre_vmss_metric.Exporter.State.Steps.{stops}
use azure_lustre_vmss_metric.Exporter.State.Poll.{
  clears, collects, sleeps, ended, vmss, lustre, Threads, Move, polls, acts, leads, placed, run,
}
use azure_lustre_vmss_metric.Exporter.State.Poll.Stopped.{collections, time_outs, run-stopped}

abbrev leader : Exporter Series ℕ
unfolding fresh_shown zero_durations
leader = record {
  standalone_vm_max_inventory = 2;
  leader_election_enabled = true;
  stop_event = false;
  is_leader_event = true;
  wake_event = false;
  is_leader = 1;
  shown = fresh_shown floats api;
  durations = zero_durations floats;
  errors = record {
    collection_errors = 0;
    lustre_collection_errors = 0;
    standalone_vm_collection_errors = 0;
  };
}

-- One poller is in its collection, the other has seen that it leads.
abbrev threads : Threads Series ℕ
threads = record { exporter = leader; place = placed vmss collects (λ poller. clears) }

abbrev stop_then : List (Move ℕ)
stop_then = acts stops ∷ polls lustre false ∷ polls lustre false ∷ polls lustre false ∷ []

-- The poller that clears the event after it was set for the stop sleeps on.
stop_is_missed :
    let t = run floats api stop_then threads in
    (t.exporter.stop_event ≡ true) × (t.place lustre ≡ sleeps)
unfolding run
stop_is_missed = (refl, refl)

-- The Lustre poller clears the event that was set for the poller of the scale sets, which sleeps on.
wake_is_missed :
    (run floats api
        (leads true ∷ polls lustre false ∷ polls vmss false ∷ polls vmss false ∷ [])
        threads).place
      vmss
    ≡ sleeps
unfolding run
wake_is_missed = refl

abbrev stopped : Threads Series ℕ
stopped = record threads { exporter = record leader { stop_event = true } }

abbrev rounds : List (Move ℕ)
rounds =
    polls vmss true
    ∷ polls lustre true
    ∷ polls vmss true
    ∷ polls vmss true
    ∷ leads true
    ∷ polls vmss true
    ∷ polls vmss true
    ∷ []

run-stopped_example :
    (collections floats api vmss rounds stopped ≤ 1)
    × (((run floats api rounds stopped).place vmss ≡ ended) ⊎ (time_outs vmss rounds < 5))
run-stopped_example = run-stopped floats api vmss rounds stopped refl
