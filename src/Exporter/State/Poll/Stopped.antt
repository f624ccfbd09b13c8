-- ===== src/Exporter/State/Poll/Stopped.antt =====
-- What becomes of a poller once the stop event is set.
use azure_lustre_vmss_metric.Prelude.{
  ℕ, ◌+◌, ◌-◌, ◌≤◌, ◌<◌, ◌⊎◌, ◌≡◌, refl, ◌∙◌, Bool, true, false, ◌&&◌, List, [], ◌∷◌, if◌then◌else◌,
  arith,
}
use azure_lustre_vmss_metric.Prelude.Number.{Floats}
use azure_lustre_vmss_metric.Exporter.Gauge.{Gauges}
use azure_lustre_vmss_metric.Exporter.State.{Exporter}
use azure_lustre_vmss_metric.Exporter.State.Leadership.{
  set_leader, promote, demote, clear_resource_gauges, stop,
}
use azure_lustre_vmss_metric.Exporter.State.Collection.{
  guarded, write_vmss, write_standalone_vms, write_lustre, write_summary_vmss,
  write_summary_standalone_vms, write_summary_lustre, publish_vmss, publish_standalone_vms,
  publish_lustre, summarize_vmss, summarize_standalone_vms, summarize_lustre, fail_vmss,
  fail_standalone_vms, fail_lustre, clear_wake,
}
use azure_lustre_vmss_metric.Exporter.State.Steps.{
  Action, publishes_vmss, publishes_standalone_vms, publishes_lustre, summarizes_vmss,
  summarizes_standalone_vms, summarizes_lustre, fails_vmss, fails_standalone_vms, fails_lustre,
  clears_wake, stops, perform,
}
use azure_lustre_vmss_metric.Exporter.State.Poll.{
  Place, tests_stop, tests_leader, awaits, awaits_leader, clears, collects, sleeps, ended, advance,
  Poller, vmss, lustre, Threads, Move, polls, acts, leads, move, run,
}

-- How many actions a poller is from its end, at most
abbrev actions_left : Place → ℕ
actions_left ended = 0
actions_left tests_stop = 1
actions_left awaits = 2
actions_left awaits_leader = 3
actions_left sleeps = 2
actions_left collects = 3
actions_left clears = 4
actions_left tests_leader = 5

-- How many collections it will begin, at most
abbrev collections_left : Place → ℕ
collections_left tests_leader = 1
collections_left clears = 1
collections_left _ = 0

abbrev begins : Place → ℕ
begins clears = 1
begins _ = 0

abbrev is_same : Poller → Poller → Bool
is_same vmss vmss = true
is_same vmss lustre = false
is_same lustre vmss = false
is_same lustre lustre = true

at_most_one : (p : Place) → collections_left p ≤ 1
at_most_one p = ground arith

at_most_five : (p : Place) → actions_left p ≤ 5
at_most_five p = ground arith

ended_or :
    (p : Place) (before spent : ℕ)
    → actions_left p ≤ before - spent
    → before ≤ 5
    → (p ≡ ended) ⊎ (spent < 5)
ended_or p before spent h k = ground (arith, h, k)

-- How often the poller goes on although a wait is not ended by its event
abbrev pub time_outs : {F : Type 0} → Poller → List (Move F) → ℕ
time_outs poller [] = 0
time_outs poller (polls other timed_out ∷ moves) =
    (if is_same poller other && timed_out then 1 else 0) + time_outs poller moves
time_outs poller (acts action ∷ moves) = time_outs poller moves
time_outs poller (leads is_leader ∷ moves) = time_outs poller moves

module _ {G F : Type 0} where
  guarded-stop_event :
      (write : Exporter G F → Exporter G F) (e : Exporter G F)
      → (write e).stop_event ≡ e.stop_event
      → (guarded write e).stop_event ≡ e.stop_event
  unfolding guarded
  guarded-stop_event write e h = ground (arith, h)

  advance-stopped :
      (timed_out : Bool) (p : Place) (e : Exporter G F)
      → e.stop_event ≡ true
      → let (q, e') = advance timed_out p e in
        (e'.stop_event ≡ true)
        × (actions_left q ≤ actions_left p - (if timed_out then 1 else 0))
        × (begins p + collections_left q ≤ collections_left p)
  unfolding advance clear_wake
  advance-stopped timed_out tests_stop e h = ground (arith, h)
  advance-stopped timed_out tests_leader e h = ground (arith, h)
  advance-stopped timed_out awaits e h = ground (arith, h)
  advance-stopped timed_out awaits_leader e h = ground (arith, h)
  advance-stopped timed_out clears e h = ground (arith, h)
  advance-stopped timed_out collects e h = ground (arith, h)
  advance-stopped timed_out sleeps e h = ground (arith, h)
  advance-stopped timed_out ended e h = ground (arith, h)

module _ {G F : Type 0} (floats : Floats F) (api : Gauges G F) where
  perform-stop_event :
      (action : Action F) (e : Exporter G F)
      → e.stop_event ≡ true
      → (perform floats api action e).stop_event ≡ true
  unfolding perform publish_vmss publish_standalone_vms publish_lustre summarize_vmss
      summarize_standalone_vms summarize_lustre fail_vmss fail_standalone_vms fail_lustre clear_wake
      stop
  perform-stop_event (publishes_vmss counts) e h =
      guarded-stop_event (write_vmss floats api counts) e refl ∙ h
  perform-stop_event (publishes_standalone_vms vms) e h =
      guarded-stop_event (write_standalone_vms floats api vms) e refl ∙ h
  perform-stop_event (publishes_lustre result) e h =
      guarded-stop_event (write_lustre floats api result) e refl ∙ h
  perform-stop_event (summarizes_vmss now duration counts) e h =
      guarded-stop_event (write_summary_vmss floats now duration counts) e refl ∙ h
  perform-stop_event (summarizes_standalone_vms now duration vms) e h =
      guarded-stop_event (write_summary_standalone_vms floats now duration vms) e refl ∙ h
  perform-stop_event (summarizes_lustre now duration result) e h =
      guarded-stop_event (write_summary_lustre floats now duration result) e refl ∙ h
  perform-stop_event (fails_vmss duration) e h = h
  perform-stop_event (fails_standalone_vms duration) e h = h
  perform-stop_event (fails_lustre duration) e h = h
  perform-stop_event clears_wake e h = h
  perform-stop_event stops e h = refl

  set_leader-stop_event :
      (is_leader : Bool) (e : Exporter G F)
      → e.stop_event ≡ true
      → (set_leader floats api is_leader e).stop_event ≡ true
  unfolding set_leader promote demote clear_resource_gauges
  set_leader-stop_event is_leader e h = ground (arith, h)

  acts-stop_event :
      (action : Action F) (t : Threads G F)
      → t.exporter.stop_event ≡ true
      → (move floats api (acts action) t).exporter.stop_event ≡ true
  unfolding move
  acts-stop_event action t h = perform-stop_event action t.exporter h

  leads-stop_event :
      (is_leader : Bool) (t : Threads G F)
      → t.exporter.stop_event ≡ true
      → (move floats api (leads is_leader) t).exporter.stop_event ≡ true
  unfolding move
  leads-stop_event is_leader t h = set_leader-stop_event is_leader t.exporter h

  -- How many collections a poller begins
  abbrev pub collections : Poller → List (Move F) → Threads G F → ℕ
  collections poller [] t = 0
  collections poller (polls other timed_out ∷ moves) t =
      (if is_same poller other then begins (t.place poller) else 0)
      + collections poller moves (move floats api (polls other timed_out) t)
  collections poller (acts action ∷ moves) t =
      collections poller moves (move floats api (acts action) t)
  collections poller (leads is_leader ∷ moves) t =
      collections poller moves (move floats api (leads is_leader) t)

  polls-stopped :
      (poller other : Poller) (timed_out : Bool) (t : Threads G F)
      → t.exporter.stop_event ≡ true
      → let t' = move floats api (polls other timed_out) t in
        (t'.exporter.stop_event ≡ true)
        × (actions_left (t'.place poller)
            ≤ actions_left (t.place poller) - (if is_same poller other && timed_out then 1 else 0))
        × ((if is_same poller other then begins (t.place poller) else 0)
              + collections_left (t'.place poller)
            ≤ collections_left (t.place poller))
  unfolding move
  polls-stopped vmss vmss timed_out t h = advance-stopped timed_out (t.place vmss) t.exporter h
  polls-stopped lustre lustre timed_out t h =
      advance-stopped timed_out (t.place lustre) t.exporter h
  polls-stopped vmss lustre timed_out t h =
      ((advance-stopped timed_out (t.place lustre) t.exporter h).0, omega arith, omega arith)
  polls-stopped lustre vmss timed_out t h =
      ((advance-stopped timed_out (t.place vmss) t.exporter h).0, omega arith, omega arith)

  run-bounds :
      (poller : Poller) (moves : List (Move F)) (t : Threads G F)
      → t.exporter.stop_event ≡ true
      → (actions_left ((run floats api moves t).place poller)
          ≤ actions_left (t.place poller) - time_outs poller moves)
        × (collections poller moves t ≤ collections_left (t.place poller))
  unfolding run
  run-bounds poller [] t h = (omega arith, omega arith)
  run-bounds poller (polls other timed_out ∷ moves) t h =
      let (h', left, begun) = polls-stopped poller other timed_out t h in
      let (actions, starts) =
        run-bounds poller moves (move floats api (polls other timed_out) t) h' in
      (omega (arith, left, actions), omega (arith, begun, starts))
  run-bounds poller (acts action ∷ moves) t h =
      run-bounds poller moves (move floats api (acts action) t) (acts-stop_event action t h)
  run-bounds poller (leads is_leader ∷ moves) t h =
      run-bounds poller moves (move floats api (leads is_leader) t) (leads-stop_event is_leader t h)

  -- Once the stop event is set, a poller begins at most one more collection, whatever the other
  -- threads do, and it has ended after five actions of its own in none of which it stays waiting.
  pub run-stopped :
      (poller : Poller) (moves : List (Move F)) (t : Threads G F)
      → t.exporter.stop_event ≡ true
      → (collections poller moves t ≤ 1)
        × (((run floats api moves t).place poller ≡ ended) ⊎ (time_outs poller moves < 5))
  run-stopped poller moves t h =
      let (actions, starts) = run-bounds poller moves t h in
      (
        omega (arith, starts, at_most_one (t.place poller)),
        ended_or ((run floats api moves t).place poller) (actions_left (t.place poller))
            (time_outs poller moves) actions (at_most_five (t.place poller)),
      )
