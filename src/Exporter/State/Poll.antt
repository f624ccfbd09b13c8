-- ===== src/Exporter/State/Poll.antt =====
-- The two polling loops, `_poll_vmss_forever` and `_poll_lustre_forever`, with where each stands,
-- among the other threads.
--
-- The sections of a collection are actions of their own, which may come at any time.
pub mod Stopped
mod Examples
use azure_lustre_vmss_metric.Prelude.{ℕ, ◌+◌, Bool, true, false, ◌||◌, List, [], ◌∷◌, if◌then◌else◌}
use azure_lustre_vmss_metric.Prelude.Number.{Floats}
use azure_lustre_vmss_metric.Exporter.Gauge.{Gauges}
use azure_lustre_vmss_metric.Exporter.State.{Exporter}
use azure_lustre_vmss_metric.Exporter.State.Leadership.{set_leader}
use azure_lustre_vmss_metric.Exporter.State.Collection.{clear_wake}
use azure_lustre_vmss_metric.Exporter.State.Steps.{Action, perform}

-- What a poller does next: the two tests of its loop, those of `_wait_for_leadership_or_stop`, the
-- clearing of the event, its collections, and the wait after them.
pub data Place : Type 0 where
  tests_stop tests_leader awaits awaits_leader clears collects sleeps ended : Place

module _ {G F : Type 0} where
  -- One action of a poller. A wait that the event does not end goes on until `timed_out`.
  unfoldable pub advance : Bool → Place → Exporter G F → Place × Exporter G F
  unfolding clear_wake
  advance timed_out tests_stop e = (if e.stop_event then ended else tests_leader, e)
  advance timed_out tests_leader e = (if e.is_leader_event then clears else awaits, e)
  advance timed_out awaits e = (if e.stop_event then tests_stop else awaits_leader, e)
  advance timed_out awaits_leader e =
      (if e.is_leader_event then tests_stop else if timed_out then awaits else awaits_leader, e)
  advance timed_out clears e = (collects, clear_wake e)
  advance timed_out collects e = (sleeps, e)
  advance timed_out sleeps e = (if e.wake_event || timed_out then tests_stop else sleeps, e)
  advance timed_out ended e = (ended, e)

pub data Poller : Type 0 where
  vmss lustre : Poller

pub record Threads (G F : Type 0) : Type 0 where
  pub exporter : Exporter G F
  pub place : Poller → Place

-- A poller goes on, or another thread does something to the exporter.
pub data Move (F : Type 0) : Type 0 where
  polls : Poller → Bool → Move F
  acts : Action F → Move F
  leads : Bool → Move F

abbrev pub placed : Poller → Place → (Poller → Place) → Poller → Place
placed vmss p place vmss = p
placed vmss p place lustre = place lustre
placed lustre p place vmss = place vmss
placed lustre p place lustre = p

module _ {G F : Type 0} (floats : Floats F) (api : Gauges G F) where
  unfoldable pub move : Move F → Threads G F → Threads G F
  unfolding advance perform set_leader
  move (polls poller timed_out) t =
      let (p, e) = advance timed_out (t.place poller) t.exporter in
      record t { exporter = e; place = placed poller p t.place }
  move (acts action) t = record t { exporter = perform floats api action t.exporter }
  move (leads is_leader) t = record t { exporter = set_leader floats api is_leader t.exporter }

  unfoldable pub run : List (Move F) → Threads G F → Threads G F
  unfolding move
  run [] t = t
  run (m ∷ moves) t = run moves (move m t)
