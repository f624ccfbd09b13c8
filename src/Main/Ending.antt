-- ===== src/Main/Ending.antt =====
-- How a run of `main` is read off its events.
use azure_lustre_vmss_metric.Prelude.{
  ℕ, Bool, true, false, Option, none, some, List, [], ◌∷◌, ◌==◌, nat_eq, if◌then◌else◌,
}
use azure_lustre_vmss_metric.Main.{
  Resource, credential, resource_graph_client, metrics_query_client, exporter,
  leader_election_runner, Stop, keyboard_interrupt, exception, Call, create, sleep, close, Event,
  Opened,
}

abbrev pub number : Resource → ℕ
number credential = 0
number resource_graph_client = 1
number metrics_query_client = 2
number exporter = 3
number leader_election_runner = 4

-- Only what was opened last may be closed.
abbrev pub without_last : Resource → List Resource → Option (List Resource)
without_last r [] = none
without_last r (last ∷ held) = if number r == number last then some held else none

-- The drain is for a process that still serves, and has released the Lease.
abbrev pub while_serving : List Resource → Option (List Resource)
while_serving (exporter ∷ held) = some (exporter ∷ held)
while_serving held = none

abbrev pub after : Call → Option Stop → Option (List Resource) → Option (List Resource)
after c stopped none = none
after (create r) none (some held) = some (r ∷ held)
after (create r) (some e) (some held) = some held
after (close r) stopped (some held) = without_last r held
after sleep stopped (some held) = while_serving held
after c stopped (some held) = some held

-- What is open after the events, the newest first; `none` where something was closed out of order,
-- twice or without having been opened, or the drain was not in its place.
abbrev pub held_after : List Event → Option (List Resource)
held_after [] = some []
held_after (event ∷ past) = after event.call event.stopped (held_after past)

-- What a call of the `try` block was stopped by.
abbrev pub blame : Call → Option Stop → Option Stop
blame (close r) stopped = none
blame sleep stopped = none
blame c stopped = stopped

abbrev pub earlier : Option Stop → Option Stop → Option Stop
earlier none later = later
earlier (some e) later = some e

-- The first call of the `try` block that was stopped.
abbrev pub first_stop : List Event → Option Stop
first_stop [] = none
first_stop (event ∷ past) = earlier (first_stop past) (blame event.call event.stopped)

abbrev pub code_for : Option Stop → ℕ
code_for none = 0
code_for (some keyboard_interrupt) = 130
code_for (some exception) = 1

abbrev pub onto : Bool → Resource → List Resource → List Resource
onto true r held = r ∷ held
onto false r held = held

abbrev pub stack_of : Opened → List Resource
stack_of o = onto o.leader_election_runner_open leader_election_runner (
    onto o.exporter_open exporter (
      onto o.metrics_query_client_open metrics_query_client (
        onto o.resource_graph_client_open resource_graph_client
          (onto o.credential_open credential []))))
