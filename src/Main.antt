-- ===== src/Main.antt =====
-- src/vmss_metrics_exporter/main.py: what `main` opens, runs and closes.
--
-- A call that leaves the module is a `Call`; `World` answers it by what has happened so far: it
-- returns, or it is stopped by an exception or by a KeyboardInterrupt. The events are kept with the
-- newest first. `once` is what `parse_args` makes of `--once`; logging is left out.
pub mod Ending
pub mod Opening
pub mod Closing
pub mod Callbacks
mod Examples
use azure_lustre_vmss_metric.Prelude.{
  ℕ, Bool, true, false, ◌&&◌, Option, none, some, List, [], ◌∷◌, if◌then◌else◌,
}
use azure_lustre_vmss_metric.Prelude.Number.{Floats, of_nat}
use azure_lustre_vmss_metric.Prelude.Result.{Result, ok, err}
use azure_lustre_vmss_metric.Config.{LeaderElectionSettings}
use azure_lustre_vmss_metric.Config.Load.{Settings}

-- What `main` holds in its variables until it closes it.
pub data Resource : Type 0 where
  credential resource_graph_client metrics_query_client exporter leader_election_runner : Resource

pub data Stop : Type 0 where
  keyboard_interrupt exception : Stop

pub data Call : Type 0 where
  load_settings configure_logging : Call
  create : Resource → Call
  new_vmss_collector new_lustre_collector new_standalone_vm_collector : Call
  collect_vmss collect_lustre collect_standalone_vms : Call
  load_incluster_kube_config new_leader_election_config new_leader_election_runner : Call
  start_http_server start_exporter wait_for_shutdown_signal : Call
  -- `time.sleep` of the drain
  sleep : Call
  -- `release`, `stop` or `close`
  close : Resource → Call

pub record Event : Type 0 where
  pub call : Call
  pub stopped : Option Stop

pub record World (F : Type 0) : Type 0 where
  pub settings : Result Stop (Settings F)
  pub answer : List Event → Call → Option Stop
  pub has_close : Resource → Bool

-- Which of the variables are not None.
pub record Opened : Type 0 where
  pub credential_open : Bool
  pub resource_graph_client_open : Bool
  pub metrics_query_client_open : Bool
  pub exporter_open : Bool
  pub leader_election_runner_open : Bool

pub record State (F : Type 0) : Type 0 where
  pub events : List Event
  pub opened : Opened
  pub loaded : Option (Settings F)
  pub shutdown_requested : Bool

abbrev pub M : Type 0 → Type 0 → Type 0
M F A = State F → Result Stop A × State F

abbrev pub result_of : Option Stop → Result Stop (Unit {0})
result_of none = ok tt
result_of (some e) = err e

module _ {F : Type 0} where
  abbrev pub pure : {A : Type 0} → A → M F A
  pure a s = (ok a, s)

  abbrev pub next : {A B : Type 0} → (A → M F B) → Result Stop A × State F → Result Stop B × State F
  next f (ok a, s) = f a s
  next f (err e, s) = (err e, s)

  infixl 5 ◌>>=◌ ◌>>◌
  abbrev pub ◌>>=◌ : {A B : Type 0} → M F A → (A → M F B) → M F B
  ◌>>=◌ m f s = next f (m s)

  abbrev pub ◌>>◌ : {B : Type 0} → M F (Unit {0}) → M F B → M F B
  m >> k = m >>= λ _. k

  abbrev pub when : Bool → M F (Unit {0}) → M F (Unit {0})
  when test m = if test then m else pure tt

  -- `with suppress(Exception)`
  abbrev pub tolerated : Result Stop (Unit {0}) × State F → Result Stop (Unit {0}) × State F
  tolerated (ok u, s) = (ok u, s)
  tolerated (err keyboard_interrupt, s) = (err keyboard_interrupt, s)
  tolerated (err exception, s) = (ok tt, s)

  abbrev pub suppressed : M F (Unit {0}) → M F (Unit {0})
  suppressed m s = tolerated (m s)

  abbrev pub noted : Call → Option Stop → State F → State F
  noted c stopped s = record s { events = record { call = c; stopped = stopped } ∷ s.events }

  abbrev pub with_opened : (Opened → Opened) → State F → State F
  with_opened f s = record s { opened = f s.opened }

  module _ (floats : Floats F) (world : World F) where
    unfoldable pub perform : Call → M F (Unit {0})
    perform c s = let stopped = world.answer s.events c in (result_of stopped, noted c stopped s)

    abbrev pub assigned :
        (Opened → Opened) → Result Stop (Unit {0}) × State F → Result Stop (Unit {0}) × State F
    assigned f (ok u, s) = (ok u, with_opened f s)
    assigned f (err e, s) = (err e, s)

    -- `variable = …`
    unfoldable pub open_as : Resource → (Opened → Opened) → M F (Unit {0})
    unfolding perform
    open_as r f s = assigned f (perform (create r) s)

    abbrev pub loaded_from : Result Stop (Settings F) → State F → Result Stop (Settings F) × State F
    loaded_from (ok settings) s =
        (ok settings, record (noted load_settings none s) { loaded = some settings })
    loaded_from (err e) s = (err e, noted load_settings (some e) s)

    unfoldable pub load : M F (Settings F)
    load s = loaded_from world.settings s

    -- `_create_lustre_collector`, which gets the client that was created under the same setting
    unfoldable pub create_lustre_collector : Settings F → M F (Unit {0})
    unfolding perform
    create_lustre_collector settings s =
        if settings.enable_managed_lustre_metrics
        then (if s.opened.metrics_query_client_open
            then perform new_lustre_collector s
            else (err exception, s))
        else (ok tt, s)

    unfoldable pub start_leader_election : Settings F → M F (Unit {0})
    unfolding perform open_as
    start_leader_election settings = when settings.leader_election.leader_election_enabled do
      perform load_incluster_kube_config
      perform new_leader_election_config
      perform new_leader_election_runner
      open_as leader_election_runner (λ o. record o { leader_election_runner_open = true })

    -- the branch of `--once`; the summaries are printed as they are collected
    unfoldable pub collect_once : Settings F → M F (Unit {0})
    unfolding perform
    collect_once settings = do
      perform collect_vmss
      when settings.enable_managed_lustre_metrics (perform collect_lustre)
      when settings.enable_standalone_vm_inventory (perform collect_standalone_vms)

    unfoldable pub serve : Settings F → M F (Unit {0})
    unfolding perform open_as start_leader_election
    serve settings = do
      open_as exporter (λ o. record o { exporter_open = true })
      start_leader_election settings
      perform start_http_server
      perform start_exporter
      perform wait_for_shutdown_signal
      λ s. (ok tt, record s { shutdown_requested = true })

    unfoldable pub set_up : M F (Settings F)
    unfolding perform open_as load create_lustre_collector
    set_up = load >>= λ settings. do
      perform configure_logging
      open_as credential (λ o. record o { credential_open = true })
      open_as resource_graph_client (λ o. record o { resource_graph_client_open = true })
      perform new_vmss_collector
      when settings.enable_managed_lustre_metrics
          (open_as metrics_query_client (λ o. record o { metrics_query_client_open = true }))
      create_lustre_collector settings
      when settings.enable_standalone_vm_inventory (perform new_standalone_vm_collector)
      pure settings

    -- the `try` block
    unfoldable pub body : Bool → M F (Unit {0})
    unfolding set_up collect_once serve
    body once = set_up >>= λ settings. if once then collect_once settings else serve settings

    -- `_drain_after_leader_release`
    unfoldable pub drain_after_leader_release : Settings F → M F (Unit {0})
    unfolding perform
    drain_after_leader_release settings =
        if floats.le settings.shutdown_drain_seconds (of_nat floats 0)
        then pure tt
        else perform sleep

    abbrev pub drain_if : Bool → Option (Settings F) → M F (Unit {0})
    drain_if true (some settings) = drain_after_leader_release settings
    drain_if true none = pure tt
    drain_if false loaded = pure tt

    -- `_close_if_supported`
    unfoldable pub close_if_supported : Resource → Bool → M F (Unit {0})
    unfolding perform
    close_if_supported r is_open =
        when (is_open && world.has_close r) (suppressed (perform (close r)))

    -- the `finally` block
    unfoldable pub clean_up : M F (Unit {0})
    unfolding perform drain_after_leader_release close_if_supported
    clean_up s =
        (do
          when s.opened.leader_election_runner_open
              (suppressed (perform (close leader_election_runner)))
          drain_if s.shutdown_requested s.loaded
          when s.opened.exporter_open (suppressed (perform (close exporter)))
          close_if_supported metrics_query_client s.opened.metrics_query_client_open
          close_if_supported resource_graph_client s.opened.resource_graph_client_open
          close_if_supported credential s.opened.credential_open)
          s

    abbrev pub exit_code : Result Stop (Unit {0}) → ℕ
    exit_code (ok u) = 0
    exit_code (err keyboard_interrupt) = 130
    exit_code (err exception) = 1

    -- An exception of the `finally` block leaves `main` in place of the exit code.
    abbrev pub finished : ℕ → Result Stop (Unit {0}) × State F → Result Stop ℕ × List Event
    finished code (ok u, s) = (ok code, s.events)
    finished code (err e, s) = (err e, s.events)

    abbrev pub fresh : State F
    fresh = record {
      events = [];
      opened = record {
        credential_open = false;
        resource_graph_client_open = false;
        metrics_query_client_open = false;
        exporter_open = false;
        leader_election_runner_open = false;
      };
      loaded = none;
      shutdown_requested = false;
    }

    unfoldable pub main : Bool → Result Stop ℕ × List Event
    unfolding body clean_up
    main once = let (r, s) = body once fresh in finished (exit_code r) (clean_up s)
