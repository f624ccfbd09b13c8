-- ===== src/Main/Closing.antt =====
-- `main` closes what it opened, and its exit code says what stopped it.
use azure_lustre_vmss_metric.Prelude.{
  ℕ, ◌≡◌, ◌≢◌, refl, Bool, true, false, ◌&&◌, not, Option, none, some, List, [], ◌∷◌, if◌then◌else◌,
  arith,
}
use azure_lustre_vmss_metric.Prelude.Number.{Floats, of_nat}
use azure_lustre_vmss_metric.Prelude.Result.{Result, ok, err}
use azure_lustre_vmss_metric.Config.Load.{Settings}
use azure_lustre_vmss_metric.Main.{
  Resource, credential, resource_graph_client, metrics_query_client, exporter,
  leader_election_runner, Stop, keyboard_interrupt, exception, sleep, close, Event, World, State, M,
  next, noted, result_of, perform, when, suppressed, tolerated, fresh, drain_after_leader_release,
  drain_if, close_if_supported, clean_up, exit_code, finished, body, main,
}
use azure_lustre_vmss_metric.Main.Ending.{held_after, without_last, first_stop, code_for, onto}
use azure_lustre_vmss_metric.Main.Opening.{IsSound, Ends, body-Ends}

-- What is relied on while `main` closes: clients and credentials can be closed, the handlers of
-- the signals keep a KeyboardInterrupt away, and the sleep ends by itself.
pub record IsCalm {F : Type 0} (world : World F) : Type 0 where
  pub closable : (r : Resource) → world.has_close r ≡ true
  pub undisturbed :
      (past : List Event) (r : Resource) → world.answer past (close r) ≢ some keyboard_interrupt
  pub wakes : (past : List Event) → world.answer past sleep ≡ none

without_last_self : (r : Resource) (held : List Resource) → without_last r (r ∷ held) ≡ some held
without_last_self credential held = refl
without_last_self resource_graph_client held = refl
without_last_self metrics_query_client held = refl
without_last_self exporter held = refl
without_last_self leader_election_runner held = refl

module _ {F : Type 0} where
  pub record Leaves (held : List Resource) (stop : Option Stop) (s : State F) : Type 0 where
    pub holds : held_after s.events ≡ some held
    pub blames : first_stop s.events ≡ stop

  -- Nothing is raised, and `held` is left open.
  abbrev Cleared : List Resource → Option Stop → Result Stop (Unit {0}) × State F → Type 0
  Cleared held stop (ok u, s) = Leaves held stop s
  Cleared held stop (err e, s) = ⊥

  Cleared-next :
      (held held' : List Resource) (stop : Option Stop) (f : Unit {0} → M F (Unit {0}))
      (r : Result Stop (Unit {0}) × State F)
      → Cleared held stop r
      → ((s : State F) → Leaves held stop s → Cleared held' stop (f tt s))
      → Cleared held' stop (next f r)
  Cleared-next held held' stop f (ok u, s) h each = each s h
  Cleared-next held held' stop f (err e, s) h each = absurd h

  noted-Leaves :
      (r : Resource) (held : List Resource) (stop stopped : Option Stop) (s : State F)
      → Leaves (r ∷ held) stop s
      → Leaves held stop (noted (close r) stopped s)
  noted-Leaves r held none stopped s h = ground (arith, h.holds, h.blames, without_last_self r held)
  noted-Leaves r held (some e) stopped s h =
      ground (arith, h.holds, h.blames, without_last_self r held)

  tolerated-Cleared :
      (held : List Resource) (stop stopped : Option Stop) (s : State F)
      → stopped ≢ some keyboard_interrupt
      → Leaves held stop s
      → Cleared held stop (tolerated (result_of stopped, s))
  tolerated-Cleared held stop none s calm h = h
  tolerated-Cleared held stop (some exception) s calm h = h
  tolerated-Cleared held stop (some keyboard_interrupt) s calm h = absurd (calm refl)

  if-Cleared :
      (test : Bool) (held : List Resource) (stop : Option Stop) (m m' : M F (Unit {0}))
      (s : State F)
      → Cleared held stop (m s)
      → Cleared held stop (m' s)
      → Cleared held stop ((if test then m else m') s)
  if-Cleared true held stop m m' s h h' = h
  if-Cleared false held stop m m' s h h' = h'

  module _ (floats : Floats F) (world : World F) (calm : IsCalm world) where
    closed-Cleared :
        (is_open : Bool) (r : Resource) (held : List Resource) (stop : Option Stop) (s : State F)
        → Leaves (onto is_open r held) stop s
        → Cleared held stop (when is_open (suppressed (perform floats world (close r))) s)
    unfolding perform
    closed-Cleared false r held stop s h = h
    closed-Cleared true r held stop s h =
        tolerated-Cleared held stop (world.answer s.events (close r)) _
          (calm.undisturbed s.events r)
          (noted-Leaves r held stop (world.answer s.events (close r)) s h)

    supported-Cleared :
        (is_open : Bool) (r : Resource) (held : List Resource) (stop : Option Stop) (s : State F)
        → Leaves (onto is_open r held) stop s
        → Cleared held stop (close_if_supported floats world r is_open s)
    unfolding close_if_supported
    supported-Cleared false r held stop s h = h
    supported-Cleared true r held stop s h =
        rw (calm.closable r) (closed-Cleared true r held stop s h)

    slept-Cleared :
        (settings : Settings F) (held : List Resource) (stop : Option Stop) (s : State F)
        → Leaves (exporter ∷ held) stop s
        → Cleared (exporter ∷ held) stop (drain_after_leader_release floats world settings s)
    unfolding drain_after_leader_release perform
    slept-Cleared settings held stop s h =
        if-Cleared (floats.le settings.shutdown_drain_seconds (of_nat floats 0)) (exporter ∷ held)
          stop _ _ s h (asleep (world.answer s.events sleep) (calm.wakes s.events))
      where
        asleep :
            (stopped : Option Stop)
            → stopped ≡ none
            → Cleared (exporter ∷ held) stop (result_of stopped, noted sleep stopped s)
        asleep none is = record {
          holds = ground (arith, h.holds);
          blames = ground (arith, h.blames);
        }
        asleep (some e) is = absurd (ground (arith, is))

    drain_if-Cleared :
        (requested serving : Bool) (loaded : Option (Settings F)) (rest : List Resource)
        (stop : Option Stop) (s : State F)
        → (requested && not serving) ≡ false
        → Leaves (onto serving exporter rest) stop s
        → Cleared (onto serving exporter rest) stop (drain_if floats world requested loaded s)
    drain_if-Cleared false serving loaded rest stop s fits h = h
    drain_if-Cleared true serving none rest stop s fits h = h
    drain_if-Cleared true true (some settings) rest stop s fits h =
        slept-Cleared settings rest stop s h
    drain_if-Cleared true false (some settings) rest stop s fits h = absurd (ground (arith, fits))

    clean_up-Cleared :
        (stop : Option Stop) (s : State F)
        → IsSound s stop
        → Cleared [] stop (clean_up floats world s)
    unfolding clean_up
    clean_up-Cleared stop s h =
        Cleared-next _ [] stop _ _
          (closed-Cleared s.opened.leader_election_runner_open leader_election_runner _ stop s
            (record { holds = h.holds; blames = h.blames }))
          λ t h₁.
            Cleared-next _ [] stop _ _
              (drain_if-Cleared s.shutdown_requested s.opened.exporter_open s.loaded _ stop t
                h.serving h₁)
              λ t h.
                Cleared-next _ [] stop _ _
                  (closed-Cleared s.opened.exporter_open exporter _ stop t h)
                  λ t h.
                    Cleared-next _ [] stop _ _
                      (supported-Cleared s.opened.metrics_query_client_open metrics_query_client _
                        stop t h)
                      λ t h.
                        Cleared-next _ [] stop _ _
                          (supported-Cleared s.opened.resource_graph_client_open
                            resource_graph_client _ stop t h)
                          λ t h. supported-Cleared s.opened.credential_open credential [] stop t h

    -- What `main` promises.
    pub record Ended (r : Result Stop ℕ × List Event) : Type 0 where
      pub code : ℕ
      pub returns : r.0 ≡ ok code
      pub status : code ≡ code_for (first_stop r.1)
      pub closes : held_after r.1 ≡ some []

    cleared-Ended :
        (code : ℕ) (stop : Option Stop) (r : Result Stop (Unit {0}) × State F)
        → code ≡ code_for stop
        → Cleared [] stop r
        → Ended (finished floats world code r)
    cleared-Ended code stop (ok u, s) is h = record {
      code = code;
      returns = refl;
      status = ground (arith, is, h.blames);
      closes = h.holds;
    }
    cleared-Ended code stop (err e, s) is h = absurd h

    ends-Ended :
        (r : Result Stop (Unit {0}) × State F)
        → Ends (λ u s. IsSound s none) r
        → Ended (finished floats world (exit_code floats world r.0) (clean_up floats world r.1))
    ends-Ended (ok u, s) h = cleared-Ended 0 none _ refl (clean_up-Cleared none s h)
    ends-Ended (err keyboard_interrupt, s) h =
        cleared-Ended 130 (some keyboard_interrupt) _ refl
          (clean_up-Cleared (some keyboard_interrupt) s h)
    ends-Ended (err exception, s) h =
        cleared-Ended 1 (some exception) _ refl (clean_up-Cleared (some exception) s h)

    -- In a calm world `main` returns, whatever the other calls answer: with 0 if no call of the `try` block was stopped,
    -- with 130 if a KeyboardInterrupt stopped it and with 1 if another exception did.
    pub main-code :
        (once : Bool)
        → (code : ℕ) × ((main floats world once).0 ≡ ok code)
          × (code ≡ code_for (first_stop (main floats world once).1))
    unfolding main
    main-code once =
        let ended =
          ends-Ended (body floats world once (fresh floats world)) (body-Ends floats world once) in
        (ended.code, ended.returns, ended.status)

    -- In a calm world all that `main` opened is closed when it ends, whatever the other calls answer:
    -- each once, in the reverse order of its opening. A drain takes place after the Lease is released
    -- and before the exporter is stopped.
    pub main-closes : (once : Bool) → held_after (main floats world once).1 ≡ some []
    unfolding main
    main-closes once =
        (ends-Ended (body floats world once (fresh floats world))
          (body-Ends floats world once)).closes
