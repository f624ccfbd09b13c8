-- ===== src/Main/Opening.antt =====
-- The `try` block holds what its variables say, however it is stopped.
use azure_lustre_vmss_metric.Prelude.{
  ◌≡◌, refl, Bool, true, false, ◌&&◌, not, Option, none, some, ◌∷◌, if◌then◌else◌, arith, subst,
  sym, ap,
}
use azure_lustre_vmss_metric.Prelude.Number.{Floats}
use azure_lustre_vmss_metric.Prelude.Result.{Result, ok, err}
use azure_lustre_vmss_metric.Config.Load.{Settings}
use azure_lustre_vmss_metric.Main.{
  Resource, credential, resource_graph_client, metrics_query_client, exporter,
  leader_election_runner, Stop, exception, Call, create, World, Opened, State, M, next, ◌>>◌, noted,
  result_of, perform, assigned, open_as, load, loaded_from, create_lustre_collector,
  start_leader_election, configure_logging, new_vmss_collector, new_lustre_collector,
  new_standalone_vm_collector, load_incluster_kube_config, new_leader_election_config,
  new_leader_election_runner, start_http_server, start_exporter, wait_for_shutdown_signal,
  collect_vmss, collect_lustre, collect_standalone_vms, collect_once, serve, set_up, body, fresh,
  when,
}
use azure_lustre_vmss_metric.Main.Ending.{after, held_after, blame, first_stop, stack_of}

module _ {F : Type 0} where
  pub record IsSound (s : State F) (stop : Option Stop) : Type 0 where
    pub holds : held_after s.events ≡ some (stack_of s.opened)
    pub blames : first_stop s.events ≡ stop
    pub serving : (s.shutdown_requested && not s.opened.exporter_open) ≡ false

  pub record Holds (o : Opened) (s : State F) : Type 0 where
    pub opens : s.opened ≡ o
    pub keeps : held_after s.events ≡ some (stack_of o)
    pub goes_on : first_stop s.events ≡ none
    pub not_requested : s.shutdown_requested ≡ false

  -- `Q` of what is returned, or the exception is to blame.
  abbrev pub Ends : {A : Type 0} → (A → State F → Type 0) → Result Stop A × State F → Type 0
  Ends Q (ok a, s) = Q a s
  Ends Q (err e, s) = IsSound s (some e)

  Ends-next :
      {A B : Type 0} (Q : A → State F → Type 0) (R : B → State F → Type 0) (f : A → M F B)
      (r : Result Stop A × State F)
      → Ends Q r
      → ((a : A) (s : State F) → Q a s → Ends R (f a s))
      → Ends R (next f r)
  Ends-next Q R f (ok a, s) h each = each a s h
  Ends-next Q R f (err e, s) h each = h

  branch-Ends :
      {A : Type 0} (test : Bool) (Q : A → State F → Type 0) (r r' : Result Stop A × State F)
      → test ≡ true
      → Ends Q r
      → Ends Q (if test then r else r')
  branch-Ends true Q r r' is h = h
  branch-Ends false Q r r' is h = absurd (ground (arith, is))

  noted-Ends :
      (c : Call) (stopped : Option Stop) (o : Opened) (s : State F)
      → ((stop : Option Stop) → after c stop (some (stack_of o)) ≡ some (stack_of o))
      → ((stop : Option Stop) → blame c stop ≡ stop)
      → Holds o s
      → Ends (λ u. Holds o) (result_of stopped, noted c stopped s)
  noted-Ends c none o s plain blames h = ground (arith, plain none, blames none)
  noted-Ends c (some e) o s plain blames h = ground (arith, plain (some e), blames (some e))

  module _ (floats : Floats F) (world : World F) where
    perform-Ends :
        (c : Call) (o : Opened) (s : State F)
        → ((stop : Option Stop) → after c stop (some (stack_of o)) ≡ some (stack_of o))
        → ((stop : Option Stop) → blame c stop ≡ stop)
        → Holds o s
        → Ends (λ u. Holds o) (perform floats world c s)
    unfolding perform
    perform-Ends c o s plain blames h = noted-Ends c (world.answer s.events c) o s plain blames h

    assigned-Ends :
        (r : Resource) (f : Opened → Opened) (stopped : Option Stop) (o : Opened) (s : State F)
        → stack_of (f o) ≡ r ∷ stack_of o
        → Holds o s
        → Ends
            (λ u. Holds (f o))
            (assigned floats world f (result_of stopped, noted (create r) stopped s))
    assigned-Ends r f none o s fits h = record {
      opens = ap f h.opens;
      keeps = ground (arith, h.keeps, fits);
      goes_on = ground (arith, h.goes_on);
      not_requested = h.not_requested;
    }
    assigned-Ends r f (some e) o s fits h = ground arith

    open_as-Ends :
        (r : Resource) (f : Opened → Opened) (o : Opened) (s : State F)
        → stack_of (f o) ≡ r ∷ stack_of o
        → Holds o s
        → Ends (λ u. Holds (f o)) (open_as floats world r f s)
    unfolding open_as perform
    open_as-Ends r f o s fits h = assigned-Ends r f (world.answer s.events (create r)) o s fits h

    -- what the variables hold when the set-up is done
    abbrev clients : Bool → Opened
    clients lustre = record {
      credential_open = true;
      resource_graph_client_open = true;
      metrics_query_client_open = lustre;
      exporter_open = false;
      leader_election_runner_open = false;
    }

    -- a call under a setting, which opens nothing
    when-Ends :
        (test : Bool) (m : M F (Unit {0})) (o : Opened) (s : State F)
        → Holds o s
        → Ends (λ u. Holds o) (m s)
        → Ends (λ u. Holds o) (when test m s)
    when-Ends true m o s h run = run
    when-Ends false m o s h run = h

    plain-Ends :
        {B : Type 0} (c : Call) (o : Opened) (R : B → State F → Type 0) (f : Unit {0} → M F B)
        (s : State F)
        → ((stop : Option Stop) → after c stop (some (stack_of o)) ≡ some (stack_of o))
        → ((stop : Option Stop) → blame c stop ≡ stop)
        → Holds o s
        → ((s' : State F) → Holds o s' → Ends R (f tt s'))
        → Ends R (next f (perform floats world c s))
    plain-Ends c o R f s plain blames h each =
        Ends-next (λ u. Holds o) R f (perform floats world c s) (perform-Ends c o s plain blames h)
          (λ u. each)

    collect_once-Ends :
        (settings : Settings F) (o : Opened) (s : State F)
        → Holds o s
        → Ends (λ u s'. Holds o s') (collect_once floats world settings s)
    unfolding collect_once
    collect_once-Ends settings o s h =
        plain-Ends collect_vmss o _ _ s (λ stop. refl) (λ stop. refl) h
          λ s h.
            Ends-next (λ u. Holds o) _ _
              (when settings.enable_managed_lustre_metrics (perform floats world collect_lustre) s)
              (when-Ends settings.enable_managed_lustre_metrics
                (perform floats world collect_lustre) o s h
                (perform-Ends collect_lustre o s (λ stop. refl) (λ stop. refl) h))
              λ u s h.
                when-Ends settings.enable_standalone_vm_inventory
                  (perform floats world collect_standalone_vms) o s h
                  (perform-Ends collect_standalone_vms o s (λ stop. refl) (λ stop. refl) h)

    nothing-Holds : Holds (fresh floats world).opened (fresh floats world)
    nothing-Holds = record { opens = refl; keeps = refl; goes_on = refl; not_requested = refl }

    loaded_from-Ends :
        (r : Result Stop (Settings F))
        → Ends
            (λ settings. Holds (fresh floats world).opened)
            (loaded_from floats world r (fresh floats world))
    loaded_from-Ends (ok settings) = record {
      opens = refl;
      keeps = refl;
      goes_on = refl;
      not_requested = refl;
    }
    loaded_from-Ends (err e) = record { holds = refl; blames = refl; serving = refl }

    load-Ends :
        Ends
          (λ settings. Holds (fresh floats world).opened)
          (load floats world (fresh floats world))
    unfolding load
    load-Ends = loaded_from-Ends world.settings

    metrics_query_client-Ends :
        (lustre : Bool) (s : State F)
        → Holds (clients false) s
        → Ends
            (λ u. Holds (clients lustre))
            (when lustre
              (open_as floats world metrics_query_client
                (λ o. record o { metrics_query_client_open = true }))
              s)
    metrics_query_client-Ends true s h =
        open_as-Ends metrics_query_client _ (clients false) s refl h
    metrics_query_client-Ends false s h = h

    lustre_collector-Ends :
        (lustre : Bool) (s : State F)
        → Holds (clients lustre) s
        → Ends
            (λ u. Holds (clients lustre))
            (if lustre
              then (if s.opened.metrics_query_client_open
                  then perform floats world new_lustre_collector s
                  else (err exception, s))
              else (ok tt, s))
    lustre_collector-Ends true s h =
        branch-Ends s.opened.metrics_query_client_open _
          (perform floats world new_lustre_collector s) (err exception, s)
          (ap (λ (o : Opened). o.metrics_query_client_open) h.opens)
          (perform-Ends new_lustre_collector (clients true) s (λ stop. refl) (λ stop. refl) h)
    lustre_collector-Ends false s h = h

    create_lustre_collector-Ends :
        (settings : Settings F) (s : State F)
        → Holds (clients settings.enable_managed_lustre_metrics) s
        → Ends
            (λ u. Holds (clients settings.enable_managed_lustre_metrics))
            (create_lustre_collector floats world settings s)
    unfolding create_lustre_collector
    create_lustre_collector-Ends settings s h =
        lustre_collector-Ends settings.enable_managed_lustre_metrics s h

    set_up-Ends :
        Ends
          (λ (settings : Settings F). Holds (clients settings.enable_managed_lustre_metrics))
          (set_up floats world (fresh floats world))
    unfolding set_up
    set_up-Ends =
        Ends-next (λ settings. Holds (fresh floats world).opened) _ _
          (load floats world (fresh floats world)) load-Ends
          λ settings s h.
            plain-Ends configure_logging _ _ _ s (λ stop. refl) (λ stop. refl) h
              λ s h.
                Ends-next (λ u. Holds _) _ _
                  (open_as floats world credential (λ o. record o { credential_open = true }) s)
                  (open_as-Ends credential _ (fresh floats world).opened s refl h)
                  λ u s h.
                    Ends-next (λ u. Holds (clients false)) _ _
                      (open_as floats world resource_graph_client
                        (λ o. record o { resource_graph_client_open = true }) s)
                      (open_as-Ends resource_graph_client _ _ s refl h)
                      λ u s h.
                        plain-Ends new_vmss_collector (clients false) _ _ s (λ stop. refl)
                          (λ stop. refl) h
                          λ s h.
                            Ends-next (λ u. Holds (clients settings.enable_managed_lustre_metrics))
                              _ _ _
                              (metrics_query_client-Ends settings.enable_managed_lustre_metrics s h)
                              λ u s h.
                                Ends-next
                                  (λ u. Holds (clients settings.enable_managed_lustre_metrics)) _ _
                                  _ (create_lustre_collector-Ends settings s h)
                                  λ u s h.
                                    Ends-next
                                      (λ u. Holds (clients settings.enable_managed_lustre_metrics))
                                      _ _ _
                                      (when-Ends settings.enable_standalone_vm_inventory
                                        (perform floats world new_standalone_vm_collector) _ s h
                                        (perform-Ends new_standalone_vm_collector _ s (λ stop. refl)
                                          (λ stop. refl) h))
                                      λ u s h. h

    -- what the variables hold while the program serves
    abbrev serving_with : Bool → Bool → Opened
    serving_with lustre election = record (clients lustre) {
      exporter_open = true;
      leader_election_runner_open = election;
    }

    runner-Ends :
        (election lustre : Bool) (s : State F)
        → Holds (serving_with lustre false) s
        → Ends
            (λ u. Holds (serving_with lustre election))
            (when election
              (do
                perform floats world load_incluster_kube_config
                perform floats world new_leader_election_config
                perform floats world new_leader_election_runner
                open_as floats world leader_election_runner
                    (λ o. record o { leader_election_runner_open = true }))
              s)
    runner-Ends false lustre s h = h
    runner-Ends true lustre s h =
        plain-Ends load_incluster_kube_config _ _ _ s (λ stop. refl) (λ stop. refl) h
          λ s h.
            plain-Ends new_leader_election_config _ _ _ s (λ stop. refl) (λ stop. refl) h
              λ s h.
                plain-Ends new_leader_election_runner _ _ _ s (λ stop. refl) (λ stop. refl) h
                  λ s h. open_as-Ends leader_election_runner _ (serving_with lustre false) s refl h

    Holds-IsSound : (o : Opened) (s : State F) → Holds o s → IsSound s none
    Holds-IsSound o s h = record {
      holds = subst (λ o'. held_after s.events ≡ some (stack_of o')) (sym h.opens) h.keeps;
      blames = h.goes_on;
      serving = rw h.not_requested;
    }

    requested-IsSound :
        (o : Opened) (s : State F)
        → o.exporter_open ≡ true
        → Holds o s
        → IsSound (record s { shutdown_requested = true }) none
    requested-IsSound o s serves h = record {
      holds = subst (λ o'. held_after s.events ≡ some (stack_of o')) (sym h.opens) h.keeps;
      blames = h.goes_on;
      serving = ground (arith, serves, ap (λ (o' : Opened). o'.exporter_open) h.opens);
    }

    exporter_last :
        (lustre : Bool)
        → stack_of (serving_with lustre false) ≡ exporter ∷ stack_of (clients lustre)
    exporter_last true = refl
    exporter_last false = refl

    weakened :
        (o : Opened) (r : Result Stop (Unit {0}) × State F)
        → Ends (λ u. Holds o) r
        → Ends (λ u s. IsSound s none) r
    weakened o (ok u, s) h = Holds-IsSound o s h
    weakened o (err e, s) h = h

    serve-Ends :
        (settings : Settings F) (lustre : Bool) (s : State F)
        → Holds (clients lustre) s
        → Ends (λ u s'. IsSound s' none) (serve floats world settings s)
    unfolding serve start_leader_election
    serve-Ends settings lustre s h =
        Ends-next (λ u. Holds (serving_with lustre false)) _ _
          (open_as floats world exporter (λ o. record o { exporter_open = true }) s)
          (open_as-Ends exporter _ (clients lustre) s (exporter_last lustre) h)
          λ u s h.
            Ends-next
              (λ u. Holds (serving_with lustre settings.leader_election.leader_election_enabled)) _
              _ (start_leader_election floats world settings s)
              (runner-Ends settings.leader_election.leader_election_enabled lustre s h)
              λ u s h.
                plain-Ends start_http_server _ _ _ s (λ stop. refl) (λ stop. refl) h
                  λ s h.
                    plain-Ends start_exporter _ _ _ s (λ stop. refl) (λ stop. refl) h
                      λ s h.
                        plain-Ends wait_for_shutdown_signal _ _ _ s (λ stop. refl) (λ stop. refl) h
                          λ s h. requested-IsSound _ s refl h

    once-Ends :
        (once : Bool) (settings : Settings F) (lustre : Bool) (s : State F)
        → Holds (clients lustre) s
        → Ends
            (λ u s'. IsSound s' none)
            ((if once then collect_once floats world settings else serve floats world settings) s)
    once-Ends false settings lustre s h = serve-Ends settings lustre s h
    once-Ends true settings lustre s h =
        weakened _ _ (collect_once-Ends settings (clients lustre) s h)

    -- However the `try` block ends, what is open is what the variables hold, in the order of their
    -- opening, and the call that stopped it is the one to blame.
    pub body-Ends :
        (once : Bool) → Ends (λ u s. IsSound s none) (body floats world once (fresh floats world))
    unfolding body
    body-Ends once =
        Ends-next
          (λ (settings : Settings F). Holds (clients settings.enable_managed_lustre_metrics)) _ _
          (set_up floats world (fresh floats world)) set_up-Ends
          λ settings s h. once-Ends once settings settings.enable_managed_lustre_metrics s h
