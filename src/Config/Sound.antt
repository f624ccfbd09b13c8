-- ===== src/Config/Sound.antt =====
-- What `load_settings` returns.
use azure_lustre_vmss_metric.Prelude.{
  ◌≤◌, String, ◌≡◌, ◌⊎◌, inl, inr, Bool, true, false, ◌&&◌, Option, none, some, List, is_empty,
  ◌==◌, string_eq, if◌then◌else◌, arith, subst, sym, refl, Bool-cases,
}
use azure_lustre_vmss_metric.Prelude.Number.{Floats, of_nat}
use azure_lustre_vmss_metric.Prelude.Result.{ok, err, ok-injective}
use azure_lustre_vmss_metric.Config.{
  Env, default_to, get_int, get_bool, load_leader_election_settings,
}
use azure_lustre_vmss_metric.Config.Load.{
  LoadError, Settings, parse_subscription_ids, get_int_from, lifted, float_in_range, read_float,
  load_rest, load_settings,
}
use azure_lustre_vmss_metric.Config.Subscriptions.{IsDistinct, contains-parse_subscription_ids}
use azure_lustre_vmss_metric.Config.Bounds.{
  bind_then, lifted-ok, read_int-bounds, read_int_from-le, IsElection,
  load_leader_election_settings-IsElection,
}

module _ {F : Type 0} (floats : Floats F) (parse_float : String → Option F) where
  -- What a float that was read is known to be: neither comparison holds of a NaN.
  abbrev pub IsRead : F → F → F → F → Type 0
  IsRead default minimum maximum value =
      (value ≡ default) ⊎ ((floats.lt value minimum ≡ false) × (floats.lt maximum value ≡ false))

  float_in_range-IsRead :
      (default minimum maximum value : F) (parsed : Option F)
      → float_in_range floats parse_float minimum maximum parsed ≡ ok value
      → IsRead default minimum maximum value
  unfolding float_in_range
  float_in_range-IsRead default minimum maximum value none h = ground (arith, h)
  float_in_range-IsRead default minimum maximum value (some v) h = ground (arith, h)

  read_float-IsRead :
      (raw : Option String) (default minimum maximum value : F)
      → read_float floats parse_float raw default minimum maximum ≡ ok value
      → IsRead default minimum maximum value
  unfolding read_float
  read_float-IsRead none default minimum maximum value h = ground (arith, h)
  read_float-IsRead (some raw) default minimum maximum value h = elim (Bool-cases (raw == "")) [
    | inl blank ↦ ground (arith, h, blank)
    | inr set ↦ float_in_range-IsRead default minimum maximum value (parse_float raw) (rw set at h)
  ]

  pub record IsSound (s : Settings F) : Type 0 where
    pub polls : (30 ≤ s.poll_interval_seconds) × (15 ≤ s.lustre_poll_interval_seconds)
    pub port_in : (1 ≤ s.port) × (s.port ≤ 65535)
    pub page_size_in : (1 ≤ s.arg_page_size) × (s.arg_page_size ≤ 1000)
    pub max_retries_in : (0 ≤ s.arg_max_retries) × (s.arg_max_retries ≤ 10)
    pub lookback_in :
        (1 ≤ s.lustre_metrics_lookback_minutes) × (s.lustre_metrics_lookback_minutes ≤ 1440)
    pub max_workers_in : (1 ≤ s.lustre_metrics_max_workers) × (s.lustre_metrics_max_workers ≤ 32)
    pub max_inventory_in :
        (100 ≤ s.standalone_vm_max_inventory) × (s.standalone_vm_max_inventory ≤ 100000)
    pub base_delay_in :
        IsRead (of_nat floats 1) (of_nat floats 0) (of_nat floats 60) s.arg_retry_base_delay_seconds
    pub jitter_in :
        IsRead
          (floats.div (of_nat floats 1) (of_nat floats 2))
          (of_nat floats 0)
          (of_nat floats 60)
          s.lustre_metrics_request_jitter_seconds
    pub drain_in :
        IsRead (of_nat floats 0) (of_nat floats 0) (of_nat floats 120) s.shutdown_drain_seconds
    pub election : IsElection s.leader_election

  module _ (upper : String → String) (env : Env) where
    load_rest-IsSound :
        (ids : List String) (s : Settings F)
        → load_rest floats parse_float upper env ids ≡ ok s
        → IsSound s × (s.subscription_ids ≡ ids)
    unfolding load_rest get_int get_int_from
    load_rest-IsSound ids s h =
        bind_then (lifted (get_int_from env "POLL_INTERVAL_SECONDS" 300 30)) h λ poll is_poll h.
          bind_then (lifted (get_int env "PORT" 8000 1 65535)) h λ port is_port h.
            bind_then (lifted (get_int env "ARG_PAGE_SIZE" 1000 1 1000)) h λ size is_size h.
              bind_then (lifted (get_int env "ARG_MAX_RETRIES" 3 0 10)) h λ retries is_retries h.
                bind_then
                  (read_float floats parse_float (env.getenv "ARG_RETRY_BASE_DELAY_SECONDS")
                    (of_nat floats 1) (of_nat floats 0) (of_nat floats 60))
                  h
                  λ delay is_delay h.
                    bind_then (lifted (get_bool env "ENABLE_MANAGED_LUSTRE_METRICS" true)) h
                      λ _ _ h.
                        bind_then (lifted (get_int_from env "LUSTRE_POLL_INTERVAL_SECONDS" 60 15)) h
                          λ interval is_interval h.
                            bind_then
                              (lifted (get_int env "LUSTRE_METRICS_LOOKBACK_MINUTES" 15 1 1440)) h
                              λ lookback is_lookback h.
                                bind_then (lifted (get_int env "LUSTRE_METRICS_MAX_WORKERS" 4 1 32))
                                  h
                                  λ workers is_workers h.
                                    bind_then
                                      (read_float floats parse_float
                                        (env.getenv "LUSTRE_METRICS_REQUEST_JITTER_SECONDS")
                                        (floats.div (of_nat floats 1) (of_nat floats 2))
                                        (of_nat floats 0) (of_nat floats 60))
                                      h
                                      λ jitter is_jitter h.
                                        bind_then
                                          (lifted
                                            (get_bool env "ENABLE_STANDALONE_VM_INVENTORY" true))
                                          h
                                          λ _ _ h.
                                            bind_then
                                              (lifted (
                                                get_int env "STANDALONE_VM_MAX_INVENTORY" 5000 100
                                                  100000))
                                              h
                                              λ inventory is_inventory h.
                                                bind_then
                                                  (read_float floats parse_float
                                                    (env.getenv "SHUTDOWN_DRAIN_SECONDS")
                                                    (of_nat floats 0) (of_nat floats 0)
                                                    (of_nat floats 120))
                                                  h
                                                  λ drain is_drain h.
                                                    bind_then
                                                      (lifted (load_leader_election_settings env)) h
                                                      λ election is_election h.
                                                        subst
                                                          (λ (s : Settings F).
                                                            IsSound s × (s.subscription_ids ≡ ids))
                                                          (ok-injective _ s h)
                                                          (
                                                            record {
                                                            polls = (
                                                            read_int_from-le env
                                                            (env.getenv "POLL_INTERVAL_SECONDS") 300
                                                            _ poll (omega arith) is_poll,
                                                            read_int_from-le env
                                                            (env.getenv
                                                            "LUSTRE_POLL_INTERVAL_SECONDS")
                                                            60 _ interval (omega arith) is_interval,
                                                            );
                                                            port_in =
                                                            read_int-bounds env (env.getenv "PORT")
                                                            8000 _ _ port (omega arith)
                                                            (omega arith) is_port;
                                                            page_size_in =
                                                            read_int-bounds env
                                                            (env.getenv "ARG_PAGE_SIZE") 1000 _ _
                                                            size (omega arith) (omega arith)
                                                            is_size;
                                                            max_retries_in =
                                                            read_int-bounds env
                                                            (env.getenv "ARG_MAX_RETRIES") 3 _ _
                                                            retries (omega arith) (omega arith)
                                                            is_retries;
                                                            lookback_in =
                                                            read_int-bounds env
                                                            (env.getenv
                                                            "LUSTRE_METRICS_LOOKBACK_MINUTES")
                                                            15 _ _ lookback (omega arith)
                                                            (omega arith) is_lookback;
                                                            max_workers_in =
                                                            read_int-bounds env
                                                            (env.getenv
                                                            "LUSTRE_METRICS_MAX_WORKERS")
                                                            4 _ _ workers (omega arith)
                                                            (omega arith) is_workers;
                                                            max_inventory_in =
                                                            read_int-bounds env
                                                            (env.getenv
                                                            "STANDALONE_VM_MAX_INVENTORY")
                                                            5000 _ _ inventory (omega arith)
                                                            (omega arith) is_inventory;
                                                            base_delay_in =
                                                            read_float-IsRead
                                                            (env.getenv
                                                            "ARG_RETRY_BASE_DELAY_SECONDS")
                                                            _ _ _ delay is_delay;
                                                            jitter_in =
                                                            read_float-IsRead
                                                            (env.getenv
                                                            "LUSTRE_METRICS_REQUEST_JITTER_SECONDS")
                                                            _ _ _ jitter is_jitter;
                                                            drain_in =
                                                            read_float-IsRead
                                                            (env.getenv "SHUTDOWN_DRAIN_SECONDS") _
                                                            _ _ drain is_drain;
                                                            election =
                                                            load_leader_election_settings-IsElection
                                                            env election
                                                            (lifted-ok _ election is_election);
                                                            },
                                                            refl,
                                                          )

    guarded :
        (require : Bool) (ids : List String) (s : Settings F)
        → (if require && is_empty ids
            then err LoadError.no_subscription
            else load_rest floats parse_float upper env ids)
          ≡ ok s
        → IsSound s × (s.subscription_ids ≡ ids) × ((require && is_empty ids) ≡ false)
    guarded require ids s h = elim (Bool-cases (require && is_empty ids)) [
      | inl none_left ↦ absurd (ground (arith, rw none_left at h))
      | inr some_left ↦
          let (sound, same) = load_rest-IsSound ids s (rw some_left at h) in
          (sound, same, some_left)
    ]

    -- The settings that load hold the subscriptions of the variable, each once and at least one
    -- where one is required, and whole numbers within their ranges. Those of the election are among
    -- them, with a renew deadline below the lease duration and above 1.2 retry periods. A float is
    -- its default or compares as outside neither end.
    pub load_settings-IsSound :
        (require : Bool) (s : Settings F)
        → load_settings floats parse_float upper env require ≡ ok s
        → IsSound s
          × (s.subscription_ids
              ≡ parse_subscription_ids (default_to (env.getenv "AZURE_SUBSCRIPTION_IDS") ""))
          × IsDistinct s.subscription_ids
          × ((require && is_empty s.subscription_ids) ≡ false)
    unfolding load_settings
    load_settings-IsSound require s h =
        let (sound, same, some_left) =
          guarded require
            (parse_subscription_ids (default_to (env.getenv "AZURE_SUBSCRIPTION_IDS") "")) s h in
        (
          sound,
          same,
          subst IsDistinct (sym same)
              (contains-parse_subscription_ids (default_to (env.getenv "AZURE_SUBSCRIPTION_IDS") "")
                "").1,
          rw same some_left,
        )
