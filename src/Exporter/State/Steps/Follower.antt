-- ===== src/Exporter/State/Steps/Follower.antt =====
-- A follower shows no resource series and no totals.
use azure_lustre_vmss_metric.Prelude.{
  ℕ, ◌≡◌, refl, ap, Bool, true, false, leb, arith, Bool-cases, inl, inr, sym, subst, ◌∙◌,
}
use azure_lustre_vmss_metric.Prelude.Number.{Floats}
use azure_lustre_vmss_metric.Prelude.Result.{Result, ok, err}
use azure_lustre_vmss_metric.Exporter.Gauge.{Gauges}
use azure_lustre_vmss_metric.Exporter.Family.{IsHidden, clear-IsHidden, fresh-IsHidden}
use azure_lustre_vmss_metric.Exporter.State.{
  Exporter, ExporterError, Shown, init, zero_totals, fresh_shown, can_write_metrics_locked,
}
use azure_lustre_vmss_metric.Exporter.State.Leadership.{promote, clear_resource_gauges, clear_shown}
use azure_lustre_vmss_metric.Exporter.State.Collection.{
  guarded, write_vmss, write_standalone_vms, write_lustre, write_summary_vmss,
  write_summary_standalone_vms, write_summary_lustre, publish_vmss, publish_standalone_vms,
  publish_lustre, summarize_vmss, summarize_standalone_vms, summarize_lustre, fail_vmss,
  fail_standalone_vms, fail_lustre, clear_wake,
}
use azure_lustre_vmss_metric.Exporter.State.Leadership.{stop}
use azure_lustre_vmss_metric.Exporter.State.Steps.{
  Action, publishes_vmss, publishes_standalone_vms, publishes_lustre, summarizes_vmss,
  summarizes_standalone_vms, summarizes_lustre, fails_vmss, fails_standalone_vms, fails_lustre,
  clears_wake, stops, Phase, outside, demoting, perform, Step, promoted, demoted, cleared, acted,
  Reachable, started, stepped,
}

module _ {G F : Type 0} (floats : Floats F) (api : Gauges G F) where
  -- No series of any family shows, and the totals are zero.
  pub record Hidden (s : Shown G F) : Type 0 where
    pub counts : IsHidden api s.vmss.counts
    pub states : IsHidden api s.vmss.states
    pub infos : IsHidden api s.vmss.infos
    pub vm_infos : IsHidden api s.vms.infos
    pub vm_power_states : IsHidden api s.vms.power_states
    pub vm_sizes : IsHidden api s.vms.sizes
    pub filesystems : IsHidden api s.lustre.filesystems
    pub capacities : IsHidden api s.lustre.capacities
    pub aggregates : IsHidden api s.lustre.aggregates
    pub osts : IsHidden api s.lustre.osts
    pub ost_operations : IsHidden api s.lustre.ost_operations
    pub mdts : IsHidden api s.lustre.mdts
    pub mdt_operations : IsHidden api s.lustre.mdt_operations
    pub totals : s.totals ≡ zero_totals floats

  pub clear_shown-Hidden : (s : Shown G F) → Hidden (clear_shown floats api s)
  unfolding clear_shown
  clear_shown-Hidden s = record {
    counts = clear-IsHidden api s.vmss.counts;
    states = clear-IsHidden api s.vmss.states;
    infos = clear-IsHidden api s.vmss.infos;
    vm_infos = clear-IsHidden api s.vms.infos;
    vm_power_states = clear-IsHidden api s.vms.power_states;
    vm_sizes = clear-IsHidden api s.vms.sizes;
    filesystems = clear-IsHidden api s.lustre.filesystems;
    capacities = clear-IsHidden api s.lustre.capacities;
    aggregates = clear-IsHidden api s.lustre.aggregates;
    osts = clear-IsHidden api s.lustre.osts;
    ost_operations = clear-IsHidden api s.lustre.ost_operations;
    mdts = clear-IsHidden api s.lustre.mdts;
    mdt_operations = clear-IsHidden api s.lustre.mdt_operations;
    totals = refl;
  }

  pub fresh_shown-Hidden : Hidden (fresh_shown floats api)
  unfolding fresh_shown
  fresh_shown-Hidden = record {
    counts = fresh-IsHidden api;
    states = fresh-IsHidden api;
    infos = fresh-IsHidden api;
    vm_infos = fresh-IsHidden api;
    vm_power_states = fresh-IsHidden api;
    vm_sizes = fresh-IsHidden api;
    filesystems = fresh-IsHidden api;
    capacities = fresh-IsHidden api;
    aggregates = fresh-IsHidden api;
    osts = fresh-IsHidden api;
    ost_operations = fresh-IsHidden api;
    mdts = fresh-IsHidden api;
    mdt_operations = fresh-IsHidden api;
    totals = refl;
  }

-- A follower: elections are held, and the leader event is clear.
pub record IsFollower {G F : Type 0} (e : Exporter G F) : Type 0 where
  pub enabled : e.leader_election_enabled ≡ true
  pub waiting : e.is_leader_event ≡ false

-- What a step that ends at a follower started from and left alone.
record Stays {G F : Type 0} (e e' : Exporter G F) : Type 0 where
  before : IsFollower e
  same : e'.shown ≡ e.shown

module _ {G F : Type 0} where
  guarded-Stays :
      (write : Exporter G F → Exporter G F) (e : Exporter G F)
      → (write e).leader_election_enabled ≡ e.leader_election_enabled
      → (write e).is_leader_event ≡ e.is_leader_event
      → IsFollower (guarded write e)
      → Stays e (guarded write e)
  unfolding guarded can_write_metrics_locked
  guarded-Stays write e he hl h = elim (Bool-cases (can_write_metrics_locked e)) [
    | inl is ↦
        let h' = rw is at h in
        let enabled = sym he ∙ h'.enabled in
        let waiting = sym hl ∙ h'.waiting in ground (arith, is, enabled, waiting)
    | inr isnt ↦ rw isnt (record { before = rw isnt at h; same = refl })
  ]

module _ {G F : Type 0} (floats : Floats F) (api : Gauges G F) where
  perform-Stays :
      (action : Action F) (e : Exporter G F)
      → IsFollower (perform floats api action e)
      → Stays e (perform floats api action e)
  unfolding perform publish_vmss publish_standalone_vms publish_lustre summarize_vmss
      summarize_standalone_vms summarize_lustre fail_vmss fail_standalone_vms fail_lustre clear_wake
      stop
  perform-Stays (publishes_vmss counts) e h =
      guarded-Stays (write_vmss floats api counts) e refl refl h
  perform-Stays (publishes_standalone_vms vms) e h =
      guarded-Stays (write_standalone_vms floats api vms) e refl refl h
  perform-Stays (publishes_lustre result) e h =
      guarded-Stays (write_lustre floats api result) e refl refl h
  perform-Stays (summarizes_vmss now duration counts) e h =
      guarded-Stays (write_summary_vmss floats now duration counts) e refl refl h
  perform-Stays (summarizes_standalone_vms now duration vms) e h =
      guarded-Stays (write_summary_standalone_vms floats now duration vms) e refl refl h
  perform-Stays (summarizes_lustre now duration result) e h =
      guarded-Stays (write_summary_lustre floats now duration result) e refl refl h
  perform-Stays (fails_vmss duration) e h = record {
    before = record { enabled = h.enabled; waiting = h.waiting };
    same = refl;
  }
  perform-Stays (fails_standalone_vms duration) e h = record {
    before = record { enabled = h.enabled; waiting = h.waiting };
    same = refl;
  }
  perform-Stays (fails_lustre duration) e h = record {
    before = record { enabled = h.enabled; waiting = h.waiting };
    same = refl;
  }
  perform-Stays clears_wake e h = record {
    before = record { enabled = h.enabled; waiting = h.waiting };
    same = refl;
  }
  perform-Stays stops e h = ground (arith, h.waiting)

  shown_or_fresh : Result ExporterError (Exporter G F) → Shown G F
  shown_or_fresh (ok e) = e.shown
  shown_or_fresh (err x) = fresh_shown floats api

  pub init-shown :
      (enabled : Bool) (max_inventory : ℕ) (e : Exporter G F)
      → init floats api enabled max_inventory ≡ ok e
      → e.shown ≡ fresh_shown floats api
  unfolding init shown_or_fresh
  init-shown enabled max_inventory e h =
      sym (ap shown_or_fresh h)
      ∙ elim (Bool-cases (leb max_inventory 0)) [ inl is ↦ rw is refl | inr isnt ↦ rw isnt refl ]

  abbrev FollowerInvariant : Phase → Exporter G F → Type 0
  FollowerInvariant outside e = IsFollower e → Hidden floats api e.shown
  FollowerInvariant demoting e = Unit

  Step-FollowerInvariant :
      {p q : Phase} {e e' : Exporter G F}
      → FollowerInvariant p e
      → Step floats api p e q e'
      → FollowerInvariant q e'
  unfolding promote clear_resource_gauges
  Step-FollowerInvariant inv (promoted e on) = λ h. ground (arith, h.waiting)
  Step-FollowerInvariant inv (demoted e on) = tt
  Step-FollowerInvariant inv (cleared e) = λ h. clear_shown-Hidden floats api e.shown
  Step-FollowerInvariant inv (acted outside e action) = λ h.
      let stays = perform-Stays action e h in
      subst (Hidden floats api) (sym stays.same) (inv stays.before)
  Step-FollowerInvariant inv (acted demoting e action) = tt

  Reachable-FollowerInvariant :
      {p : Phase} {e : Exporter G F} → Reachable floats api p e → FollowerInvariant p e
  Reachable-FollowerInvariant (started enabled max_inventory e is) = λ h.
      subst (Hidden floats api) (sym (init-shown enabled max_inventory e is))
        (fresh_shown-Hidden floats api)
  Reachable-FollowerInvariant (stepped reached step) =
      Step-FollowerInvariant (Reachable-FollowerInvariant reached) step

  -- However the pollers, `stop` and the supervisor's calls of `set_leader` interleave, an exporter
  -- that holds elections, whose leader event is clear and which is not just being demoted shows no
  -- resource series, and its totals and times of success are zero.
  pub follower-Hidden :
      (e : Exporter G F) → Reachable floats api outside e → IsFollower e → Hidden floats api e.shown
  follower-Hidden e reached h = Reachable-FollowerInvariant reached h
