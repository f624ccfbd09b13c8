-- ===== src/Main/Callbacks/Started.antt =====
-- What a pod shows when it has taken the lead, whatever the other threads do meanwhile.
use azure_lustre_vmss_metric.Prelude.{
  ℕ, ◌≡◌, ◌⊎◌, inl, inr, refl, Bool, true, false, ◌||◌, Option, none, some, List, [], ◌∷◌,
  if◌then◌else◌, length, arith, sym, subst,
}
use mathlib.Core.List.{Memᴰ}
use azure_lustre_vmss_metric.Prelude.Number.{Floats, of_nat}
use azure_lustre_vmss_metric.Prelude.Result.{Result, ok, err}
use azure_lustre_vmss_metric.Models.Vmss.{VmssCount}
use azure_lustre_vmss_metric.Models.Vm.{StandaloneVm}
use azure_lustre_vmss_metric.Exporter.Gauge.{Gauges}
use azure_lustre_vmss_metric.Exporter.Vmss.{VmssGauges, update_metrics}
use azure_lustre_vmss_metric.Exporter.State.{Exporter, can_write_metrics_locked}
use azure_lustre_vmss_metric.Exporter.State.Leadership.{set_leader, promote, stop}
use azure_lustre_vmss_metric.Exporter.State.Collection.{
  LustreResult, guarded, publish_vmss, write_vmss, publish_lustre, write_lustre, summarize_lustre,
  write_summary_lustre, fail_lustre, publish_standalone_vms, write_standalone_vms,
  summarize_standalone_vms, write_summary_standalone_vms, fail_standalone_vms, summarize_vmss,
  write_summary_vmss, fail_vmss, collect_lustre_once, collect_standalone_vms_once, clear_wake,
}
use azure_lustre_vmss_metric.Exporter.State.Steps.{
  Action, publishes_vmss, publishes_standalone_vms, publishes_lustre, summarizes_vmss,
  summarizes_standalone_vms, summarizes_lustre, fails_vmss, fails_standalone_vms, fails_lustre,
  clears_wake, stops, perform,
}
use azure_lustre_vmss_metric.Exporter.State.Once.{
  Collected, lustre_part, standalone_vm_part, after_counts, collect_once,
}
use azure_lustre_vmss_metric.Main.Callbacks.{
  Pod, performs, patch_pod_leader_label, on_started_leading,
}

module _ {F : Type 0} (others : ℕ → List (Action F)) (counts : List VmssCount) where
  -- These counts are the callback's, or another thread publishes them meanwhile.
  abbrev pub IsPublished : List VmssCount → Type 0
  IsPublished published =
      (published ≡ counts) ⊎ ((k : ℕ) × Memᴰ (publishes_vmss published) (others k))

  -- These counts are the callback's, or another thread sums them up meanwhile.
  abbrev pub IsSummarized : List VmssCount → Type 0
  IsSummarized summarized =
      (summarized ≡ counts)
      ⊎ ((k : ℕ) × (now : F) × (duration : F) × Memᴰ (summarizes_vmss now duration summarized)
            (others k))

  -- What is known of the counts that an action is about.
  abbrev IsNamed : Action F → Type 0
  IsNamed (publishes_vmss published) = IsPublished published
  IsNamed (publishes_standalone_vms vms) = Unit
  IsNamed (publishes_lustre result) = Unit
  IsNamed (summarizes_vmss now duration summarized) = IsSummarized summarized
  IsNamed (summarizes_standalone_vms now duration vms) = Unit
  IsNamed (summarizes_lustre now duration result) = Unit
  IsNamed (fails_vmss duration) = Unit
  IsNamed (fails_standalone_vms duration) = Unit
  IsNamed (fails_lustre duration) = Unit
  IsNamed clears_wake = Unit
  IsNamed stops = Unit

  named : (k : ℕ) (action : Action F) → Memᴰ action (others k) → IsNamed action
  named k (publishes_vmss published) m = inr (k, m)
  named k (publishes_standalone_vms vms) m = tt
  named k (publishes_lustre result) m = tt
  named k (summarizes_vmss now duration summarized) m = inr (k, now, duration, m)
  named k (summarizes_standalone_vms now duration vms) m = tt
  named k (summarizes_lustre now duration result) m = tt
  named k (fails_vmss duration) m = tt
  named k (fails_standalone_vms duration) m = tt
  named k (fails_lustre duration) m = tt
  named k clears_wake m = tt
  named k stops m = tt

module _ {G F : Type 0} (floats : Floats F) (api : Gauges G F) (others : ℕ → List (Action F))
    (counts : List VmssCount) where
  -- The gauges of the scale sets are those of some counts that were published.
  abbrev pub Shows : VmssGauges G → Type 0
  Shows gauges =
      (published : List VmssCount) × (before : VmssGauges G) × (gauges
        ≡ update_metrics floats api published before)
      × IsPublished others counts published

  -- Their number is that of some counts that were summed up.
  abbrev pub Sums : F → Type 0
  Sums total =
      (summarized : List VmssCount) × (total ≡ of_nat floats (length summarized))
      × IsSummarized others counts summarized

  abbrev Once : Bool → Type 0 → Type 0
  Once true A = A
  Once false A = Unit

  once : {A : Type 0} (b : Bool) → A → Once b A
  once true a = a
  once false a = tt

  -- A leader, of which more is known once the scale sets are published, and once they are summed up.
  record Stage (published summarized : Bool) (e : Exporter G F) : Type 0 where
    leads : e.is_leader_event ≡ true
    shows : Once published (Shows e.shown.vmss)
    counts_them : Once summarized (Sums e.shown.totals.vmss_total)

  if-Stage :
      {p q : Bool} (test : Bool) (e e' : Exporter G F)
      → Stage p q e
      → Stage p q e'
      → Stage p q (if test then e else e')
  if-Stage true e e' h k = h
  if-Stage false e e' h k = k

  guarded-Stage :
      {p q : Bool} (write : Exporter G F → Exporter G F) (e : Exporter G F)
      → Stage p q e
      → Stage p q (write e)
      → Stage p q (guarded write e)
  unfolding guarded
  guarded-Stage write e h k = if-Stage (can_write_metrics_locked e) (write e) e k h

  perform-Stage :
      {p q : Bool} (action : Action F) (e : Exporter G F)
      → IsNamed others counts action
      → Stage p q e
      → Stage p q (perform floats api action e)
  unfolding perform publish_vmss publish_standalone_vms publish_lustre summarize_vmss
      summarize_standalone_vms summarize_lustre fail_vmss fail_standalone_vms fail_lustre clear_wake
      stop write_vmss write_standalone_vms write_lustre write_summary_vmss
      write_summary_standalone_vms write_summary_lustre
  perform-Stage {p} {q} (publishes_vmss cs) e known h =
      guarded-Stage (write_vmss floats api cs) e h (record {
        leads = h.leads;
        shows = once p (cs, e.shown.vmss, refl, known);
        counts_them = h.counts_them;
      })
  perform-Stage (publishes_standalone_vms vms) e known h =
      guarded-Stage (write_standalone_vms floats api vms) e h
        (record { leads = h.leads; shows = h.shows; counts_them = h.counts_them })
  perform-Stage (publishes_lustre result) e known h =
      guarded-Stage (write_lustre floats api result) e h
        (record { leads = h.leads; shows = h.shows; counts_them = h.counts_them })
  perform-Stage {p} {q} (summarizes_vmss now duration cs) e known h =
      guarded-Stage (write_summary_vmss floats now duration cs) e h
        (record { leads = h.leads; shows = h.shows; counts_them = once q (cs, refl, known) })
  perform-Stage (summarizes_standalone_vms now duration vms) e known h =
      guarded-Stage (write_summary_standalone_vms floats now duration vms) e h
        (record { leads = h.leads; shows = h.shows; counts_them = h.counts_them })
  perform-Stage (summarizes_lustre now duration result) e known h =
      guarded-Stage (write_summary_lustre floats now duration result) e h
        (record { leads = h.leads; shows = h.shows; counts_them = h.counts_them })
  perform-Stage (fails_vmss duration) e known h = record {
    leads = h.leads;
    shows = h.shows;
    counts_them = h.counts_them;
  }
  perform-Stage (fails_standalone_vms duration) e known h = record {
    leads = h.leads;
    shows = h.shows;
    counts_them = h.counts_them;
  }
  perform-Stage (fails_lustre duration) e known h = record {
    leads = h.leads;
    shows = h.shows;
    counts_them = h.counts_them;
  }
  perform-Stage clears_wake e known h = record {
    leads = h.leads;
    shows = h.shows;
    counts_them = h.counts_them;
  }
  perform-Stage stops e known h = record {
    leads = refl;
    shows = h.shows;
    counts_them = h.counts_them;
  }

  performs-Stage :
      {p q : Bool} (actions : List (Action F)) (e : Exporter G F)
      → ((action : Action F) → Memᴰ action actions → IsNamed others counts action)
      → Stage p q e
      → Stage p q (performs floats api actions e)
  unfolding performs
  performs-Stage [] e known h = h
  performs-Stage (action ∷ actions) e known h =
      performs-Stage actions (perform floats api action e) (λ a m. known a (Memᴰ.tail m))
        (perform-Stage action e (known action (Memᴰ.head refl)) h)

  others-Stage :
      {p q : Bool} (k : ℕ) (e : Exporter G F)
      → Stage p q e
      → Stage p q (performs floats api (others k) e)
  others-Stage k e h = performs-Stage (others k) e (named others counts k) h

module _ {G F E : Type 0} (floats : Floats F) (api : Gauges G F) (c : Collected F E)
    (others : ℕ → List (Action F)) (counts : List VmssCount) where
  abbrev At : Bool → Bool → Exporter G F → Type 0
  At p q e = Stage floats api others counts p q e

  abbrev among : ℕ → Exporter G F → Exporter G F
  among k e = performs floats api (others k) e

  lustre_part-At :
      (o : Option (Result E (LustreResult F))) (e : Exporter G F)
      → At true false e
      → At true false (lustre_part floats api c among o e)
  unfolding collect_lustre_once perform
  lustre_part-At none e h = h
  lustre_part-At (some (err x)) e h =
      perform-Stage floats api others counts (fails_lustre c.lustre_duration) _ tt
        (others-Stage floats api others counts 1 e h)
  lustre_part-At (some (ok result)) e h =
      let e₁ = among 1 e in
      let e₂ = publish_lustre floats api result e₁ in
      let h₁ = others-Stage floats api others counts 1 e h in
      let h₂ = perform-Stage floats api others counts (publishes_lustre result) e₁ tt h₁ in
      if-Stage floats api others counts (can_write_metrics_locked e₁) _ e₁
        (perform-Stage floats api others counts
          (summarizes_lustre c.lustre_now c.lustre_duration result) (among 2 e₂) tt
          (others-Stage floats api others counts 2 e₂ h₂))
        h₁

  standalone_vm_part-At :
      (o : Option (Result E (List StandaloneVm))) (e : Exporter G F)
      → At true false e
      → At true false (standalone_vm_part floats api c among o e)
  unfolding collect_standalone_vms_once perform
  standalone_vm_part-At none e h = h
  standalone_vm_part-At (some (err x)) e h =
      perform-Stage floats api others counts (fails_standalone_vms c.standalone_vm_duration) _ tt
        (others-Stage floats api others counts 3 e h)
  standalone_vm_part-At (some (ok vms)) e h =
      let e₁ = among 3 e in
      let e₂ = publish_standalone_vms floats api vms e₁ in
      let h₁ = others-Stage floats api others counts 3 e h in
      let h₂ = perform-Stage floats api others counts (publishes_standalone_vms vms) e₁ tt h₁ in
      if-Stage floats api others counts (can_write_metrics_locked e₁) _ e₁
        (perform-Stage floats api others counts
          (summarizes_standalone_vms c.standalone_vm_now c.standalone_vm_duration vms) (among 4 e₂)
          tt (others-Stage floats api others counts 4 e₂ h₂))
        h₁

  leader_writes : (e : Exporter G F) → e.is_leader_event ≡ true → can_write_metrics_locked e ≡ true
  unfolding can_write_metrics_locked
  leader_writes e leads = ground (arith, leads)

  if-At :
      (test : Bool) (e e' : Exporter G F)
      → test ≡ true
      → At true true e
      → At true true (if test then e else e')
  if-At true e e' is h = h
  if-At false e e' is h = absurd (ground (arith, is))

  published-At :
      (e : Exporter G F) → At false false e → At true false (publish_vmss floats api counts e)
  unfolding publish_vmss guarded write_vmss
  published-At e h =
      rw (leader_writes e h.leads) (record {
        leads = h.leads;
        shows = (counts, e.shown.vmss, refl, inl refl);
        counts_them = tt;
      })

  summarized-At :
      (e : Exporter G F)
      → At true false e
      → At true true (summarize_vmss floats c.now c.duration counts e)
  unfolding summarize_vmss guarded write_summary_vmss
  summarized-At e h =
      rw (leader_writes e h.leads)
        (record { leads = h.leads; shows = h.shows; counts_them = (counts, refl, inl refl) })

  after_counts-At :
      (e : Exporter G F)
      → At false false e
      → At true true (after_counts floats api c among (ok counts) e)
  after_counts-At e h =
      let e₁ = publish_vmss floats api counts e in
      let e₂ = lustre_part floats api c among c.lustre e₁ in
      let e₃ = standalone_vm_part floats api c among c.standalone_vms e₂ in
      if-At (can_write_metrics_locked e) _ e (leader_writes e h.leads) (
        summarized-At (among 5 e₃) (
          others-Stage floats api others counts 5 e₃ (
            standalone_vm_part-At c.standalone_vms e₂
              (lustre_part-At c.lustre e₁ (published-At e h)))))

  set_leader-At :
      (e : Exporter G F)
      → e.leader_election_enabled ≡ true
      → At false false (set_leader floats api true e)
  unfolding set_leader promote
  set_leader-At e enabled = rw enabled (record { leads = refl; shows = tt; counts_them = tt })

  collect_once-At :
      (e : Exporter G F)
      → c.counts ≡ ok counts
      → At false false e
      → At true true (collect_once floats api c among e)
  unfolding collect_once
  collect_once-At e is h =
      subst (λ r. At true true (after_counts floats api c among r (among 0 e))) (sym is)
        (after_counts-At (among 0 e) (others-Stage floats api others counts 0 e h))

  patched-At :
      (patched : Bool) (pod : Pod G F)
      → At true true pod.exporter
      → At true true (patch_pod_leader_label patched true pod).exporter
        × ((patch_pod_leader_label patched true pod).labelled ≡ (patched || pod.labelled))
  unfolding patch_pod_leader_label
  patched-At true pod h = (h, refl)
  patched-At false pod h = (h, refl)

  -- When the callback of a pod that takes the lead ends, and its collection of scale sets
  -- succeeded, the pod leads, whatever the other collections came to and whatever the pollers and
  -- the main thread do meanwhile. Its gauges of the scale sets are updated for the collected counts,
  -- or for counts that another thread published during the callback; its number of scale sets is
  -- that of the collected counts, or of counts that another thread summed up. It carries the label
  -- if the patch succeeded, and otherwise if it did before.
  pub on_started_leading_lem :
      (patched : Bool) (pod : Pod G F)
      → pod.exporter.leader_election_enabled ≡ true
      → c.counts ≡ ok counts
      → let pod' = on_started_leading floats api c others patched pod in
        (pod'.exporter.is_leader_event ≡ true)
        × Shows floats api others counts pod'.exporter.shown.vmss
        × Sums floats api others counts pod'.exporter.shown.totals.vmss_total
        × (pod'.labelled ≡ (patched || pod.labelled))
  unfolding on_started_leading
  on_started_leading_lem patched pod enabled is =
      let leader = set_leader floats api true pod.exporter in
      let populated = collect_once floats api c among leader in
      let (h, labelled) =
        patched-At patched (record pod { exporter = among 6 populated })
          (others-Stage floats api others counts 6 populated
            (collect_once-At leader is (set_leader-At pod.exporter enabled))) in
      (h.leads, h.shows, h.counts_them, labelled)
