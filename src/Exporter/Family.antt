-- ===== src/Exporter/Family.antt =====
-- Gauges that share their label names and the set of label values that the exporter keeps of them,
-- `_active_…_labelsets`. `N` names the gauges of the family.
use azure_lustre_vmss_metric.Prelude.{
  ◌≡◌, refl, ap, Bool, true, false, Option, none, some, List, [], ◌∷◌, ◌++◌, ◌==◌, string_eq,
  list_eq, list_beq, list_beq_iff, ◌↔◌, if◌then◌else◌, All, arith,
}
use azure_lustre_vmss_metric.Prelude.Sets.{
  contains, difference, union, contains-difference, contains-append,
}
use azure_lustre_vmss_metric.Models.Vmss.{Labels}
use azure_lustre_vmss_metric.Exporter.Gauge.{Gauges, discard, value-discard}

pub record Family (N G : Type 0) : Type 0 where
  pub gauge : N → G
  pub active : List Labels

-- What an update does to one series: set it, remove it, or leave it as it is.
pub data Write (F : Type 0) : Type 0 where
  put : F → Write F
  drop : Write F
  leave : Write F

-- The label values of a sample, and what it writes to each gauge of its family.
abbrev pub Sample : Type 0 → Type 0 → Type 0
Sample N F = Labels × (N → Write F)

-- `_set_or_remove_lustre_gauge`: set a value, remove the series where there is none.
unfoldable pub set_or_remove : {F : Type 0} → Option F → Write F
set_or_remove (some v) = put v
set_or_remove none = drop

-- `if value is not None: gauge.labels(…).set(value)`
unfoldable pub set_if_some : {F : Type 0} → Option F → Write F
set_if_some (some v) = put v
set_if_some none = leave

-- What a write makes of the value of a series.
unfoldable pub after_write : {F : Type 0} → Write F → Option F → Option F
after_write (put v) old = some v
after_write drop old = none
after_write leave old = old

-- What the samples make of the value of the series `l` of `n`, the last one winning.
unfoldable pub after_samples : {N F : Type 0} → List (Sample N F) → N → Labels → Option F → Option F
unfolding after_write
after_samples [] n l old = old
after_samples ((k, w) ∷ rest) n l old =
    after_samples rest n l (if k == l then after_write (w n) old else old)

module _ {G F : Type 0} (api : Gauges G F) where
  unfoldable pub write_one : Labels → Write F → G → G
  unfolding discard
  write_one l (put v) g = api.set l v g
  write_one l drop g = discard api l g
  write_one l leave g = g

  value-write_one :
      (k l : Labels) (w : Write F) (g : G)
      → api.value (write_one k w g) l
        ≡ (if k == l then after_write w (api.value g l) else api.value g l)
  unfolding write_one after_write
  value-write_one k l (put v) g = api.value_set k l v g
  value-write_one k l drop g = value-discard api k l g
  value-write_one k l leave g = ground arith

module _ {N G F : Type 0} (api : Gauges G F) where
  unfoldable pub write_all : List (Sample N F) → (N → G) → N → G
  unfolding write_one
  write_all [] gs n = gs n
  write_all ((l, w) ∷ rest) gs n = write_all rest (λ m. write_one api l (w m) (gs m)) n

  -- `for stale in …: for gauge in …: with suppress(KeyError): gauge.remove(*stale)`
  unfoldable pub discard_all : List Labels → (N → G) → N → G
  unfolding discard
  discard_all [] gs n = gs n
  discard_all (l ∷ rest) gs n = discard_all rest (λ m. discard api l (gs m)) n

  -- The locked update of a family: remove the series whose labels are no longer reported, write
  -- the samples, and note the new label values. Without `remove_stale` nothing is removed, and
  -- the new label values join the old.
  unfoldable pub update : Bool → List Labels → List (Sample N F) → Family N G → Family N G
  unfolding write_all discard_all difference union
  update remove_stale new samples family = record {
    gauge = write_all samples (
        if remove_stale
        then discard_all (difference family.active new) family.gauge
        else family.gauge);
    active = if remove_stale then new else union family.active new;
  }

  unfoldable pub fresh_family : Family N G
  fresh_family = record { gauge = λ n. api.fresh; active = [] }

  unfoldable pub clear_family : Family N G → Family N G
  clear_family family = record { gauge = λ n. api.clear (family.gauge n); active = [] }

  -- Every series that a scrape shows is noted.
  pub record Tracked (family : Family N G) : Type 0 where
    pub noted :
        (n : N) (l : Labels)
        → contains family.active l ≡ false
        → api.value (family.gauge n) l ≡ none

  -- No scrape shows anything of the family.
  abbrev pub IsHidden : Family N G → Type 0
  IsHidden family = (n : N) (l : Labels) → api.value (family.gauge n) l ≡ none

  pub value-write_all :
      (samples : List (Sample N F)) (gs : N → G) (n : N) (l : Labels)
      → api.value (write_all samples gs n) l ≡ after_samples samples n l (api.value (gs n) l)
  unfolding write_all after_samples
  value-write_all [] gs n l = refl
  value-write_all ((k, w) ∷ rest) gs n l = rw (
    value-write_all rest (λ m. write_one api k (w m) (gs m)) n l,
    value-write_one api k l (w n) (gs n),
  )

  pub value-discard_all :
      (stale : List Labels) (gs : N → G) (n : N) (l : Labels)
      → api.value (discard_all stale gs n) l
        ≡ (if contains stale l then none else api.value (gs n) l)
  unfolding discard_all contains
  value-discard_all [] gs n l = refl
  value-discard_all (k ∷ rest) gs n l =
      rw (value-discard_all rest (λ m. discard api k (gs m)) n l, value-discard api k l (gs n))
        (ground arith)

pub after_samples-append :
    {N F : Type 0} (xs ys : List (Sample N F)) (n : N) (l : Labels) (old : Option F)
    → after_samples (xs ++ ys) n l old ≡ after_samples ys n l (after_samples xs n l old)
unfolding after_samples
after_samples-append [] ys n l old = refl
after_samples-append ((k, w) ∷ xs) ys n l old = after_samples-append xs ys n l _

-- The samples carry noted label values only.
abbrev pub Covers : {N F : Type 0} → List Labels → List (Sample N F) → Type 0
Covers new samples = All (λ sample. contains new sample.0 ≡ true) samples

pub after_samples-unnoted :
    {N F : Type 0} (new : List Labels) (samples : List (Sample N F)) (n : N) (l : Labels)
    (old : Option F)
    → Covers new samples
    → contains new l ≡ false
    → after_samples samples n l old ≡ old
unfolding after_samples
after_samples-unnoted new [] n l old covers un = refl
after_samples-unnoted new ((k, w) ∷ rest) n l old covers un =
    let same : (list_beq k l ≡ true) ↔ (k ≡ l) = list_beq_iff k l in
    ground (arith, covers.0, after_samples-unnoted new rest n l old covers.1 un)

module _ {N G F : Type 0} (api : Gauges G F) where
  -- The value of any series after an update that removes stale series.
  pub value-update :
      (new : List Labels) (samples : List (Sample N F)) (family : Family N G) (n : N) (l : Labels)
      → Tracked api family
      → api.value ((update api true new samples family).gauge n) l
        ≡ after_samples samples n l (if contains new l then api.value (family.gauge n) l else none)
  unfolding update
  value-update new samples family n l tracked =
      let stale = difference family.active new in
      rw
        (
          value-write_all api samples (discard_all api stale family.gauge) n l,
          value-discard_all api stale family.gauge n l,
          contains-difference family.active new l,
        )
        (ap (after_samples samples n l) (ground (arith, tracked.noted n l)))

  -- Whether or not stale series are removed, what is shown stays noted.
  pub update-Tracked :
      (remove_stale : Bool) (new : List Labels) (samples : List (Sample N F)) (family : Family N G)
      → Covers new samples
      → Tracked api family
      → Tracked api (update api remove_stale new samples family)
  unfolding update union
  update-Tracked true new samples family covers tracked = record {
    noted = λ n l un. rw (
      value-update new samples family n l tracked,
      after_samples-unnoted new samples n l _ covers un,
      un,
    );
  }
  update-Tracked false new samples family covers tracked = record {
    noted = λ n l un.
        let both = contains-append family.active new l in
        rw
          (
            value-write_all api samples family.gauge n l,
            after_samples-unnoted new samples n l _ covers (ground (arith, both, un)),
          )
          (tracked.noted n l (ground (arith, both, un)));
  }

  pub clear-Tracked : (family : Family N G) → Tracked api (clear_family api family)
  unfolding clear_family
  clear-Tracked family = record { noted = λ n l _. api.value_clear l (family.gauge n) }

  pub clear-IsHidden : (family : Family N G) → IsHidden api (clear_family api family)
  unfolding clear_family
  clear-IsHidden family n l = api.value_clear l (family.gauge n)

  pub fresh-IsHidden : IsHidden api (fresh_family {N = N} api)
  unfolding fresh_family
  fresh-IsHidden n l = api.value_fresh l

  pub hidden-Tracked : (family : Family N G) → IsHidden api family → Tracked api family
  hidden-Tracked family h = record { noted = λ n l _. h n l }
