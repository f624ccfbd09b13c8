-- ===== src/LeaderElection/Writes.antt =====
-- What the calls of leader_election.py make of the log of the API server: a write upon a Lease that
-- was read follows directly upon it.
use azure_lustre_vmss_metric.Prelude.{
  ℕ, String, ◌≡◌, refl, sym, ◌∙◌, subst, Bool, true, false, Option, none, some, List, ◌∷◌, ◌==◌,
  nat_eq, option_eq, arith, if◌then◌else◌, string_eq,
}
use azure_lustre_vmss_metric.Prelude.Result.{Result, ok, err}
use azure_lustre_vmss_metric.LeaderElection.Config.{LeaderElectionConfig}
use azure_lustre_vmss_metric.LeaderElection.Lease.{Lease, LeaseBody, lease_body, resource_version}
use azure_lustre_vmss_metric.LeaderElection.Monad.{
  Api, ApiError, api_status, Election, Outcome, returned, raised, out_of_fuel, M, pure, continue,
  handle, to_outcome,
}
use azure_lustre_vmss_metric.LeaderElection.Calls.{
  observe_lease, reload, refresh_coordination_api, refreshed, read_once, read_lease, replace_once,
  written, replace_lease, timeout,
}
use azure_lustre_vmss_metric.LeaderElection.Server.{
  Server, Extends, same, wrote, Replaced, Extends-trans, Extends-version,
}

-- What a computation of the election makes of the log: if it returns, the predicate says it, and
-- otherwise the log may have grown.
abbrev pub Ends :
    {W C A : Type 0}
    → (W → List Lease)
    → (A → List Lease → Type 0)
    → List Lease
    → Outcome A × Election W C
    → Type 0
Ends log P old (returned a, s) = P a (log s.world)
Ends log P old (raised e, s) = Extends old (log s.world)
Ends log P old (out_of_fuel, s) = Extends old (log s.world)

-- a Lease that was the newest at one time
abbrev pub Seen : List Lease → Lease → List Lease → Type 0
Seen old lease new =
    (older : List Lease) × Extends old (lease ∷ older) × Extends (lease ∷ older) new

abbrev Written : List Lease → String → String → Bool → List Lease → Type 0
Written old version holder true new = Replaced old new version holder
Written old version holder false new = Extends old new

-- Its own write stands directly upon the Lease.
pub record Follows (lease : Lease) (holder : String) (new : List Lease) : Type 0 where
  pub stored : Lease
  pub older : List Lease
  pub is_holder : stored.holder ≡ some holder
  pub follows : Extends (stored ∷ lease ∷ older) new

Replaced_grows :
    {old new newer : List Lease} {version holder : String}
    → Replaced old new version holder
    → Extends new newer
    → Replaced old newer version holder
Replaced_grows r h = record {
  stored = r.stored;
  before = r.before;
  older = r.older;
  later = r.later;
  is_version = r.is_version;
  is_holder = r.is_holder;
  follows = Extends-trans r.follows h;
}

Replaced_since :
    {oldest old new : List Lease} {version holder : String}
    → Extends oldest old
    → Replaced old new version holder
    → Replaced oldest new version holder
Replaced_since h r = record {
  stored = r.stored;
  before = r.before;
  older = r.older;
  later = Extends-trans h r.later;
  is_version = r.is_version;
  is_holder = r.is_holder;
  follows = r.follows;
}

module _ {W C A : Type 0} (log : W → List Lease) (old : List Lease) where
  Ends-continue :
      {B : Type 0} (P : A → List Lease → Type 0) (Q : B → List Lease → Type 0)
      (r : Outcome A × Election W C) (f : A → M W C B)
      → Ends log P old r
      → ((a : A) (s : Election W C) → P a (log s.world) → Ends log Q old (f a s))
      → Ends log Q old (continue r.0 f r.1)
  Ends-continue P Q (returned a, s) f h each = each a s h
  Ends-continue P Q (raised e, s) f h each = h
  Ends-continue P Q (out_of_fuel, s) f h each = h

  Ends-handle :
      (P : A → List Lease → Type 0) (r : Outcome A × Election W C) (f : ApiError → M W C A)
      → Ends log P old r
      → ((e : ApiError) (s : Election W C) → Extends old (log s.world) → Ends log P old (f e s))
      → Ends log P old (handle r.0 f r.1)
  Ends-handle P (returned a, s) f h each = h
  Ends-handle P (raised e, s) f h each = each e s h
  Ends-handle P (out_of_fuel, s) f h each = h

  Ends-answer :
      (P : A → List Lease → Type 0) (r : Result ApiError A) (s : Election W C)
      → ((a : A) → r ≡ ok a → P a (log s.world))
      → Extends old (log s.world)
      → Ends log P old (to_outcome r, s)
  Ends-answer P (ok a) s each grown = each a refl
  Ends-answer P (err e) s each grown = grown

  Ends-if :
      (P : A → List Lease → Type 0) (test : Bool) (m n : M W C A) (s : Election W C)
      → Ends log P old (m s)
      → Ends log P old (n s)
      → Ends log P old ((if test then m else n) s)
  Ends-if P true m n s h k = h
  Ends-if P false m n s h k = k

  Ends-grown :
      (r : Outcome A × Election W C)
      → Extends old (log r.1.world)
      → Ends log (λ a new. Extends old new) old r
  Ends-grown (returned a, s) h = h
  Ends-grown (raised e, s) h = h
  Ends-grown (out_of_fuel, s) h = h

  Ends-mono :
      (P Q : A → List Lease → Type 0) (older : List Lease) (r : Outcome A × Election W C)
      → Extends old older
      → ((a : A) (new : List Lease) → P a new → Q a new)
      → Ends log P older r
      → Ends log Q old r
  Ends-mono P Q older (returned a, s) e each h = each a (log s.world) h
  Ends-mono P Q older (raised x, s) e each h = Extends-trans e h
  Ends-mono P Q older (out_of_fuel, s) e each h = Extends-trans e h

module _ {W C : Type 0} (api : Api W C) (config : LeaderElectionConfig) {log : W → List Lease}
    (server : Server api config log) where
  pub observe_lease-world :
      (lease : Option Lease) (now : ℕ) (s : Election W C)
      → (observe_lease api config lease now s).world ≡ s.world
  unfolding observe_lease
  observe_lease-world lease now s = ground arith

  reload-Extends :
      (factory : Option (W → Result ApiError C × W)) (s : Election W C)
      → api.coordination_api_factory ≡ factory
      → Extends (log s.world) (log (reload api config factory s).1.world)
  reload-Extends none s e = same
  reload-Extends (some f) s e = ground (arith, server.factory f s.world e)

  refreshed-Ends :
      (old : List Lease) (exc : ApiError) (s : Election W C)
      → Extends old (log s.world)
      → Ends log (λ again new. Extends old new) old (refreshed api config exc s)
  unfolding refreshed refresh_coordination_api api_status
  refreshed-Ends old exc s h =
      Ends-if log old (λ again new. Extends old new) (api_status exc == some 401)
        (refresh_coordination_api api config) (pure false) s
        (Ends-grown log old (reload api config api.coordination_api_factory s)
          (Extends-trans h (reload-Extends api.coordination_api_factory s refl)))
        h

  read_once-Ends :
      (s : Election W C) → Ends log (Seen (log s.world)) (log s.world) (read_once api config s)
  unfolding read_once
  read_once-Ends s =
      Ends-answer log (log s.world) (Seen (log s.world)) _ _
        (server.reads s.client (timeout api config) s.world)
        (server.read s.client (timeout api config) s.world)

  pub read_lease-Ends :
      (s : Election W C) → Ends log (Seen (log s.world)) (log s.world) (read_lease api config s)
  unfolding read_lease
  read_lease-Ends s =
      let old = log s.world in
      Ends-handle log old (Seen old) (read_once api config s) _ (read_once-Ends s) λ exc t grown.
        Ends-continue log old (λ again new. Extends old new) (Seen old) (refreshed api config exc t)
          _ (refreshed-Ends old exc t grown)
          λ again u h.
            Ends-if log old (Seen old) again (read_once api config) _ u
              (Ends-mono log old (Seen (log u.world)) (Seen old) (log u.world)
                (read_once api config u) h
                (λ lease new (older, seen, kept). (older, Extends-trans h seen, kept))
                (read_once-Ends u))
              h

  module _ (body : LeaseBody) (version : String)
      (names : body.resource_version ≡ some version) where
    replace_once-Ends :
        (s : Election W C)
        → Ends log
            (λ u new. Replaced (log s.world) new version body.holder_identity)
            (log s.world)
            (replace_once api config body s)
    unfolding replace_once
    replace_once-Ends s =
        let (answer, w) =
          api.replace_namespaced_lease s.client config.lock_name config.lock_namespace body
            (timeout api config) s.world in
        let t : Election W C = record s { world = w } in
        Ends-continue log (log s.world)
          (λ updated new. Replaced (log s.world) new version body.holder_identity)
          (λ u new. Replaced (log s.world) new version body.holder_identity) (to_outcome answer, t)
          _
          (Ends-answer log (log s.world)
            (λ updated new. Replaced (log s.world) new version body.holder_identity) answer t
            (λ updated is.
              server.replaces s.client body (timeout api config) s.world updated version names is)
            (server.replace s.client body (timeout api config) s.world))
          λ updated t' done.
            subst (λ w. Replaced (log s.world) (log w) version body.holder_identity)
              (sym (
                observe_lease-world updated (api.monotonic t'.world).0
                  (record t' { world = (api.monotonic t'.world).1 })))
              (Replaced_grows done (server.monotonic t'.world))

    replaced_true-Ends :
        (old : List Lease) (s : Election W C)
        → Extends old (log s.world)
        → Ends log (Written old version body.holder_identity) old (
            continue
              (replace_once api config body s).0
              (λ u. pure true)
              (replace_once api config body s).1)
    replaced_true-Ends old s h =
        Ends-continue log old (λ u new. Replaced old new version body.holder_identity)
          (Written old version body.holder_identity) (replace_once api config body s)
          (λ u. pure true)
          (Ends-mono log old (λ u new. Replaced (log s.world) new version body.holder_identity)
            (λ u new. Replaced old new version body.holder_identity) (log s.world)
            (replace_once api config body s) h (λ u new done. Replaced_since h done)
            (replace_once-Ends s))
          λ u t done. done

    written-Ends :
        (s : Election W C)
        → Ends log
            (Written (log s.world) version body.holder_identity)
            (log s.world)
            (written api config (replace_once api config body) s)
    unfolding written
    written-Ends s =
        let old = log s.world in
        let P : Bool → List Lease → Type 0 = Written old version body.holder_identity in
        Ends-handle log old P
          (continue (replace_once api config body s).0 (λ u. pure true)
            (replace_once api config body s).1)
          _ (replaced_true-Ends old s same)
          λ exc t grown.
            Ends-continue log old (λ again new. Extends old new) P (refreshed api config exc t) _
              (refreshed-Ends old exc t grown)
              λ again u h.
                Ends-if log old P again _ (pure false) u
                  (Ends-handle log old P
                    (continue (replace_once api config body u).0 (λ u. pure true)
                      (replace_once api config body u).1)
                    (λ e. pure false) (replaced_true-Ends old u h) λ e v k. k)
                  h

  replaced :
      (old : List Lease) (version holder : String) (r : Outcome Bool × Election W C)
      → Ends log (Written old version holder) old r
      → r.0 ≡ returned true
      → Replaced old (log r.1.world) version holder
  replaced old version holder (returned true, s) h e = h
  replaced old version holder (returned false, s) h e = absurd (ground (arith, e))
  replaced old version holder (raised x, s) h e = absurd (ground (arith, e))
  replaced old version holder (out_of_fuel, s) h e = absurd (ground (arith, e))

  pub replace_lease-Follows :
      (lease : Lease) (holder : String) (acquired : Option ℕ) (renewed_at transitions : ℕ)
      (duration : Option ℕ) (version : String) (older : List Lease) (s : Election W C)
      → lease.resource_version ≡ some version
      → Extends (lease ∷ older) (log s.world)
      → (replace_lease api config lease holder acquired renewed_at transitions duration s).0
        ≡ returned true
      → Follows lease holder (
          log
            (replace_lease api config lease holder acquired renewed_at transitions duration
              s).1.world)
  unfolding replace_lease lease_body resource_version
  replace_lease-Follows lease holder acquired renewed_at transitions duration version older s
        is_version seen e =
      let body =
        lease_body config holder acquired renewed_at transitions duration
          (resource_version lease) in
      let r = written api config (replace_once api config body) s in
      let done : Replaced (log s.world) (log r.1.world) version holder =
        replaced (log s.world) version holder r (written-Ends body version is_version s) e in
      let kept : Extends (done.before ∷ done.older) (log r.1.world) =
        Extends-trans (wrote done.stored same) done.follows in
      let same_log =
        Extends-version lease done.before older done.older (server.versioned r.1.world)
          (Extends-trans seen (Extends-trans done.later kept)) kept
          (is_version ∙ sym done.is_version) in
      record {
        stored = done.stored;
        older = older;
        is_holder = done.is_holder;
        follows =
            subst (λ l. Extends (done.stored ∷ l) (log r.1.world)) (sym same_log) done.follows;
      }
