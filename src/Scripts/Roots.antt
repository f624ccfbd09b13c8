-- ===== src/Scripts/Roots.antt =====
-- scripts/av_lustre_workload.py: the checks that keep what the simulator reads and what it writes
-- apart.
--
-- A resolved path is the list of its segments from the root. `Paths P` stands for `pathlib.Path`,
-- whose `resolve` follows the links of the file system.
use azure_lustre_vmss_metric.Prelude.{
  String, ◌≡◌, refl, sym, ap, subst, ◌∙◌, Bool, true, false, ◌&&◌, ◌||◌, not, Option, none, some,
  List, [], ◌∷◌, ◌==◌, string_eq, list_eq, if◌then◌else◌, arith, Bool-cases, inl, inr, beq_refl,
}
use azure_lustre_vmss_metric.Prelude.Sets.{contains}
use azure_lustre_vmss_metric.Prelude.Result.{Result, ok, err, ◌>>=◌, bind-ok, ok-injective}

abbrev pub Resolved : Type 0
Resolved = List String

pub record Paths (P : Type 0) : Type 0 where
  -- `p.resolve()`, or the exception
  pub resolve : P → Result String Resolved
  -- `Path(text)`, `text.strip()`, `p.is_absolute()`, `p.parts` and `base / p`
  pub path : String → P
  pub strip : String → String
  pub is_absolute : P → Bool
  pub parts : P → List String
  pub join : Resolved → P → P
  -- A resolved path as a path
  pub as_path : Resolved → P

-- `_is_inside`: `child.relative_to(parent)` does not raise
unfoldable pub is_inside : Resolved → Resolved → Bool
is_inside child [] = true
is_inside [] (segment ∷ parent) = false
is_inside (name ∷ child) (segment ∷ parent) = name == segment && is_inside child parent

-- The guards of `assert_disjoint_roots`
unfoldable pub disjoint : Resolved → Resolved → Result String (Resolved × Resolved)
unfolding is_inside
disjoint dataset result =
    if dataset == result
    then err "resolve to the same path"
    else if is_inside result dataset
    then err "RESULT_ROOT is nested inside DATASET_ROOT"
    else if is_inside dataset result
    then err "DATASET_ROOT is nested inside RESULT_ROOT"
    else ok (dataset, result)

-- The guard of `ensure_within` and of `resolve_walk_root`
unfoldable pub kept_inside : String → Resolved → Resolved → Result String Resolved
unfolding is_inside
kept_inside message base candidate =
    if not (is_inside candidate base) && not (candidate == base) then err message else ok candidate

module _ {P : Type 0} (paths : Paths P) where
  open paths use {resolve, path, strip, is_absolute, parts, join}

  unfoldable pub assert_disjoint_roots : P → P → Result String (Resolved × Resolved)
  unfolding disjoint
  assert_disjoint_roots dataset_root result_root =
      resolve dataset_root >>= λ dataset. resolve result_root >>= λ result. disjoint dataset result

  unfoldable pub ensure_within : P → P → Result String Resolved
  unfolding kept_inside
  ensure_within base candidate = resolve base >>= λ base_resolved.
      resolve candidate >>= λ candidate_resolved.
      kept_inside "refusing to operate outside of the base" base_resolved candidate_resolved

  -- The part of `resolve_walk_root` for a subpath that is not blank
  unfoldable pub walk_below : Resolved → P → Result String Resolved
  unfolding kept_inside contains
  walk_below dataset candidate =
      if is_absolute candidate
      then err "must be a relative path, not absolute"
      else if contains (parts candidate) ".."
      then err "'..' segments are not allowed"
      else resolve (join dataset candidate) >>= λ walk_root.
          kept_inside "resolved walk root escapes DATASET_ROOT" dataset walk_root

  abbrev walk_from : Resolved → Option String → Result String Resolved
  unfolding walk_below
  walk_from dataset none = ok dataset
  walk_from dataset (some subpath) =
      if subpath == "" || strip subpath == ""
      then ok dataset
      else walk_below dataset (path (strip subpath))

  unfoldable pub resolve_walk_root : P → Option String → Result String Resolved
  unfolding walk_from
  resolve_walk_root dataset_root subpath =
      resolve dataset_root >>= λ dataset. walk_from dataset subpath

is_inside_refl : (p : Resolved) → is_inside p p ≡ true
unfolding is_inside
is_inside_refl [] = refl
is_inside_refl (s ∷ p) = ground (arith, beq_refl s, is_inside_refl p)

pub is_inside_trans :
    (p q r : Resolved) → is_inside p q ≡ true → is_inside q r ≡ true → is_inside p r ≡ true
unfolding is_inside
is_inside_trans p q [] h k = refl
is_inside_trans p [] (t ∷ r) h k = absurd (ground (arith, k))
is_inside_trans [] (s ∷ q) (t ∷ r) h k = absurd (ground (arith, h))
is_inside_trans (a ∷ p) (s ∷ q) (t ∷ r) h k = ground (
  arith,
  h,
  k,
  string_eq.equals_iff a s,
  string_eq.equals_iff s t,
  string_eq.equals_iff a t,
  is_inside_trans p q r,
)

-- Of two directories that a path is inside, one is inside the other.
is_inside_total :
    (p q r : Resolved)
    → is_inside p q ≡ true
    → is_inside p r ≡ true
    → (is_inside q r || is_inside r q) ≡ true
unfolding is_inside
is_inside_total p [] r h k = ground arith
is_inside_total p (s ∷ q) [] h k = refl
is_inside_total [] (s ∷ q) (t ∷ r) h k = absurd (ground (arith, h))
is_inside_total (a ∷ p) (s ∷ q) (t ∷ r) h k = ground (
  arith,
  h,
  k,
  string_eq.equals_iff a s,
  string_eq.equals_iff a t,
  string_eq.equals_iff s t,
  string_eq.equals_iff t s,
  is_inside_total p q r,
)

disjoint-apart :
    (dataset result : Resolved) (roots : Resolved × Resolved) (p : Resolved)
    → disjoint dataset result ≡ ok roots
    → (is_inside p roots.0 && is_inside p roots.1) ≡ false
unfolding disjoint
disjoint-apart dataset result (d, r) p h = ground (arith, h, is_inside_total p dataset result)

disjoint-kept :
    (d r dataset result : Resolved)
    → disjoint d r ≡ ok (dataset, result)
    → (d ≡ dataset) × (r ≡ result)
unfolding disjoint
disjoint-kept d r dataset result h = ground (arith, h)

pub kept_inside-kept :
    (message : String) (base candidate out : Resolved)
    → kept_inside message base candidate ≡ ok out
    → candidate ≡ out
unfolding kept_inside
kept_inside-kept message base candidate out h = ground (arith, h)

pub kept_inside-inside :
    (message : String) (base candidate out : Resolved)
    → kept_inside message base candidate ≡ ok out
    → is_inside out base ≡ true
unfolding kept_inside
kept_inside-inside message base candidate out h = elim (Bool-cases (candidate == base)) [
  | inl is ↦
      let same = (list_eq.equals_iff candidate base).0 is in
      subst (λ p. is_inside p base ≡ true)
        (sym same ∙ kept_inside-kept message base candidate out h) (is_inside_refl base)
  | inr isnt ↦ ground (arith, h, isnt)
]

module _ {P : Type 0} (paths : Paths P) where
  open paths use {resolve, path, strip, is_absolute, parts, join}

  -- A path that is accepted lies inside the base.
  pub ensure_within-inside :
      (base candidate : P) (root out : Resolved)
      → resolve base ≡ ok root
      → ensure_within paths base candidate ≡ ok out
      → is_inside out root ≡ true
  unfolding ensure_within
  ensure_within-inside base candidate root out is_root h =
      let (r, rooted, checked) = bind-ok (resolve base) _ out h in
      let (c, resolved, made) = bind-ok (resolve candidate) _ out checked in
      subst (λ r. is_inside out r ≡ true) (ok-injective r root (sym rooted ∙ is_root))
        (kept_inside-inside "refusing to operate outside of the base" r c out made)

  pub ensure_within-resolved :
      (base candidate : P) (out : Resolved)
      → ensure_within paths base candidate ≡ ok out
      → resolve candidate ≡ ok out
  unfolding ensure_within
  ensure_within-resolved base candidate out h =
      let (r, rooted, checked) = bind-ok (resolve base) _ out h in
      let (c, resolved, made) = bind-ok (resolve candidate) _ out checked in
      resolved ∙ ap ok (kept_inside-kept "refusing to operate outside of the base" r c out made)

  walk_below-inside :
      (dataset : Resolved) (candidate : P) (walk : Resolved)
      → walk_below paths dataset candidate ≡ ok walk
      → is_inside walk dataset ≡ true
  unfolding walk_below
  walk_below-inside dataset candidate walk h = elim (Bool-cases (is_absolute candidate)) [
    | inl is ↦ absurd (ground (arith, rw is at h))
    | inr isnt ↦ elim (Bool-cases (contains (parts candidate) "..")) [
      | inl up ↦ absurd (ground (arith, rw (isnt, up) at h))
      | inr down ↦
          let (w, resolved, made) =
            bind-ok (resolve (join dataset candidate)) _ walk (rw (isnt, down) at h) in
          kept_inside-inside "resolved walk root escapes DATASET_ROOT" dataset w walk made
    ]
  ]

  walk_from-inside :
      (dataset : Resolved) (subpath : Option String) (walk : Resolved)
      → walk_from paths dataset subpath ≡ ok walk
      → is_inside walk dataset ≡ true
  unfolding walk_from
  walk_from-inside dataset none walk h = ground (arith, h, is_inside_refl dataset)
  walk_from-inside dataset (some subpath) walk h =
      elim (Bool-cases (subpath == "" || strip subpath == "")) [
        | inl is ↦ ground (arith, rw is at h, is_inside_refl dataset)
        | inr isnt ↦ walk_below-inside dataset (path (strip subpath)) walk (rw isnt at h)
      ]

  -- Accepted roots are resolved, and no path lies inside both.
  pub assert_disjoint_roots-resolved :
      (dataset_root result_root : P) (dataset result : Resolved)
      → assert_disjoint_roots paths dataset_root result_root ≡ ok (dataset, result)
      → (resolve dataset_root ≡ ok dataset)
        × (resolve result_root ≡ ok result)
        × ((p : Resolved) → (is_inside p dataset && is_inside p result) ≡ false)
  unfolding assert_disjoint_roots
  assert_disjoint_roots-resolved dataset_root result_root dataset result h =
      let (d, is_d, more) = bind-ok (resolve dataset_root) _ (dataset, result) h in
      let (r, is_r, apart) = bind-ok (resolve result_root) _ (dataset, result) more in
      let (d_kept, r_kept) = disjoint-kept d r dataset result apart in
      (is_d ∙ ap ok d_kept, is_r ∙ ap ok r_kept, λ p. disjoint-apart d r (dataset, result) p apart)

  -- Once the roots are accepted, a file below the walk root lies inside the dataset and outside the
  -- result root, wherever links lead.
  pub resolve_walk_root-apart :
      (dataset_root result_root : P) (dataset result : Resolved) (subpath : Option String)
      (walk file : Resolved)
      → assert_disjoint_roots paths dataset_root result_root ≡ ok (dataset, result)
      → resolve_walk_root paths dataset_root subpath ≡ ok walk
      → is_inside file walk ≡ true
      → (is_inside file dataset ≡ true) × (is_inside file result ≡ false)
  unfolding resolve_walk_root
  resolve_walk_root-apart dataset_root result_root dataset result subpath walk file roots walked
        below =
      let (is_d, is_r, apart) =
        assert_disjoint_roots-resolved dataset_root result_root dataset result roots in
      let (w, is_w, below_w) = bind-ok (resolve dataset_root) _ walk walked in
      let walk_inside =
        subst (λ root. is_inside walk root ≡ true) (ok-injective w dataset (sym is_w ∙ is_d))
          (walk_from-inside w subpath walk below_w) in
      let file_inside = is_inside_trans file walk dataset below walk_inside in
      (file_inside, ground (arith, file_inside, apart file))
