-- ===== src/Scripts/Outputs.antt =====
-- scripts/av_lustre_workload.py: where a run writes, and how much.
--
-- `trunc` is Python's `int` of a float that is not negative.
use azure_lustre_vmss_metric.Prelude.{
  String, ◌≡◌, sym, ap, subst, ◌∙◌, true, false, ◌||◌, ◌==◌, string_eq, list_eq, if◌then◌else◌,
  arith,
}
use azure_lustre_vmss_metric.Prelude.Result.{Result, ok, err, ◌>>=◌, bind-ok, ok-injective}
use azure_lustre_vmss_metric.Scripts.Roots.{
  Paths, Resolved, is_inside, is_inside_trans, assert_disjoint_roots, ensure_within,
  ensure_within-inside, kept_inside, kept_inside-kept, kept_inside-inside, ensure_within-resolved,
  assert_disjoint_roots-resolved,
}

-- `resolve` of a resolved path
pub record IsResolving {P : Type 0} (paths : Paths P) : Type 0 where
  pub idempotent :
      (p : P) (r : Resolved) → paths.resolve p ≡ ok r → paths.resolve (paths.as_path r) ≡ ok r

module _ {P : Type 0} (paths : Paths P) where
  open paths use {resolve, path, join, as_path}

  abbrev run_dir_of : Resolved → String → Result String Resolved
  unfolding kept_inside
  run_dir_of result_root run_id = resolve (join result_root (path run_id)) >>= λ run_dir.
      kept_inside "run-id must be a single path segment" result_root run_dir

  abbrev pod_dir_of : Resolved → String → Result String Resolved
  unfolding ensure_within
  pod_dir_of run_dir pod_name = resolve (join run_dir (path pod_name)) >>= λ pod_dir.
      ensure_within paths (as_path run_dir) (as_path pod_dir) >>= λ checked. ok pod_dir

  -- The directory of a pod's outputs, for a run id that is one segment
  unfoldable pub pod_output_dir : P → String → String → Result String Resolved
  unfolding run_dir_of pod_dir_of
  pod_output_dir result_root run_id pod_name = resolve result_root >>= λ result.
      run_dir_of result run_id >>= λ run_dir. pod_dir_of run_dir pod_name

  -- `_check_output` of `write_per_pod_output`, for a run that knows its dataset
  unfoldable pub check_output : Resolved → Resolved → P → Result String Resolved
  unfolding ensure_within is_inside
  check_output dataset pod_dir candidate =
      ensure_within paths (as_path pod_dir) candidate >>= λ resolved.
      if resolved == dataset || is_inside resolved dataset
      then err "refusing to write output"
      else ok resolved

module _ {P : Type 0} (paths : Paths P) (fs : IsResolving paths) where
  open paths use {resolve, path, join, as_path}

  run_dir_of-inside :
      (result : Resolved) (run_id : String) (run_dir : Resolved)
      → run_dir_of paths result run_id ≡ ok run_dir
      → (is_inside run_dir result ≡ true) × (resolve (as_path run_dir) ≡ ok run_dir)
  unfolding run_dir_of
  run_dir_of-inside result run_id run_dir h =
      let (d, is_d, kept) = bind-ok (resolve (join result (path run_id))) _ run_dir h in
      let message : String = "run-id must be a single path segment" in
      (
        kept_inside-inside message result d run_dir kept,
        fs.idempotent _ run_dir (is_d ∙ ap ok (kept_inside-kept message result d run_dir kept)),
      )

  pod_dir_of-inside :
      (run_dir : Resolved) (pod_name : String) (pod_dir : Resolved)
      → resolve (as_path run_dir) ≡ ok run_dir
      → pod_dir_of paths run_dir pod_name ≡ ok pod_dir
      → (is_inside pod_dir run_dir ≡ true) × (resolve (as_path pod_dir) ≡ ok pod_dir)
  unfolding pod_dir_of
  pod_dir_of-inside run_dir pod_name pod_dir is_run h =
      let (d, is_d, more) = bind-ok (resolve (join run_dir (path pod_name))) _ pod_dir h in
      let (checked, within, same) =
        bind-ok (ensure_within paths (as_path run_dir) (as_path d)) _ pod_dir more in
      let is_pod = is_d ∙ same in
      let resolved = ensure_within-resolved paths (as_path run_dir) (as_path d) checked within in
      let d_same =
        ok-injective checked d (sym resolved ∙ fs.idempotent _ d is_d)
        ∙ ok-injective d pod_dir same in
      (
        subst (λ p. is_inside p run_dir ≡ true) d_same
            (ensure_within-inside paths (as_path run_dir) (as_path d) run_dir checked is_run
              within),
        fs.idempotent _ pod_dir is_pod,
      )

  pod_output_dir-inside :
      (result_root : P) (run_id pod_name : String) (result pod_dir : Resolved)
      → resolve result_root ≡ ok result
      → pod_output_dir paths result_root run_id pod_name ≡ ok pod_dir
      → (is_inside pod_dir result ≡ true) × (resolve (as_path pod_dir) ≡ ok pod_dir)
  unfolding pod_output_dir
  pod_output_dir-inside result_root run_id pod_name result pod_dir is_root h =
      let (r, is_r, more) = bind-ok (resolve result_root) _ pod_dir h in
      let (run_dir, ran, last) = bind-ok (run_dir_of paths r run_id) _ pod_dir more in
      let (run_inside, is_run) = run_dir_of-inside r run_id run_dir ran in
      let (pod_inside, is_pod) = pod_dir_of-inside run_dir pod_name pod_dir is_run last in
      (
        is_inside_trans pod_dir run_dir result pod_inside (
            subst (λ root. is_inside run_dir root ≡ true)
              (ok-injective r result (sym is_r ∙ is_root)) run_inside),
        is_pod,
      )

  -- Once the roots are accepted, every path that `_check_output` accepts for the directory of a pod
  -- lies inside the result root and outside the dataset, wherever links lead, provided that
  -- resolving a resolved path gives it back.
  pub check_output-apart :
      (dataset_root result_root : P) (dataset result : Resolved) (run_id pod_name : String)
      (pod_dir : Resolved) (candidate : P) (out : Resolved)
      → assert_disjoint_roots paths dataset_root result_root ≡ ok (dataset, result)
      → pod_output_dir paths result_root run_id pod_name ≡ ok pod_dir
      → check_output paths dataset pod_dir candidate ≡ ok out
      → (is_inside out result ≡ true) × (is_inside out dataset ≡ false)
  unfolding check_output
  check_output-apart dataset_root result_root dataset result run_id pod_name pod_dir candidate out
        roots prepared checked =
      let (is_d, is_r, apart) =
        assert_disjoint_roots-resolved paths dataset_root result_root dataset result roots in
      let (pod_inside, is_pod) =
        pod_output_dir-inside result_root run_id pod_name result pod_dir is_r prepared in
      let (c, within, kept) =
        bind-ok (ensure_within paths (as_path pod_dir) candidate) _ out checked in
      let c_inside =
        ensure_within-inside paths (as_path pod_dir) candidate pod_dir c is_pod within in
      let c_same : c ≡ out = ground (arith, kept) in
      let out_inside =
        is_inside_trans out pod_dir result (subst (λ p. is_inside p pod_dir ≡ true) c_same c_inside)
          pod_inside in
      (out_inside, ground (arith, out_inside, apart out))
