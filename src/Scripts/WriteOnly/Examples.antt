-- ===== src/Scripts/WriteOnly/Examples.antt =====
-- A file system that is full after seven calls, and what the loop makes of it.
use azure_lustre_vmss_metric.Prelude.{
  ◌+◌, ◌≡◌, refl, true, false, none, some, leb, length, [], ◌∷◌, string_eq, list_eq, if◌then◌else◌,
  arith,
}
use azure_lustre_vmss_metric.Prelude.Result.{ok}
use azure_lustre_vmss_metric.Scripts.Roots.{Paths, Resolved, ensure_within}
use azure_lustre_vmss_metric.Scripts.WriteOnly.{
  enospc, no_space, PodPlace, pod_dir, file_path, World, Plan, State, Flow, fill, empty, plan_of,
}
use azure_lustre_vmss_metric.Scripts.WriteOnly.Counts.{Ensures, fill-IsCounted}
use azure_lustre_vmss_metric.Scripts.WriteOnly.Ends.{IsLasting, Completes, fill-Completes}

-- A pod's directory without links
abbrev place_path : PodPlace → Resolved
place_path pod_dir = "results" ∷ "pod" ∷ []
place_path (file_path n index) = "results" ∷ "pod" ∷ "dir" ∷ "file" ∷ []

abbrev places : Paths PodPlace
places = record {
  resolve = λ place. ok (place_path place);
  path = λ text. pod_dir;
  strip = λ text. text;
  is_absolute = λ place. true;
  parts = place_path;
  join = λ base place. place;
  as_path = λ resolved. pod_dir;
}

abbrev small_disk : World
small_disk = record {
  paths = λ past. places;
  answer = λ past c. if leb 7 (length past) then some enospc else none;
  signalled = λ past. false;
}

-- Files of forty bytes in chunks of sixteen
abbrev plan : Plan
unfolding plan_of
plan = plan_of 40 16 4194304 1024 100 0 20 true

abbrev state_of : Flow → State
state_of (Flow.goes_on s) = s
state_of (Flow.ends s) = s
state_of (Flow.raises e s) = s
state_of (Flow.refused message s) = s
state_of (Flow.unfinished s) = s

-- One file is written, and the second does not get beyond its directory.
small_disk_ends :
    let s = state_of (fill small_disk plan 5 (empty small_disk plan)) in
    (s.bytes_written ≡ 40) × (s.files_written ≡ 1) × (s.terminal_reason ≡ some no_space)
unfolding fill plan ensure_within
small_disk_ends = (refl, refl, refl)

small_disk-IsLasting : IsLasting small_disk
small_disk-IsLasting = record { lasts = λ past event h. h }

fill-IsCounted_example : Ensures small_disk plan (fill small_disk plan 5 (empty small_disk plan))
unfolding plan
fill-IsCounted_example = fill-IsCounted small_disk plan (omega arith) 5

fill-Completes_example :
    Completes small_disk plan (fill small_disk plan (plan.target + 2) (empty small_disk plan))
unfolding plan
fill-Completes_example =
    fill-Completes small_disk plan small_disk-IsLasting refl (omega arith) (omega arith)
      (omega arith) (omega arith)
