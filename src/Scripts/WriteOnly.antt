-- ===== src/Scripts/WriteOnly.antt =====
-- scripts/av_lustre_workload.py: the loop of `run_write_only`, which fills a pod's directory.
--
-- A call of the file system is a `Call`, which `World` answers by what was called before, newest
-- first; `signalled` is the flag that the handler of SIGTERM and SIGINT sets. The rounds of the loop
-- take fuel, as do the chunks of a file. Of the buffer its length is kept: `chunk_buf[:8] = …`
-- lengthens a shorter one. The samples of latency and throughput are not modelled here.
pub mod Counts
pub mod Ends
mod Examples
use azure_lustre_vmss_metric.Prelude.{
  ℕ, zero, suc, String, ◌+◌, ◌-◌, ◌*◌, ◌%◌, min, max, leb, ltb, Bool, true, false, ◌&&◌, ◌||◌, not,
  Option, none, some, List, [], ◌∷◌, if◌then◌else◌, nat_beq,
}
use azure_lustre_vmss_metric.Prelude.Result.{Result, ok, err}
use azure_lustre_vmss_metric.Scripts.Roots.{Paths, Resolved, ensure_within}

-- `errno` of an `OSError`: no space is left, or another.
pub data OsError : Type 0 where
  enospc other_error : OsError

pub data Call : Type 0 where
  -- `dir-…`
  make_dir : ℕ → Call
  -- `file-…` is opened
  open_file : ℕ → Call
  -- this many bytes
  write : ℕ → Call
  close_file : Call

pub data Reason : Type 0 where
  sigterm files_per_pod target_bytes no_space : Reason

pub record Event : Type 0 where
  pub call : Call
  pub failed : Option OsError

-- `pod_dir`, and `pod_dir / "dir-…" / "file-…"`
pub data PodPlace : Type 0 where
  pod_dir : PodPlace
  file_path : ℕ → ℕ → PodPlace

pub record World : Type 0 where
  -- `pathlib` at that moment
  pub paths : List Event → Paths PodPlace
  pub answer : List Event → Call → Option OsError
  pub signalled : List Event → Bool

-- The settings, as `run_write_only` clamps them.
pub record Plan : Type 0 where
  pub file_size : ℕ
  pub chunk_size : ℕ
  pub fanout : ℕ
  pub target : ℕ
  pub file_limit : ℕ
  pub max_recorded_errors : ℕ
  pub fail_on_write_error : Bool

-- `max(…, 1)`, `max(…, 0)` on integers that `parse_size` made not negative
unfoldable pub plan_of : ℕ → ℕ → ℕ → ℕ → ℕ → ℕ → ℕ → Bool → Plan
plan_of file_size_bytes chunk_size_bytes default_chunk_size dir_fanout target files recorded fails =
    let file_size = max file_size_bytes 1 in
    let wanted =
      max (if nat_beq chunk_size_bytes 0 then default_chunk_size else chunk_size_bytes) 1 in
    record {
      file_size = file_size;
      chunk_size = if ltb file_size wanted then file_size else wanted;
      fanout = max dir_fanout 1;
      target = target;
      file_limit = files;
      max_recorded_errors = recorded;
      fail_on_write_error = fails;
    }

-- The counters of the summary, and the variables of the loop.
pub record State : Type 0 where
  pub events : List Event
  pub files_attempted : ℕ
  pub files_succeeded : ℕ
  pub files_written : ℕ
  pub files_failed : ℕ
  pub bytes_written : ℕ
  pub recorded_errors : ℕ
  pub file_index : ℕ
  pub buffer_length : ℕ
  pub enospc_reached : Bool
  pub terminal_reason : Option Reason

-- How a round ends: the loop goes on, or it is left, or an exception leaves `run_write_only`.
pub data Flow : Type 0 where
  goes_on : State → Flow
  ends : State → Flow
  raises : OsError → State → Flow
  -- by `ensure_within`
  refused : String → State → Flow
  -- the fuel ran out
  unfinished : State → Flow

abbrev pub called : Call → Option OsError → State → State
called c failed s = record s { events = record { call = c; failed = failed } ∷ s.events }

abbrev pub with_reason : Reason → State → State
with_reason reason s = record s { terminal_reason = some reason }

abbrev pub full : State → State
full s = record s { enospc_reached = true; terminal_reason = some no_space }

-- the `except` clause of the file
abbrev pub write_failed : Plan → OsError → State → Flow
write_failed plan enospc s = ends (full s)
write_failed plan other_error s =
    let s' = record s {
      files_failed = s.files_failed + 1;
      recorded_errors =
          if ltb s.recorded_errors plan.max_recorded_errors
          then s.recorded_errors + 1
          else s.recorded_errors;
    } in
    if plan.fail_on_write_error then raises other_error s' else goes_on s'

abbrev pub file_done : State → Flow
file_done s = goes_on (record s {
  files_written = s.files_written + 1;
  files_attempted = s.files_attempted + 1;
  files_succeeded = s.files_succeeded + 1;
  file_index = s.file_index + 1;
})

-- the target is set and reached
abbrev pub is_reached : Plan → State → Bool
is_reached plan s = not (nat_beq plan.target 0) && leb plan.target s.bytes_written

-- An exception of the closing takes the place of the one that left the block.
abbrev pub replaced : Option OsError → OsError → OsError
replaced none e = e
replaced (some e') e = e'

module _ (world : World) (plan : Plan) where
  abbrev pub closed : Option OsError → State → Flow
  closed none s = file_done s
  closed (some e) s = write_failed plan e s

  -- leaving `with _open(…)`
  unfoldable pub close_file_of : State → Flow
  close_file_of s =
      let failed = world.answer s.events close_file in closed failed (called close_file failed s)

  -- a chunk was written, or its write failed and the file is closed
  abbrev pub chunk_done : Option OsError → ℕ → (State → Flow) → State → Flow
  chunk_done none size continue s =
      let s' = record s { bytes_written = s.bytes_written + size } in
      if is_reached plan s' then close_file_of s' else continue s'
  chunk_done (some e) size continue s =
      let failed = world.answer s.events close_file in
      write_failed plan (replaced failed e) (called close_file failed s)

  -- The length of what is written: the whole buffer for a whole chunk, or a part of it.
  abbrev pub written_length : ℕ → ℕ → ℕ
  written_length size buffer = if nat_beq size plan.chunk_size then buffer else min size buffer

  abbrev pub write_chunk : ℕ → (State → Flow) → State → Flow
  write_chunk size continue s =
      let buffer = max s.buffer_length 8 in
      let c = write (written_length size buffer) in
      let failed = world.answer s.events c in
      chunk_done failed size continue (record (called c failed s) { buffer_length = buffer })

  -- `while remaining > 0`
  unfoldable pub write_chunks : ℕ → ℕ → State → Flow
  unfolding close_file_of
  write_chunks zero remaining s = unfinished s
  write_chunks (suc fuel) remaining s =
      let size = min plan.chunk_size remaining in
      let rest = write_chunk size (write_chunks fuel (remaining - size)) s in
      if nat_beq remaining 0 || world.signalled s.events then close_file_of s else rest

  abbrev pub opened : Option OsError → State → Flow
  opened none s = write_chunks (suc plan.file_size) plan.file_size s
  opened (some e) s = write_failed plan e s

  abbrev pub made : Option OsError → State → Flow
  made none s =
      let c = open_file s.file_index in
      let failed = world.answer s.events c in opened failed (called c failed s)
  made (some enospc) s = ends (full s)
  made (some other_error) s = raises other_error s

  -- `ensure_within(pod_dir, file_path)`
  abbrev pub checked_path : State → Result String Resolved
  checked_path s =
      ensure_within (world.paths s.events) pod_dir
        (file_path (s.file_index % plan.fanout) s.file_index)

  abbrev pub after_check : Result String Resolved → State → Flow
  after_check (err message) s = refused message s
  after_check (ok resolved) s =
      let c = make_dir (s.file_index % plan.fanout) in
      let failed = world.answer s.events c in made failed (called c failed s)

  -- below the tests at the head of the loop
  unfoldable pub fill_file : State → Flow
  unfolding write_chunks
  fill_file s = after_check (checked_path s) s

  unfoldable pub round : State → Flow
  unfolding fill_file
  round s =
      if world.signalled s.events
      then ends (with_reason sigterm s)
      else if not (nat_beq plan.file_limit 0) && leb plan.file_limit s.files_written
      then ends (with_reason files_per_pod s)
      else if is_reached plan s
      then ends (with_reason target_bytes s)
      else fill_file s

  abbrev pub then_loop : (State → Flow) → Flow → Flow
  then_loop loop (goes_on s) = loop s
  then_loop loop (ends s) = ends s
  then_loop loop (raises e s) = raises e s
  then_loop loop (refused message s) = refused message s
  then_loop loop (unfinished s) = unfinished s

  -- `while True`
  unfoldable pub fill : ℕ → State → Flow
  unfolding round
  fill zero s = unfinished s
  fill (suc fuel) s = let loop = fill fuel in then_loop loop (round s)

  abbrev pub empty : State
  empty = record {
    events = [];
    files_attempted = 0;
    files_succeeded = 0;
    files_written = 0;
    files_failed = 0;
    bytes_written = 0;
    recorded_errors = 0;
    file_index = 0;
    buffer_length = plan.chunk_size;
    enospc_reached = false;
    terminal_reason = none;
  }
