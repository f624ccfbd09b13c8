-- ===== src/Scripts/WriteOnly/Counts.antt =====
-- What the counters of `run_write_only` say at the end of a run.
use azure_lustre_vmss_metric.Prelude.{
  ℕ, zero, suc, String, ◌+◌, ◌-◌, ◌%◌, ◌≤◌, min, max, leb, ltb, ◌≡◌, refl, Bool, true, false, ◌&&◌,
  ◌||◌, not, Option, none, some, List, [], ◌∷◌, if◌then◌else◌, nat_beq, arith,
}
use azure_lustre_vmss_metric.Prelude.Result.{Result, ok, err}
use azure_lustre_vmss_metric.Scripts.Roots.{Resolved}
use azure_lustre_vmss_metric.Scripts.WriteOnly.{
  OsError, enospc, other_error, Call, make_dir, open_file, write, close_file, Reason, sigterm,
  files_per_pod, target_bytes, no_space, Event, World, Plan, State, Flow, goes_on, ends, raises,
  unfinished, called, with_reason, write_failed, file_done, is_reached, replaced, closed, refused,
  checked_path, after_check, close_file_of, chunk_done, written_length, write_chunk, write_chunks,
  opened, made, fill_file, round, then_loop, fill, empty,
}

abbrev pub stored_by : Call → Option OsError → ℕ
stored_by (write n) none = n
stored_by (write n) (some e) = 0
stored_by (make_dir n) failed = 0
stored_by (open_file n) failed = 0
stored_by close_file failed = 0

-- The bytes of the writes that succeeded.
abbrev pub stored : List Event → ℕ
stored [] = 0
stored (event ∷ past) = stored_by event.call event.failed + stored past

abbrev pub or_earlier : Option OsError → Option OsError → Option OsError
or_earlier none earlier = earlier
or_earlier (some e) earlier = some e

-- How the last call failed that did.
abbrev pub last_failure : List Event → Option OsError
last_failure [] = none
last_failure (event ∷ past) = or_earlier event.failed (last_failure past)

abbrev pub is_full : Option Reason → Bool
is_full none = false
is_full (some sigterm) = false
is_full (some files_per_pod) = false
is_full (some target_bytes) = false
is_full (some no_space) = true

pub record IsCounted (plan : Plan) (s : State) : Type 0 where
  pub attempted : s.files_attempted ≡ s.files_written
  pub succeeded : s.files_succeeded ≡ s.files_written
  pub numbered : s.file_index ≡ s.files_written
  -- The bytes are those that reached the files.
  pub bytes : stored s.events ≡ s.bytes_written
  pub whole_buffer : s.buffer_length ≡ plan.chunk_size
  pub recorded :
      (s.recorded_errors ≤ plan.max_recorded_errors) × (s.recorded_errors ≤ s.files_failed)
  -- The target is passed by less than a chunk.
  pub capped : (nat_beq plan.target 0 || ltb s.bytes_written (plan.target + plan.chunk_size)) ≡ true
  pub limited : (nat_beq plan.file_limit 0 || leb s.files_written plan.file_limit) ≡ true
  pub flagged : s.enospc_reached ≡ is_full s.terminal_reason

abbrev pub is_at_limit : Plan → State → Bool
is_at_limit plan s = not (nat_beq plan.file_limit 0) && leb plan.file_limit s.files_written

-- Why the loop was left.
abbrev pub Explains : World → Plan → State → Option Reason → Type 0
Explains world plan s none = ⊥
Explains world plan s (some sigterm) = world.signalled s.events ≡ true
Explains world plan s (some files_per_pod) = is_at_limit plan s ≡ true
Explains world plan s (some target_bytes) = is_reached plan s ≡ true
Explains world plan s (some no_space) = last_failure s.events ≡ some enospc

abbrev pub Ensures : World → Plan → Flow → Type 0
Ensures world plan (goes_on s) = IsCounted plan s × (s.terminal_reason ≡ none)
Ensures world plan (ends s) = IsCounted plan s × Explains world plan s s.terminal_reason
Ensures world plan (raises e s) =
    IsCounted plan s × (last_failure s.events ≡ some e) × (e ≡ other_error)
Ensures world plan (refused message s) =
    IsCounted plan s × (checked_path world plan s ≡ err message)
Ensures world plan (unfinished s) = IsCounted plan s

-- A state within a file.
record InFile (plan : Plan) (s : State) : Type 0 where
  counted : IsCounted plan s
  no_reason : s.terminal_reason ≡ none
  below_target : is_reached plan s ≡ false
  below_limit : is_at_limit plan s ≡ false

module _ (world : World) (plan : Plan) (wide : 8 ≤ plan.chunk_size) where
  branch :
      (test : Bool) (f g : Flow)
      → (test ≡ true → Ensures world plan f)
      → (test ≡ false → Ensures world plan g)
      → Ensures world plan (if test then f else g)
  branch true f g yes_case no_case = yes_case refl
  branch false f g yes_case no_case = no_case refl

  write_failed-Ensures :
      (e : OsError) (s : State)
      → IsCounted plan s
      → s.terminal_reason ≡ none
      → last_failure s.events ≡ some e
      → Ensures world plan (write_failed plan e s)
  write_failed-Ensures enospc s h fresh last = (
    record {
      attempted = h.attempted;
      succeeded = h.succeeded;
      numbered = h.numbered;
      bytes = h.bytes;
      whole_buffer = h.whole_buffer;
      recorded = h.recorded;
      capped = h.capped;
      limited = h.limited;
      flagged = refl;
    },
    last,
  )
  write_failed-Ensures other_error s h fresh last =
      branch plan.fail_on_write_error _ _ (λ fails. (counted, last, refl))
        (λ continues. (counted, fresh))
    where
      counted : IsCounted plan (record s {
        files_failed = s.files_failed + 1;
        recorded_errors =
            if ltb s.recorded_errors plan.max_recorded_errors
            then s.recorded_errors + 1
            else s.recorded_errors;
      })
      counted = record {
        attempted = h.attempted;
        succeeded = h.succeeded;
        numbered = h.numbered;
        bytes = h.bytes;
        whole_buffer = h.whole_buffer;
        recorded = (ground (arith, h.recorded), ground (arith, h.recorded));
        capped = h.capped;
        limited = h.limited;
        flagged = h.flagged;
      }

  called-IsCounted :
      (c : Call) (failed : Option OsError) (s : State)
      → stored_by c failed ≡ 0
      → IsCounted plan s
      → IsCounted plan (called c failed s)
  called-IsCounted c failed s nothing h = record {
    attempted = h.attempted;
    succeeded = h.succeeded;
    numbered = h.numbered;
    bytes = rw nothing (ground (arith, h.bytes));
    whole_buffer = h.whole_buffer;
    recorded = h.recorded;
    capped = h.capped;
    limited = h.limited;
    flagged = h.flagged;
  }

  file_done-Ensures :
      (s : State)
      → IsCounted plan s
      → s.terminal_reason ≡ none
      → is_at_limit plan s ≡ false
      → Ensures world plan (file_done s)
  file_done-Ensures s h fresh room = (
    record {
      attempted = ground (arith, h.attempted);
      succeeded = ground (arith, h.succeeded);
      numbered = ground (arith, h.numbered);
      bytes = h.bytes;
      whole_buffer = h.whole_buffer;
      recorded = h.recorded;
      capped = h.capped;
      limited = ground (arith, room);
      flagged = h.flagged;
    },
    fresh,
  )

  closed-Ensures :
      (failed : Option OsError) (s : State)
      → IsCounted plan s
      → s.terminal_reason ≡ none
      → is_at_limit plan s ≡ false
      → Ensures world plan (closed world plan failed (called close_file failed s))
  closed-Ensures none s h fresh room =
      file_done-Ensures _ (called-IsCounted close_file none s refl h) fresh room
  closed-Ensures (some e) s h fresh room =
      write_failed-Ensures e _ (called-IsCounted close_file (some e) s refl h) fresh refl

  close_file_of-Ensures :
      (s : State)
      → IsCounted plan s
      → s.terminal_reason ≡ none
      → is_at_limit plan s ≡ false
      → Ensures world plan (close_file_of world plan s)
  unfolding close_file_of
  close_file_of-Ensures s = closed-Ensures (world.answer s.events close_file) s

  -- the `with` block was left by an exception
  broken-Ensures :
      (failed : Option OsError) (e : OsError) (s : State)
      → IsCounted plan s
      → s.terminal_reason ≡ none
      → last_failure s.events ≡ some e
      → Ensures world plan (write_failed plan (replaced failed e) (called close_file failed s))
  broken-Ensures none e s h fresh last =
      write_failed-Ensures e _ (called-IsCounted close_file none s refl h) fresh last
  broken-Ensures (some e') e s h fresh last =
      write_failed-Ensures e' _ (called-IsCounted close_file (some e') s refl h) fresh refl

  -- what is known between two chunks
  abbrev Goes : State → Type 0
  Goes s = InFile plan s

  stamped : (s : State) → IsCounted plan s → max s.buffer_length 8 ≡ plan.chunk_size
  stamped s h = ground (arith, h.whole_buffer, wide)

  written_length_lem :
      (size buffer : ℕ)
      → size ≤ plan.chunk_size
      → buffer ≡ plan.chunk_size
      → written_length world plan size buffer ≡ size
  written_length_lem size buffer small whole = ground (arith, whole, small)

  -- the state after a chunk that was written
  chunk_written :
      (size : ℕ) (s : State)
      → size ≤ plan.chunk_size
      → InFile plan s
      → IsCounted plan
          (record (called (write (written_length world plan size (max s.buffer_length 8))) none s) {
            buffer_length = max s.buffer_length 8;
            bytes_written = s.bytes_written + size;
          })
  chunk_written size s small h =
      let c = h.counted in
      let length = written_length_lem size (max s.buffer_length 8) small (stamped s c) in
      record {
        attempted = c.attempted;
        succeeded = c.succeeded;
        numbered = c.numbered;
        bytes = ground (arith, c.bytes, length);
        whole_buffer = stamped s c;
        recorded = c.recorded;
        capped = ground (arith, h.below_target, small);
        limited = c.limited;
        flagged = c.flagged;
      }

  chunk_failed :
      (c : Call) (e : OsError) (s : State)
      → stored_by c (some e) ≡ 0
      → IsCounted plan s
      → IsCounted plan (record (called c (some e) s) { buffer_length = max s.buffer_length 8 })
  chunk_failed c e s nothing h = record {
    attempted = h.attempted;
    succeeded = h.succeeded;
    numbered = h.numbered;
    bytes = rw nothing (ground (arith, h.bytes));
    whole_buffer = stamped s h;
    recorded = h.recorded;
    capped = h.capped;
    limited = h.limited;
    flagged = h.flagged;
  }

  chunk_done-Ensures :
      (size : ℕ) (continue : State → Flow) (s : State) (failed : Option OsError)
      → size ≤ plan.chunk_size
      → InFile plan s
      → ((t : State) → InFile plan t → Ensures world plan (continue t))
      → Ensures world plan (
          chunk_done world plan failed size continue
            (record (called
              (write (written_length world plan size (max s.buffer_length 8)))
              failed
              s) { buffer_length = max s.buffer_length 8 }))
  chunk_done-Ensures size continue s none small h each =
      branch _ _ _
        (λ reached.
          close_file_of-Ensures _ (chunk_written size s small h) h.no_reason h.below_limit)
        (λ below. each _ (record {
          counted = chunk_written size s small h;
          no_reason = h.no_reason;
          below_target = below;
          below_limit = h.below_limit;
        }))
  chunk_done-Ensures size continue s (some e) small h each =
      broken-Ensures (world.answer _ close_file) e _ (chunk_failed (write _) e s refl h.counted)
        h.no_reason refl

  at_most : (remaining : ℕ) → min plan.chunk_size remaining ≤ plan.chunk_size
  at_most remaining = omega arith

  write_chunks-Ensures :
      (fuel remaining : ℕ) (s : State)
      → InFile plan s
      → Ensures world plan (write_chunks world plan fuel remaining s)
  unfolding write_chunks
  write_chunks-Ensures zero remaining s h = h.counted
  write_chunks-Ensures (suc fuel) remaining s h =
      let size = min plan.chunk_size remaining in
      let c = write (written_length world plan size (max s.buffer_length 8)) in
      let continue = write_chunks world plan fuel (remaining - size) in
      branch (nat_beq remaining 0 || world.signalled s.events) (close_file_of world plan s)
        (write_chunk world plan size continue s)
        (λ done. close_file_of-Ensures s h.counted h.no_reason h.below_limit)
        (λ more.
          chunk_done-Ensures size continue s (world.answer s.events c) (at_most remaining) h
            (write_chunks-Ensures fuel (remaining - size)))

  called-InFile :
      (c : Call) (s : State) → stored_by c none ≡ 0 → InFile plan s → InFile plan (called c none s)
  called-InFile c s nothing h = record {
    counted = called-IsCounted c none s nothing h.counted;
    no_reason = h.no_reason;
    below_target = h.below_target;
    below_limit = h.below_limit;
  }

  opened-Ensures :
      (failed : Option OsError) (s : State)
      → InFile plan s
      → Ensures world plan (opened world plan failed (called (open_file s.file_index) failed s))
  opened-Ensures none s h =
      write_chunks-Ensures (suc plan.file_size) plan.file_size _
        (called-InFile (open_file _) s refl h)
  opened-Ensures (some e) s h =
      write_failed-Ensures e _ (called-IsCounted (open_file _) (some e) s refl h.counted)
        h.no_reason refl

  made-Ensures :
      (n : ℕ) (failed : Option OsError) (s : State)
      → InFile plan s
      → Ensures world plan (made world plan failed (called (make_dir n) failed s))
  made-Ensures n none s h =
      opened-Ensures (world.answer _ _) _ (called-InFile (make_dir n) s refl h)
  made-Ensures n (some enospc) s h =
      write_failed-Ensures enospc _ (called-IsCounted (make_dir n) (some enospc) s refl h.counted)
        h.no_reason refl
  made-Ensures n (some other_error) s h =
      (called-IsCounted (make_dir n) (some other_error) s refl h.counted, refl, refl)

  after_check-Ensures :
      (checked : Result String Resolved) (s : State)
      → checked_path world plan s ≡ checked
      → InFile plan s
      → Ensures world plan (after_check world plan checked s)
  after_check-Ensures (err message) s is h = (h.counted, is)
  after_check-Ensures (ok resolved) s is h =
      made-Ensures (s.file_index % plan.fanout) (world.answer s.events _) s h

  round-Ensures :
      (s : State)
      → IsCounted plan s
      → s.terminal_reason ≡ none
      → Ensures world plan (round world plan s)
  unfolding round fill_file
  round-Ensures s h fresh =
      branch (world.signalled s.events) _ _ (λ signalled. (stopped sigterm refl, signalled))
        λ silent.
          branch (is_at_limit plan s) _ _ (λ at_limit. (stopped files_per_pod refl, at_limit))
            λ room.
              branch (is_reached plan s) _ _ (λ reached. (stopped target_bytes refl, reached))
                λ below. after_check-Ensures (checked_path world plan s) s refl (record {
                  counted = h;
                  no_reason = fresh;
                  below_target = below;
                  below_limit = room;
                })
    where
      stopped :
          (reason : Reason) → is_full (some reason) ≡ false → IsCounted plan (with_reason reason s)
      stopped reason not_full = record {
        attempted = h.attempted;
        succeeded = h.succeeded;
        numbered = h.numbered;
        bytes = h.bytes;
        whole_buffer = h.whole_buffer;
        recorded = h.recorded;
        capped = h.capped;
        limited = h.limited;
        flagged = ground (arith, h.flagged, fresh, not_full);
      }

  then_loop-Ensures :
      (loop : State → Flow) (f : Flow)
      → Ensures world plan f
      → ((s : State) → IsCounted plan s → s.terminal_reason ≡ none → Ensures world plan (loop s))
      → Ensures world plan (then_loop world plan loop f)
  then_loop-Ensures loop (goes_on s) h each = each s h.0 h.1
  then_loop-Ensures loop (ends s) h each = h
  then_loop-Ensures loop (raises e s) h each = h
  then_loop-Ensures loop (refused message s) h each = h
  then_loop-Ensures loop (unfinished s) h each = h

  pub fill-Ensures :
      (fuel : ℕ) (s : State)
      → IsCounted plan s
      → s.terminal_reason ≡ none
      → Ensures world plan (fill world plan fuel s)
  unfolding fill
  fill-Ensures zero s h fresh = h
  fill-Ensures (suc fuel) s h fresh =
      then_loop-Ensures _ _ (round-Ensures s h fresh) (fill-Ensures fuel)

  pub empty-IsCounted : IsCounted plan (empty world plan)
  empty-IsCounted = record {
    attempted = refl;
    succeeded = refl;
    numbered = refl;
    bytes = refl;
    whole_buffer = refl;
    recorded = (omega arith, omega arith);
    capped = ground (arith, wide);
    limited = ground arith;
    flagged = refl;
  }

  -- However far the loop has come, where a chunk holds the eight bytes of the counter at least: as
  -- many files are reported attempted, and succeeded, as were written; the bytes reported are those
  -- of the writes that succeeded; neither limit is passed, the target by less than a chunk; no more
  -- errors are recorded than files failed, or than may be. A run that ends gives its true reason,
  -- and one that raises was left by the last call that failed, or by the guard on the path of the
  -- file, which refused it.
  pub fill-IsCounted : (fuel : ℕ) → Ensures world plan (fill world plan fuel (empty world plan))
  fill-IsCounted fuel = fill-Ensures fuel (empty world plan) empty-IsCounted refl
