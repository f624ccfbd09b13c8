-- ===== src/Scripts/WriteOnly/Ends.antt =====
-- When the loop of `run_write_only` ends.
use azure_lustre_vmss_metric.Prelude.{
  ℕ, zero, suc, String, ◌+◌, ◌-◌, ◌%◌, ◌≤◌, ◌<◌, min, max, leb, ltb, ◌≡◌, refl, Bool, true, false,
  ◌||◌, not, Option, none, some, List, ◌∷◌, if◌then◌else◌, nat_beq, arith,
}
use azure_lustre_vmss_metric.Prelude.Result.{Result, ok, err}
use azure_lustre_vmss_metric.Scripts.Roots.{Resolved}
use azure_lustre_vmss_metric.Scripts.WriteOnly.{
  OsError, enospc, other_error, make_dir, open_file, write, close_file, Event, World, Plan, State,
  Flow, goes_on, ends, raises, refused, unfinished, checked_path, after_check, called, write_failed,
  is_reached, closed, close_file_of, chunk_done, written_length, write_chunk, write_chunks, opened,
  made, fill_file, round, then_loop, fill, empty,
}
use azure_lustre_vmss_metric.Scripts.WriteOnly.Counts.{
  IsCounted, Explains, Ensures, last_failure, fill-Ensures, empty-IsCounted, is_at_limit,
}

-- A round that goes on has written something, or a signal has come.
abbrev Moves : World → ℕ → Flow → Type 0
Moves world before (goes_on s) = (ltb before s.bytes_written || world.signalled s.events) ≡ true
Moves world before (ends s) = Unit
Moves world before (raises e s) = Unit
Moves world before (refused message s) = Unit
Moves world before (unfinished s) = ⊥

-- The loop was left, by its end or by an exception.
abbrev Finishes : Flow → Type 0
Finishes (goes_on s) = ⊥
Finishes (ends s) = Unit
Finishes (raises e s) = Unit
Finishes (refused message s) = Unit
Finishes (unfinished s) = ⊥

-- What a run comes to.
abbrev pub Completes : World → Plan → Flow → Type 0
Completes world plan (goes_on s) = ⊥
Completes world plan (ends s) = IsCounted plan s × Explains world plan s s.terminal_reason
Completes world plan (raises e s) =
    IsCounted plan s × (last_failure s.events ≡ some e) × (e ≡ other_error)
Completes world plan (refused message s) =
    IsCounted plan s × (checked_path world plan s ≡ err message)
Completes world plan (unfinished s) = ⊥

Completes_lem :
    (world : World) (plan : Plan) (f : Flow)
    → Ensures world plan f
    → Finishes f
    → Completes world plan f
Completes_lem world plan (goes_on s) h left = absurd left
Completes_lem world plan (ends s) h left = h
Completes_lem world plan (raises e s) h left = h
Completes_lem world plan (refused message s) h left = h
Completes_lem world plan (unfinished s) h left = absurd left

-- A signal that came stays noted.
pub record IsLasting (world : World) : Type 0 where
  pub lasts :
      (past : List Event) (event : Event)
      → world.signalled past ≡ true
      → world.signalled (event ∷ past) ≡ true

module _ (world : World) (plan : Plan) (lasting : IsLasting world)
    (fails : plan.fail_on_write_error ≡ true) (positive : 1 ≤ plan.chunk_size) where
  branch :
      (before : ℕ) (test : Bool) (f g : Flow)
      → (test ≡ true → Moves world before f)
      → (test ≡ false → Moves world before g)
      → Moves world before (if test then f else g)
  branch before true f g yes_case no_case = yes_case refl
  branch before false f g yes_case no_case = no_case refl

  write_failed-Moves :
      (before : ℕ) (e : OsError) (s : State) → Moves world before (write_failed plan e s)
  write_failed-Moves before enospc s = tt
  write_failed-Moves before other_error s =
      branch before plan.fail_on_write_error _ _ (λ raised. tt)
        (λ continues. absurd (ground (arith, fails, continues)))

  moved :
      (before bytes : ℕ) (past : List Event) (event : Event)
      → (ltb before bytes || world.signalled past) ≡ true
      → (ltb before bytes || world.signalled (event ∷ past)) ≡ true
  moved before bytes past event h = ground (arith, lasting.lasts past event)

  closed-Moves :
      (before : ℕ) (failed : Option OsError) (s : State)
      → (ltb before s.bytes_written || world.signalled s.events) ≡ true
      → Moves world before (closed world plan failed (called close_file failed s))
  closed-Moves before none s h = moved before s.bytes_written s.events _ h
  closed-Moves before (some e) s h = write_failed-Moves before e _

  close_file_of-Moves :
      (before : ℕ) (s : State)
      → (ltb before s.bytes_written || world.signalled s.events) ≡ true
      → Moves world before (close_file_of world plan s)
  unfolding close_file_of
  close_file_of-Moves before s = closed-Moves before (world.answer s.events close_file) s

  chunk_done-Moves :
      (before size : ℕ) (continue : State → Flow) (s : State) (failed : Option OsError)
      → before ≤ s.bytes_written
      → 1 ≤ size
      → ((t : State) → before < t.bytes_written → Moves world before (continue t))
      → Moves world before (chunk_done world plan failed size continue s)
  chunk_done-Moves before size continue s none later some_bytes each =
      let s' = record s { bytes_written = s.bytes_written + size } in
      branch before (is_reached plan s') (close_file_of world plan s') (continue s')
        (λ reached. close_file_of-Moves before s' (ground arith)) (λ below. each s' (omega arith))
  chunk_done-Moves before size continue s (some e) later some_bytes each =
      write_failed-Moves before _ _

  write_chunk-Moves :
      (before size : ℕ) (continue : State → Flow) (s : State)
      → before ≤ s.bytes_written
      → 1 ≤ size
      → ((t : State) → before < t.bytes_written → Moves world before (continue t))
      → Moves world before (write_chunk world plan size continue s)
  write_chunk-Moves before size continue s later some_bytes each =
      let buffer = max s.buffer_length 8 in
      let c = write (written_length world plan size buffer) in
      let failed = world.answer s.events c in
      chunk_done-Moves before size continue (record (called c failed s) { buffer_length = buffer })
        failed later some_bytes each

  write_chunks-Moves :
      (before fuel remaining : ℕ) (s : State)
      → remaining < fuel
      → before ≤ s.bytes_written
      → (ltb before s.bytes_written || not (nat_beq remaining 0)) ≡ true
      → Moves world before (write_chunks world plan fuel remaining s)
  unfolding write_chunks
  write_chunks-Moves before zero remaining s enough later started = absurd (omega arith)
  write_chunks-Moves before (suc fuel) remaining s enough later started =
      let size = min plan.chunk_size remaining in
      let continue = write_chunks world plan fuel (remaining - size) in
      branch before (nat_beq remaining 0 || world.signalled s.events) (close_file_of world plan s)
        (write_chunk world plan size continue s)
        (λ done. close_file_of-Moves before s (ground arith))
        (λ more.
          write_chunk-Moves before size continue s later (some_size remaining more) (λ t wrote.
            write_chunks-Moves before fuel (remaining - size) t (less fuel remaining enough more)
              (omega arith) (ground arith)))
    where
      some_size :
          (remaining : ℕ)
          → (nat_beq remaining 0 || world.signalled s.events) ≡ false
          → 1 ≤ min plan.chunk_size remaining
      some_size remaining more = ground (arith, positive)

      less :
          (fuel remaining : ℕ)
          → remaining < suc fuel
          → (nat_beq remaining 0 || world.signalled s.events) ≡ false
          → remaining - min plan.chunk_size remaining < fuel
      less fuel remaining enough more = ground (arith, positive)

  opened-Moves :
      (failed : Option OsError) (s : State)
      → 1 ≤ plan.file_size
      → Moves world s.bytes_written
          (opened world plan failed (called (open_file s.file_index) failed s))
  opened-Moves none s some_bytes =
      write_chunks-Moves s.bytes_written (suc plan.file_size) plan.file_size _ (omega arith)
        (omega arith) (ground arith)
  opened-Moves (some e) s some_bytes = write_failed-Moves s.bytes_written e _

  made-Moves :
      (n : ℕ) (failed : Option OsError) (s : State)
      → 1 ≤ plan.file_size
      → Moves world s.bytes_written (made world plan failed (called (make_dir n) failed s))
  made-Moves n none s some_bytes =
      opened-Moves (world.answer (called (make_dir n) none s).events (open_file s.file_index))
        (called (make_dir n) none s) some_bytes
  made-Moves n (some enospc) s some_bytes = tt
  made-Moves n (some other_error) s some_bytes = tt

  after_check-Moves :
      (checked : Result String Resolved) (s : State)
      → 1 ≤ plan.file_size
      → Moves world s.bytes_written (after_check world plan checked s)
  after_check-Moves (err message) s some_bytes = tt
  after_check-Moves (ok resolved) s some_bytes =
      made-Moves (s.file_index % plan.fanout)
        (world.answer s.events (make_dir (s.file_index % plan.fanout))) s some_bytes

  -- Fuel for what is left to write, and for the round that ends the loop.
  abbrev HasFuel : ℕ → State → Type 0
  HasFuel fuel s =
      (1 ≤ fuel)
      × ((leb (plan.target + 2) (fuel + s.bytes_written) || world.signalled s.events) ≡ true)

  -- A round that goes on was neither asked to stop nor at the target.
  abbrev Steps : State → Flow → Type 0
  Steps s (goes_on t) =
      ((ltb s.bytes_written t.bytes_written || world.signalled t.events) ≡ true)
      × (s.bytes_written < plan.target)
      × (world.signalled s.events ≡ false)
  Steps s (ends t) = Unit
  Steps s (raises e t) = Unit
  Steps s (refused message t) = Unit
  Steps s (unfinished t) = ⊥

  Moves-Steps :
      (s : State) (f : Flow)
      → s.bytes_written < plan.target
      → world.signalled s.events ≡ false
      → Moves world s.bytes_written f
      → Steps s f
  Moves-Steps s (goes_on t) below silent h = (h, below, silent)
  Moves-Steps s (ends t) below silent h = tt
  Moves-Steps s (raises e t) below silent h = tt
  Moves-Steps s (refused message t) below silent h = tt
  Moves-Steps s (unfinished t) below silent h = h

  branch-Steps :
      (s : State) (test : Bool) (f g : Flow)
      → (test ≡ true → Steps s f)
      → (test ≡ false → Steps s g)
      → Steps s (if test then f else g)
  branch-Steps s true f g yes_case no_case = yes_case refl
  branch-Steps s false f g yes_case no_case = no_case refl

  below_target :
      (s : State) → 1 ≤ plan.target → is_reached plan s ≡ false → s.bytes_written < plan.target
  below_target s bounded below = ground (arith, below, bounded)

  round-Steps : (s : State) → 1 ≤ plan.file_size → 1 ≤ plan.target → Steps s (round world plan s)
  unfolding round fill_file
  round-Steps s some_bytes bounded =
      branch-Steps s (world.signalled s.events) _ _ (λ signalled. tt)
        λ silent.
          branch-Steps s (is_at_limit plan s) _ _ (λ at_limit. tt)
            λ room.
              branch-Steps s (is_reached plan s) _ _ (λ reached. tt)
                λ below.
                  Moves-Steps s _ (below_target s bounded below) silent
                    (after_check-Moves (checked_path world plan s) s some_bytes)

  stepped : (fuel : ℕ) (s t : State) → HasFuel (suc fuel) s → Steps s (goes_on t) → HasFuel fuel t
  stepped fuel s t enough (progress, below, silent) =
      (ground (arith, enough, below, silent), ground (arith, enough, progress, below, silent))

  then_loop-Finishes :
      (fuel : ℕ) (s : State) (loop : State → Flow) (f : Flow)
      → HasFuel (suc fuel) s
      → Steps s f
      → ((t : State) → HasFuel fuel t → Finishes (loop t))
      → Finishes (then_loop world plan loop f)
  then_loop-Finishes fuel s loop (goes_on t) enough h each = each t (stepped fuel s t enough h)
  then_loop-Finishes fuel s loop (ends t) enough h each = tt
  then_loop-Finishes fuel s loop (raises e t) enough h each = tt
  then_loop-Finishes fuel s loop (refused message t) enough h each = tt
  then_loop-Finishes fuel s loop (unfinished t) enough h each = h

  fill-Finishes :
      (fuel : ℕ) (s : State)
      → 1 ≤ plan.file_size
      → 1 ≤ plan.target
      → HasFuel fuel s
      → Finishes (fill world plan fuel s)
  unfolding fill
  fill-Finishes zero s some_bytes bounded enough = absurd (omega (arith, enough.0))
  fill-Finishes (suc fuel) s some_bytes bounded enough =
      then_loop-Finishes fuel s (fill world plan fuel) (round world plan s) enough
        (round-Steps s some_bytes bounded) (λ t. fill-Finishes fuel t some_bytes bounded)

  -- With a target, with chunks of eight bytes at least and files of one, and with the exit on a
  -- failed write that is the default, the loop comes to its end within two rounds more than the
  -- target has bytes, whatever the file system answers and whenever a signal comes that stays
  -- noted. It ends for the reason that it reports, or it raises the error of the last call that
  -- failed, which is not that the space has run out, or the guard on the path of the file refused
  -- that path.
  pub fill-Completes :
      8 ≤ plan.chunk_size
      → 1 ≤ plan.file_size
      → 1 ≤ plan.target
      → Completes world plan (fill world plan (plan.target + 2) (empty world plan))
  fill-Completes wide some_bytes bounded =
      Completes_lem world plan (fill world plan (plan.target + 2) (empty world plan))
        (fill-Ensures world plan wide (plan.target + 2) (empty world plan)
          (empty-IsCounted world plan wide) refl)
        (fill-Finishes (plan.target + 2) (empty world plan) some_bytes bounded
          (omega arith, ground arith))
