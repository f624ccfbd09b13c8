-- ===== src/Scripts/Read.antt =====
-- scripts/av_lustre_workload.py: how a file is read, by one of the access patterns.
--
-- `Files` is an open file of the operating system; the text of its exceptions is that which the
-- result holds. The bytes that are hashed are kept, for `hexdigest`. The loop of `full` takes fuel.
pub mod Whole
mod Examples
use azure_lustre_vmss_metric.Prelude.{
  ℕ, zero, suc, ◌+◌, ◌-◌, leb, String, Bool, true, false, Option, none, some, List, [], ◌∷◌, ◌++◌,
  length, ◌==◌, ◌||◌, not, if◌then◌else◌, string_eq,
}
use azure_lustre_vmss_metric.Prelude.Result.{Result, ok, err}
use azure_lustre_vmss_metric.Scripts.Shards.{FileEntry}

pub record FileReadResult (F : Type 0) : Type 0 where
  pub path : String
  pub size : ℕ
  pub bucket : String
  pub elapsed_seconds : F
  pub chunk_count : ℕ
  pub bytes_read : ℕ
  pub checksum : Option String
  pub pattern : String
  pub error : Option String

pub record Files (H : Type 0) : Type 0 where
  pub open_rb : String → Result String H
  pub read : ℕ → H → Result String (List ℕ × H)
  pub seek : ℕ → H → Result String H

-- What the loops count.
pub record Progress : Type 0 where
  pub chunks : ℕ
  pub bytes_read : ℕ
  pub hashed : List ℕ

abbrev pub no_progress : Progress
no_progress = record { chunks = 0; bytes_read = 0; hashed = [] }

abbrev pub counted : List ℕ → Progress → Progress
counted chunk p = record {
  chunks = p.chunks + 1;
  bytes_read = p.bytes_read + length chunk;
  hashed = p.hashed ++ chunk;
}

-- How the block under `try` ends; `unfinished` is the end of the fuel.
pub data Reading : Type 0 where
  done : Progress → Reading
  failed : String → Progress → Reading
  unfinished : Reading

-- How a function ends.
pub data Returned (F : Type 0) : Type 0 where
  returns : FileReadResult F → Returned F
  raises : String → Returned F
  out_of_fuel : Returned F

abbrev pub read_patterns : List String
read_patterns = "full" ∷ "random-offset" ∷ "head-tail" ∷ []

-- `in`
abbrev pub is_among : String → List String → Bool
is_among name [] = false
is_among name (other ∷ others) = other == name || is_among name others

module _ {H : Type 0} (files : Files H) where
  -- after a `read`: nothing was left, or a chunk is counted
  abbrev pub after_read :
      Result String (List ℕ × H) → Progress → Reading → (H → Progress → Reading) → Reading
  after_read (err message) p at_end next = failed message p
  after_read (ok ([], h)) p at_end next = at_end
  after_read (ok (byte ∷ bytes, h)) p at_end next = next h (counted (byte ∷ bytes) p)

  abbrev pub after_seek : Result String H → Progress → (H → Reading) → Reading
  after_seek (err message) p next = failed message p
  after_seek (ok h) p next = next h

  -- `while True`
  unfoldable pub read_chunks : ℕ → ℕ → H → Progress → Reading
  read_chunks zero chunk_size h p = unfinished
  read_chunks (suc fuel) chunk_size h p =
      let rest = read_chunks fuel chunk_size in after_read (files.read chunk_size h) p (done p) rest

  -- `for _ in range(count)`; `randint` gives the offsets, by the number of those before
  unfoldable pub read_offsets : ℕ → (ℕ → ℕ) → ℕ → H → Progress → Reading
  read_offsets zero randint chunk_size h p = done p
  read_offsets (suc count) randint chunk_size h p =
      let rest = read_offsets count (λ n. randint (suc n)) chunk_size in
      after_seek (files.seek (randint 0) h) p
        λ h. after_read (files.read chunk_size h) p (done p) rest

  abbrev pub at_tail : ℕ → ℕ → H → Progress → Reading
  at_tail tail_offset chunk_size h p =
      after_seek (files.seek tail_offset h) p
        λ h. after_read (files.read chunk_size h) p (done p) λ h p. done p

  -- An empty head is not counted, and the tail is read all the same.
  abbrev pub after_head : Result String (List ℕ × H) → ℕ → ℕ → Progress → Reading
  after_head (err message) tail_offset chunk_size p = failed message p
  after_head (ok ([], h)) tail_offset chunk_size p = at_tail tail_offset chunk_size h p
  after_head (ok (byte ∷ bytes, h)) tail_offset chunk_size p =
      at_tail tail_offset chunk_size h (counted (byte ∷ bytes) p)

  unfoldable pub read_head_tail : ℕ → ℕ → H → Progress → Reading
  read_head_tail tail_offset chunk_size h p =
      after_head (files.read chunk_size h) tail_offset chunk_size p

  abbrev pub opened : Result String H → (H → Reading) → Reading
  opened (err message) block = failed message no_progress
  opened (ok h) block = block h

  -- the block under `try`, for a file of more than a chunk; `max(1, …)` of the number of reads
  abbrev pub read_parts : FileEntry → ℕ → String → ℕ → (ℕ → ℕ → ℕ) → H → Reading
  unfolding read_offsets read_head_tail
  read_parts entry chunk_size pattern random_offset_reads randint h =
      let last = entry.size - chunk_size in
      if pattern == "random-offset"
      then read_offsets (if leb 1 random_offset_reads then random_offset_reads else 1)
          (randint last) chunk_size h no_progress
      else read_head_tail last chunk_size h no_progress

-- `result.pattern = pattern`
abbrev pub with_pattern : {F : Type 0} → String → Returned F → Returned F
with_pattern pattern (returns r) = returns (record r { pattern = pattern })
with_pattern pattern (raises message) = raises message
with_pattern pattern out_of_fuel = out_of_fuel

module _ {F : Type 0} (hexdigest : List ℕ → String) (elapsed : F) where
  abbrev pub completed : FileEntry → String → Bool → Progress → FileReadResult F
  completed entry pattern verify_checksum p = record {
    path = entry.path;
    size = entry.size;
    bucket = entry.bucket;
    elapsed_seconds = elapsed;
    chunk_count = p.chunks;
    bytes_read = p.bytes_read;
    checksum = if verify_checksum then some (hexdigest p.hashed) else none;
    pattern = pattern;
    error = none;
  }

  -- The result that is made of what was read.
  abbrev pub result_of : FileEntry → String → Bool → Reading → Returned F
  result_of entry pattern verify_checksum unfinished = out_of_fuel
  result_of entry pattern verify_checksum (failed message p) = returns (record {
    path = entry.path;
    size = entry.size;
    bucket = entry.bucket;
    elapsed_seconds = elapsed;
    chunk_count = p.chunks;
    bytes_read = p.bytes_read;
    checksum = none;
    pattern = pattern;
    error = some message;
  })
  result_of entry pattern verify_checksum (done p) =
      returns (completed entry pattern verify_checksum p)

module _ {H F : Type 0} (files : Files H) (hexdigest : List ℕ → String) (elapsed : F) where
  unfoldable pub read_file_chunked : ℕ → FileEntry → ℕ → Bool → Returned F
  unfolding read_chunks
  read_file_chunked fuel entry chunk_size verify_checksum =
      result_of hexdigest elapsed entry "full" verify_checksum (
        opened files (files.open_rb entry.path)
          λ h. read_chunks files fuel chunk_size h no_progress)

  unfoldable pub read_file_pattern :
      ℕ → FileEntry → ℕ → Bool → String → ℕ → (ℕ → ℕ → ℕ) → Returned F
  unfolding read_file_chunked read_offsets read_head_tail
  read_file_pattern fuel entry chunk_size verify_checksum pattern random_offset_reads randint =
      if not (is_among pattern read_patterns)
      then raises "unknown read pattern"
      else if pattern == "full"
      then read_file_chunked fuel entry chunk_size verify_checksum
      else if leb entry.size chunk_size
      then with_pattern pattern (read_file_chunked fuel entry chunk_size false)
      else result_of hexdigest elapsed entry pattern false (
          opened files (files.open_rb entry.path)
            (read_parts files entry chunk_size pattern random_offset_reads randint))
