-- ===== src/Scripts/Read/Whole.antt =====
-- scripts/av_lustre_workload.py: what is read of a file that does not change.
use mathlib.Core.List.{append_assoc, append-nil}
use azure_lustre_vmss_metric.Prelude.{
  ℕ, zero, suc, ◌+◌, ◌-◌, ◌*◌, ◌≤◌, ◌<◌, leb, String, ◌≡◌, refl, sym, ap, ◌∙◌, Bool, true, false,
  Option, none, some, List, [], ◌∷◌, ◌++◌, length, take, drop, take-drop, length-drop,
  length-append, ◌==◌, ◌||◌, ◌&&◌, if◌then◌else◌, string_eq, arith, Bool-cases, inl, inr,
}
use azure_lustre_vmss_metric.Prelude.Result.{ok}
use azure_lustre_vmss_metric.Scripts.Shards.{FileEntry}
use azure_lustre_vmss_metric.Scripts.Read.{
  FileReadResult, Files, Progress, no_progress, counted, Reading, done, returns, read_patterns,
  is_among, after_read, after_seek, read_chunks, read_offsets, at_tail, after_head, read_head_tail,
  completed, read_file_chunked, with_pattern, read_parts, read_file_pattern,
}

-- A regular file: `rest` is what lies after the position of a handle.
pub record Regular {H : Type 0} (files : Files H) (path : String) (contents : List ℕ)
    (rest : H → List ℕ) : Type 0 where
  pub opens : (h : H) × (files.open_rb path ≡ ok h) × (rest h ≡ contents)
  pub reads :
      (n : ℕ) (h : H)
      → (h' : H) × (files.read n h ≡ ok (take n (rest h), h')) × (rest h' ≡ drop n (rest h))
  pub seeks : (n : ℕ) (h : H) → (h' : H) × (files.seek n h ≡ ok h') × (rest h' ≡ drop n contents)

length-take-within : (n : ℕ) (xs : List ℕ) → n ≤ length xs → length (take n xs) ≡ n
length-take-within zero xs h = refl
length-take-within (suc n) [] h = absurd (omega (arith, h))
length-take-within (suc n) (x ∷ xs) h = omega (arith, length-take-within n xs (omega (arith, h)))

-- A chunk that is not empty is counted.
after_read-counted :
    {H : Type 0} (files : Files H) (chunk : List ℕ) (h : H) (p : Progress) (at_end : Reading)
    (next : H → Progress → Reading)
    → 1 ≤ length chunk
    → after_read files (ok (chunk, h)) p at_end next ≡ next h (counted chunk p)
after_read-counted files [] h p at_end next some_bytes = absurd (omega (arith, some_bytes))
after_read-counted files (byte ∷ bytes) h p at_end next some_bytes = refl

after_head-counted :
    {H : Type 0} (files : Files H) (chunk : List ℕ) (h : H) (tail_offset n : ℕ) (p : Progress)
    → 1 ≤ length chunk
    → after_head files (ok (chunk, h)) tail_offset n p
      ≡ at_tail files tail_offset n h (counted chunk p)
after_head-counted files [] h tail_offset n p some_bytes = absurd (omega (arith, some_bytes))
after_head-counted files (byte ∷ bytes) h tail_offset n p some_bytes = refl

module _ {H : Type 0} {files : Files H} {path : String} {contents : List ℕ} {rest : H → List ℕ}
    (file : Regular files path contents rest) where
  read_chunks-done :
      (fuel c : ℕ) (left : List ℕ) (h : H) (p : Progress)
      → rest h ≡ left
      → length left < fuel
      → (q : Progress) × (read_chunks files fuel (suc c) h p ≡ done q)
        × (q.bytes_read ≡ p.bytes_read + length left)
        × (q.hashed ≡ p.hashed ++ left)
  unfolding read_chunks
  read_chunks-done zero c left h p e few = absurd (omega (arith, few))
  read_chunks-done (suc fuel) c [] h p e few =
      let (h', is, after) = file.reads (suc c) h in
      let read : files.read (suc c) h ≡ ok ([], h') = is ∙ ap (λ l. ok (take (suc c) l, h')) e in
      (p, rw read refl, omega arith, sym (append-nil p.hashed))
  read_chunks-done (suc fuel) c (byte ∷ bytes) h p e few =
      let (h', is, after) = file.reads (suc c) h in
      let chunk = byte ∷ take c bytes in
      let read : files.read (suc c) h ≡ ok (chunk, h') = is ∙ ap (λ l. ok (take (suc c) l, h')) e in
      let (q, end, counts, hashes) =
        read_chunks-done fuel c (drop c bytes) h' (counted chunk p) (after ∙ ap (drop (suc c)) e)
          (omega (arith, few, length-drop c bytes)) in
      (
        q,
        rw read end,
        omega (
          arith,
          counts,
          length-append (take c bytes) (drop c bytes),
          ap length (take-drop c bytes),
        ),
        hashes
            ∙ append_assoc p.hashed chunk (drop c bytes)
            ∙ ap (λ l. p.hashed ++ byte ∷ l) (take-drop c bytes),
      )

  -- A chunk that the file holds whole
  read_chunk :
      (n : ℕ) (h : H) (p : Progress) (at_end : Reading) (next : H → Progress → Reading)
      → 1 ≤ n
      → n ≤ length (rest h)
      → (h' : H) × (after_read files (files.read n h) p at_end next
          ≡ next h' (counted (take n (rest h)) p))
  read_chunk n h p at_end next positive held =
      let (h', is, after) = file.reads n h in
      (
        h',
        rw is (
            after_read-counted files (take n (rest h)) h' p at_end next
              (omega (arith, positive, length-take-within n (rest h) held))),
      )

  seek_chunk :
      (n offset : ℕ) (h : H) (p : Progress) (at_end : Reading) (next : H → Progress → Reading)
      → 1 ≤ n
      → offset + n ≤ length contents
      → (h' : H) × (q : Progress) × (q.chunks ≡ p.chunks + 1)
        × (q.bytes_read ≡ p.bytes_read + n)
        × (after_seek files
              (files.seek offset h)
              p
              (λ h. after_read files (files.read n h) p at_end next)
            ≡ next h' q)
  seek_chunk n offset h p at_end next positive held =
      let (h', is, after) = file.seeks offset h in
      let left : n ≤ length (rest h') =
        omega (arith, held, ap length after, length-drop offset contents) in
      let (h″, read) = read_chunk n h' p at_end next positive left in
      (
        h″,
        counted (take n (rest h')) p,
        refl,
        omega (arith, length-take-within n (rest h') left),
        rw is read,
      )

  read_offsets-done :
      (count n : ℕ) (randint : ℕ → ℕ) (h : H) (p : Progress)
      → 1 ≤ n
      → ((k : ℕ) → randint k + n ≤ length contents)
      → (q : Progress) × (read_offsets files count randint n h p ≡ done q)
        × (q.chunks ≡ p.chunks + count)
        × (q.bytes_read ≡ p.bytes_read + count * n)
  unfolding read_offsets
  read_offsets-done zero n randint h p positive within = (p, refl, omega arith, omega arith)
  read_offsets-done (suc count) n randint h p positive within =
      let (h', q, chunks, bytes, read) =
        seek_chunk n (randint 0) h p (done p) (read_offsets files count (λ k. randint (suc k)) n)
          positive (within 0) in
      let (r, end, chunks', bytes') =
        read_offsets-done count n (λ k. randint (suc k)) h' q positive (λ k. within (suc k)) in
      (r, read ∙ end, omega (arith, chunks, chunks'), omega (arith, bytes, bytes'))

  read_head_tail-done :
      (n last : ℕ) (h : H)
      → 1 ≤ n
      → rest h ≡ contents
      → last + n ≤ length contents
      → (q : Progress) × (read_head_tail files last n h no_progress ≡ done q)
        × (q.chunks ≡ 2)
        × (q.bytes_read ≡ 2 * n)
  unfolding read_head_tail
  read_head_tail-done n last h positive at_start within =
      let (h', is, after) = file.reads n h in
      let left : n ≤ length (rest h) = omega (arith, within, ap length at_start) in
      let taken = length-take-within n (rest h) left in
      let head = counted (take n (rest h)) no_progress in
      let (h″, q, chunks, bytes, read) =
        seek_chunk n last h' head (done head) (λ h p. done p) positive within in
      (
        q,
        rw is (
            after_head-counted files (take n (rest h)) h' last n no_progress
              (omega (arith, positive, taken))
            ∙ read),
        chunks,
        omega (arith, bytes, taken),
      )

  parts-done :
      (n size count : ℕ) (pattern : String) (randint : ℕ → ℕ → ℕ) (h : H)
      → 1 ≤ n
      → n ≤ size
      → length contents ≡ size
      → rest h ≡ contents
      → ((last k : ℕ) → randint last k ≤ last)
      → (entry : FileEntry) → entry.size ≡ size
      → (q : Progress) × (read_parts files entry n pattern count randint h ≡ done q)
        × (q.bytes_read ≡ (
            if pattern == "random-offset" then (if leb 1 count then count else 1) * n else 2 * n))
  unfolding read_parts read_offsets read_head_tail
  parts-done n size count pattern randint h positive held is_size at_start drawn entry sized =
      elim (Bool-cases (pattern == "random-offset")) [
        | inl is ↦
            let (q, end, chunks, bytes) =
              read_offsets-done (if leb 1 count then count else 1) n (randint (entry.size - n)) h
                no_progress positive
                (λ k. omega (arith, drawn (entry.size - n) k, held, is_size, sized)) in
            rw is (q, end, omega (arith, bytes))
        | inr isnt ↦
            let (q, end, chunks, bytes) =
              read_head_tail-done n (entry.size - n) h positive at_start
                (omega (arith, held, is_size, sized)) in
            rw isnt (q, end, bytes)
      ]

-- The bytes that are read of a file of `size` bytes.
abbrev pub pattern_bytes : String → ℕ → ℕ → ℕ → ℕ
pattern_bytes pattern size n count =
    if pattern == "full" || leb size n
    then size
    else if pattern == "random-offset"
    then (if leb 1 count then count else 1) * n
    else 2 * n

abbrev pub pattern_checksum : (List ℕ → String) → String → Bool → List ℕ → Option String
pattern_checksum hexdigest pattern verify_checksum contents =
    if pattern == "full" && verify_checksum then some (hexdigest contents) else none

module _ {H F : Type 0} (files : Files H) (hexdigest : List ℕ → String) (elapsed : F)
    {contents : List ℕ} {rest : H → List ℕ} (entry : FileEntry)
    (file : Regular files entry.path contents rest) where
  chunked-done :
      (fuel c : ℕ) (verify_checksum : Bool)
      → length contents < fuel
      → (r : FileReadResult F) × (read_file_chunked files hexdigest elapsed fuel entry
            (suc c)
            verify_checksum
          ≡ returns r)
        × (r.error ≡ none)
        × (r.pattern ≡ "full")
        × (r.bytes_read ≡ length contents)
        × (r.checksum ≡ (if verify_checksum then some (hexdigest contents) else none))
  unfolding read_file_chunked
  chunked-done fuel c verify_checksum few =
      let (h, is, at_start) = file.opens in
      let (q, end, bytes, hashes) =
        read_chunks-done file fuel c contents h no_progress at_start few in
      (
        completed hexdigest elapsed entry "full" verify_checksum q,
        rw is (rw end refl),
        refl,
        refl,
        omega (arith, bytes),
        ap (λ l. if verify_checksum then some (hexdigest l) else none) hashes,
      )

  -- A regular file that has the size that the entry says is read to the end of its pattern without an
  -- error, given chunks of one byte at least and more fuel than bytes: `full`, and any pattern where
  -- the file fits in a chunk, reads it whole; `random-offset` reads as many chunks as asked for, one
  -- at least, and `head-tail` two, each whole. A checksum is that of all its bytes, and made where it
  -- is asked for and the pattern is `full`.
  pub read_file_pattern-bytes :
      (fuel n : ℕ) (verify_checksum : Bool) (pattern : String) (count : ℕ) (randint : ℕ → ℕ → ℕ)
      → is_among pattern read_patterns ≡ true
      → length contents ≡ entry.size
      → 1 ≤ n
      → entry.size < fuel
      → ((last k : ℕ) → randint last k ≤ last)
      → (r : FileReadResult F) × (read_file_pattern files hexdigest elapsed fuel entry n
            verify_checksum pattern count randint
          ≡ returns r)
        × (r.error ≡ none)
        × (r.pattern ≡ pattern)
        × (r.bytes_read ≡ pattern_bytes pattern entry.size n count)
        × (r.checksum ≡ pattern_checksum hexdigest pattern verify_checksum contents)
  unfolding read_file_pattern read_parts read_offsets read_head_tail
  read_file_pattern-bytes fuel zero verify_checksum pattern count randint known is_size positive few
        drawn =
      absurd (omega (arith, positive))
  read_file_pattern-bytes fuel (suc c) verify_checksum pattern count randint known is_size positive
        few drawn =
      elim (Bool-cases (pattern == "full")) [
        | inl full ↦
            let (r, end, fine, named, bytes, checked) =
              chunked-done fuel c verify_checksum (omega (arith, is_size, few)) in
            rw (known, full)
              (
                r,
                end,
                fine,
                named ∙ sym ((string_eq.equals_iff pattern "full").0 full),
                bytes ∙ is_size,
                checked,
              )
        | inr partial ↦ elim (Bool-cases (leb entry.size (suc c))) [
          | inl short ↦
              let (r, end, fine, named, bytes, checked) =
                chunked-done fuel c false (omega (arith, is_size, few)) in
              rw (known, partial, short)
                (
                  record r { pattern = pattern },
                  ap (with_pattern pattern) end,
                  fine,
                  refl,
                  bytes ∙ is_size,
                  checked,
                )
          | inr long ↦
              let (h, is, at_start) = file.opens in
              let (q, end, bytes) =
                parts-done file (suc c) entry.size count pattern randint h positive
                  (ground (arith, long)) is_size at_start drawn entry refl in
              rw (known, partial, long)
                (
                  completed hexdigest elapsed entry pattern false q,
                  rw is (rw end refl),
                  refl,
                  refl,
                  bytes,
                  refl,
                )
        ]
      ]
