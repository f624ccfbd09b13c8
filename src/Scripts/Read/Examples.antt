-- ===== src/Scripts/Read/Examples.antt =====
-- Reads of a file of five bytes.
use azure_lustre_vmss_metric.Prelude.{ℕ, ◌≡◌, refl, true, none, List, [], ◌∷◌, take, drop, arith}
use azure_lustre_vmss_metric.Prelude.Result.{ok}
use azure_lustre_vmss_metric.Scripts.Shards.{FileEntry}
use azure_lustre_vmss_metric.Scripts.Read.{FileReadResult, Files, returns, read_file_pattern}
use azure_lustre_vmss_metric.Scripts.Read.Whole.{Regular, read_file_pattern-bytes}

abbrev contents : List ℕ
contents = 1 ∷ 2 ∷ 3 ∷ 4 ∷ 5 ∷ []

-- A handle is what is left to be read.
abbrev files : Files (List ℕ)
files = record {
  open_rb = λ path. ok contents;
  read = λ n h. ok (take n h, drop n h);
  seek = λ n h. ok (drop n contents);
}

file : Regular files "a.bin" contents (λ h. h)
file = record {
  opens = (contents, refl, refl);
  reads = λ n h. (drop n h, refl, refl);
  seeks = λ n h. (drop n contents, refl, refl);
}

abbrev entry : FileEntry
entry = record { path = "a.bin"; size = 5; bucket = "small" }

-- The head and the tail overlap.
head_tail_result :
    read_file_pattern {F = ℕ} files
      (λ bytes. "digest")
      0
      6
      entry
      3
      true
      "head-tail"
      0
      (λ last k. last)
    ≡ returns (record {
      path = "a.bin";
      size = 5;
      bucket = "small";
      elapsed_seconds = 0;
      chunk_count = 2;
      bytes_read = 6;
      checksum = none;
      pattern = "head-tail";
      error = none;
    })
unfolding read_file_pattern
head_tail_result = refl

read_file_pattern-bytes_example :
    (r : FileReadResult ℕ) × (read_file_pattern files
        (λ bytes. "digest")
        0
        6
        entry
        3
        true
        "random-offset"
        4
        (λ last k. last)
      ≡ returns r)
    × (r.error ≡ none)
    × (r.pattern ≡ "random-offset")
    × (r.bytes_read ≡ 12)
    × (r.checksum ≡ none)
read_file_pattern-bytes_example =
    read_file_pattern-bytes files (λ bytes. "digest") 0 entry file 6 3 true "random-offset" 4
      (λ last k. last) refl refl (omega arith) (omega arith) (λ last k. omega arith)
