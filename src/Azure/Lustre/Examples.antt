-- ===== src/Azure/Lustre/Examples.antt =====
-- Batches of names, and a response with a metric.
use azure_lustre_vmss_metric.Prelude.{
  ℕ, Option, none, ◌-◌, leb, ◌&&◌, if◌then◌else◌, ◌++◌, refl, ◌≤◌, String, ◌≡◌, false, some, List,
  [], ◌∷◌, All, string_eq, ltb, length, concat, arith,
}
use azure_lustre_vmss_metric.Prelude.Dict.{lookup}
use azure_lustre_vmss_metric.Prelude.Fixtures.{floats}
use azure_lustre_vmss_metric.Prelude.Result.{ok}
use azure_lustre_vmss_metric.Prelude.Text.{strip, lstrip, rstrip, codes}
use azure_lustre_vmss_metric.Azure.Lustre.Duration.{
  IsDecimal, part, parse_iso_duration, parse_iso_duration-part,
}
use azure_lustre_vmss_metric.Azure.Value.{
  Value, text, number, moment, sequence, nil, cons, mapping, end, entry,
}
use azure_lustre_vmss_metric.Azure.Lustre.Batches.{chunk_metric_names, chunk_metric_names_lem}
use azure_lustre_vmss_metric.Azure.Lustre.Tables.{empty_table}
use azure_lustre_vmss_metric.Azure.Lustre.Tables.Notes.{
  Note, IsOrdered, note_all, note_all-timestamps,
}

chunk_metric_names_lem_example :
    (batches : List (List String)) × (chunk_metric_names ("a" ∷ "b" ∷ "c" ∷ []) 2 ≡ ok batches)
    × (concat batches ≡ "a" ∷ "b" ∷ "c" ∷ [])
    × All (λ batch. (1 ≤ length batch) × (length batch ≤ 2)) batches
chunk_metric_names_lem_example = chunk_metric_names_lem ("a" ∷ "b" ∷ "c" ∷ []) 2 (omega arith)

abbrev response : Value ℕ
response = mapping (
    entry "metrics"
      (sequence (
        cons
          (mapping (
            entry "name" (text "OSTBytesUsed") (
              entry "timeseries"
                (sequence (
                  cons
                    (mapping (
                      entry "data"
                        (sequence (
                          cons
                            (mapping
                              (entry "average" (number 7) (entry "timestamp" (moment 160) end)))
                            nil))
                        end))
                    nil))
                end)))
          nil))
      end)

order : IsOrdered floats
order = record {
  asym = λ a b h. ground (arith, h);
  irrefl = λ a. ground arith;
  trans = λ a b c h k. ground (arith, h, k);
}

abbrev notes : List (Note String ℕ)
notes =
    ("0", "OSTBytesUsed", (1, some 90))
    ∷ ("0", "OSTBytesUsed", (5, some 160))
    ∷ ("0", "OSTBytesTotal", (9, some 100))
    ∷ []

note_all-timestamps_example :
    (newest_time : ℕ) × (lookup "0" (note_all floats notes empty_table).timestamps
      ≡ some newest_time)
    × (ltb newest_time 160 ≡ false)
note_all-timestamps_example =
    note_all-timestamps floats order (("0", "OSTBytesUsed", (1, some 90)) ∷ [])
      (("0", "OSTBytesTotal", (9, some 100)) ∷ []) "0" "OSTBytesUsed" 5 160 empty_table

-- The digits of ASCII
abbrev decimal : ℕ → Option ℕ
decimal c = if leb b'0' c && leb c b'9' then some (c - b'0') else none

ascii : IsDecimal decimal
ascii = record { digit = λ d h. ground (arith, h); hours_letter = refl; minutes_letter = refl }

abbrev interval : String
interval = " PT1H30M "

interval_reads :
    codes (strip interval) ≡ b'P' ∷ b'T' ∷ (part b'H' (1 ∷ []) ++ part b'M' (3 ∷ 0 ∷ []))
unfolding strip lstrip rstrip
interval_reads = refl

parse_iso_duration-part_example : parse_iso_duration decimal interval ≡ ok 90
parse_iso_duration-part_example =
    parse_iso_duration-part decimal ascii interval (1 ∷ []) (3 ∷ 0 ∷ []) interval_reads
      (omega arith, tt) (omega arith, (omega arith, tt)) (omega arith) (omega arith) (omega arith)
      (omega arith)
