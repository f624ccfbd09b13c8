-- ===== src/Azure/Lustre/Duration.antt =====
-- src/vmss_metrics_exporter/azure_managed_lustre.py: `parse_iso_duration`, in minutes.
--
-- `decimal` gives the value of a character that `\d` matches, which `int` reads likewise. The
-- pattern is anchored, and a text that was stripped does not end in a line feed, so that what it
-- matches is read from left to right.
use mathlib.Core.List.{append_assoc}
use azure_lustre_vmss_metric.Prelude.{
  ℕ, ◌+◌, ◌*◌, ◌≤◌, ◌<◌, String, ◌≡◌, refl, Bool, ◌||◌, Option, none, some, List, [], ◌∷◌, ◌++◌,
  map, length, if◌then◌else◌, nat_beq, leb, ltb, arith, All, ap, ◌∙◌,
}
use azure_lustre_vmss_metric.Prelude.Text.{strip, codes}
use azure_lustre_vmss_metric.Prelude.Result.{Result, ok, err, ◌>>=◌}

pub data DurationError : Type 0 where
  no_match too_many_digits not_positive too_long : DurationError

-- A letter, in either case
abbrev pub is_letter : ℕ → ℕ → Bool
is_letter upper c = nat_beq c upper || nat_beq c (upper + 32)

-- `int(digits)`, for the values of the digits
abbrev pub number_from : ℕ → List ℕ → ℕ
number_from n [] = n
number_from n (d ∷ ds) = number_from (n * 10 + d) ds

unfoldable pub to_int : List ℕ → Result DurationError ℕ
to_int ds = if ltb 4300 (length ds) then err too_many_digits else ok (number_from 0 ds)

-- `timedelta` holds fewer than 1000000000 days.
unfoldable pub total : ℕ → ℕ → Result DurationError ℕ
total hours minutes =
    let duration = hours * 60 + minutes in
    if leb 1440000000000 duration
    then err too_long
    else if nat_beq duration 0
    then err not_positive
    else ok duration

module _ (decimal : ℕ → Option ℕ) where
  -- the digits at the front, and what follows them
  abbrev pub onto : Option ℕ → ℕ → List ℕ → List ℕ × List ℕ → List ℕ × List ℕ
  onto none c cs later = ([], c ∷ cs)
  onto (some d) c cs (ds, rest) = (d ∷ ds, rest)

  unfoldable pub span : List ℕ → List ℕ × List ℕ
  span [] = ([], [])
  span (c ∷ cs) = onto (decimal c) c cs (span cs)

  -- after the hours, to the end
  abbrev pub minutes_of : List ℕ × List ℕ → Option (List ℕ)
  minutes_of ([], []) = some []
  minutes_of ([], c ∷ rest) = none
  minutes_of (d ∷ ds, []) = none
  minutes_of (d ∷ ds, c ∷ c' ∷ rest) = none
  minutes_of (d ∷ ds, c ∷ []) = if is_letter b'M' c then some (d ∷ ds) else none

  abbrev pub with_hours : List ℕ → Option (List ℕ) → Option (List ℕ × List ℕ)
  with_hours hours none = none
  with_hours hours (some minutes) = some (hours, minutes)

  -- after `PT`: the digits of the hours and of the minutes, of which there may be none
  abbrev pub fields_of : List ℕ × List ℕ → Option (List ℕ × List ℕ)
  fields_of ([], rest) = with_hours [] (minutes_of ([], rest))
  fields_of (d ∷ ds, []) = none
  fields_of (d ∷ ds, c ∷ rest) =
      if is_letter b'H' c
      then with_hours (d ∷ ds) (minutes_of (span rest))
      else with_hours [] (minutes_of (d ∷ ds, c ∷ rest))

  abbrev pub after_p : List ℕ → Option (List ℕ × List ℕ)
  after_p [] = none
  after_p (c ∷ rest) = if is_letter b'T' c then fields_of (span rest) else none

  unfoldable pub match_duration : List ℕ → Option (List ℕ × List ℕ)
  unfolding span
  match_duration [] = none
  match_duration (c ∷ rest) = if is_letter b'P' c then after_p rest else none

  abbrev pub duration_of : Option (List ℕ × List ℕ) → Result DurationError ℕ
  unfolding to_int total
  duration_of none = err no_match
  duration_of (some (hs, ms)) = to_int hs >>= λ hours. to_int ms >>= λ minutes. total hours minutes

  unfoldable pub parse_iso_duration : String → Result DurationError ℕ
  unfolding match_duration strip to_int total
  parse_iso_duration value = duration_of (match_duration (codes (strip value)))

-- What Python says of the digits and the letters of ASCII.
pub record IsDecimal (decimal : ℕ → Option ℕ) : Type 0 where
  pub digit : (d : ℕ) → d < 10 → decimal (d + b'0') ≡ some d
  pub hours_letter : decimal b'H' ≡ none
  pub minutes_letter : decimal b'M' ≡ none

abbrev pub IsDigit : ℕ → Type 0
IsDigit d = d < 10

-- A number and its unit, or nothing
abbrev pub part : ℕ → List ℕ → List ℕ
part letter [] = []
part letter (d ∷ ds) = map (λ n. n + b'0') (d ∷ ds) ++ letter ∷ []

total-ok :
    (hours minutes : ℕ)
    → 1 ≤ hours * 60 + minutes
    → hours * 60 + minutes < 1440000000000
    → total hours minutes ≡ ok (hours * 60 + minutes)
unfolding total
total-ok hours minutes positive short = ground (arith, positive, short)

to_int-ok : (ds : List ℕ) → length ds ≤ 4300 → to_int ds ≡ ok (number_from 0 ds)
unfolding to_int
to_int-ok ds few = ground (arith, few)

module _ (decimal : ℕ → Option ℕ) (ascii : IsDecimal decimal) where
  span-digits :
      (ds : List ℕ) (c : ℕ) (rest : List ℕ)
      → All IsDigit ds
      → decimal c ≡ none
      → span decimal (map (λ n. n + b'0') ds ++ c ∷ rest) ≡ (ds, c ∷ rest)
  unfolding span
  span-digits [] c rest h stops = rw stops
  span-digits (d ∷ ds) c rest h stops = rw (ascii.digit d h.0, span-digits ds c rest h.1 stops)

  minutes-part :
      (ms : List ℕ) → All IsDigit ms → minutes_of decimal (span decimal (part b'M' ms)) ≡ some ms
  unfolding span
  minutes-part [] h = refl
  minutes-part (m ∷ ms) h = rw (span-digits (m ∷ ms) b'M' [] h ascii.minutes_letter)

  fields-part :
      (hs ms : List ℕ)
      → All IsDigit hs
      → All IsDigit ms
      → fields_of decimal (span decimal (part b'H' hs ++ part b'M' ms)) ≡ some (hs, ms)
  unfolding span
  fields-part [] [] h h' = refl
  fields-part [] (m ∷ ms) h h' = rw (span-digits (m ∷ ms) b'M' [] h' ascii.minutes_letter)
  fields-part (d ∷ hs) ms h h' =
      let digits = map (λ n. n + b'0') (d ∷ hs) in
      let regrouped : (digits ++ b'H' ∷ []) ++ part b'M' ms ≡ digits ++ b'H' ∷ part b'M' ms =
        append_assoc digits (b'H' ∷ []) (part b'M' ms) in
      ap (λ l. fields_of decimal (span decimal l)) regrouped
      ∙ ap (fields_of decimal) (span-digits (d ∷ hs) b'H' (part b'M' ms) h ascii.hours_letter)
      ∙ ap (with_hours decimal (d ∷ hs)) (minutes-part ms h')

  -- A text that reads, stripped, `PT` with hours, minutes or both, each of at most 4300 digits of
  -- ASCII, is parsed to the minutes that it stands for, if these are at least one and fewer than
  -- those of 1000000000 days.
  pub parse_iso_duration-part :
      (text : String) (hs ms : List ℕ)
      → codes (strip text) ≡ b'P' ∷ b'T' ∷ (part b'H' hs ++ part b'M' ms)
      → All IsDigit hs
      → All IsDigit ms
      → length hs ≤ 4300
      → length ms ≤ 4300
      → 1 ≤ number_from 0 hs * 60 + number_from 0 ms
      → number_from 0 hs * 60 + number_from 0 ms < 1440000000000
      → parse_iso_duration decimal text ≡ ok (number_from 0 hs * 60 + number_from 0 ms)
  unfolding parse_iso_duration match_duration
  parse_iso_duration-part text hs ms reads h h' few few' positive short =
      ap (λ l. duration_of decimal (match_duration decimal l)) reads
      ∙ ap (duration_of decimal) (fields-part hs ms h h')
      ∙ rw (to_int-ok hs few, to_int-ok ms few')
          (total-ok (number_from 0 hs) (number_from 0 ms) positive short)
