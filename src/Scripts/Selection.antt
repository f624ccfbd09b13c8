-- ===== src/Scripts/Selection.antt =====
-- scripts/av_lustre_workload.py: `select_files` under its limits. `shuffle` is `Random(seed).shuffle`.
use azure_lustre_vmss_metric.Prelude.{
  ℕ, suc, ◌+◌, ◌≤◌, leb, String, ◌≡◌, Bool, true, false, Option, none, some, List, [], ◌∷◌, arith,
  length, Bool-cases, inl, inr, subst, ◌≢◌, ◌⊎◌, ap, sym, ◌∙◌, refl,
}
use azure_lustre_vmss_metric.Prelude.Number.{ℤ, pos, negsuc}
use azure_lustre_vmss_metric.Prelude.Result.{Result, ok, err, ◌>>=◌, bind-ok, ok-injective}
use azure_lustre_vmss_metric.Scripts.Shards.{FileEntry}

-- The guard on an optional limit
unfoldable pub limit : String → Option ℤ → Result String (Option ℕ)
limit message none = ok none
limit message (some (pos n)) = ok (some n)
limit message (some (negsuc n)) = err message

-- `maximum is None or n <= maximum`
unfoldable pub within : Option ℕ → ℕ → Bool
within none n = true
within (some most) n = leb n most

-- One turn of the loop: at the limit of files it ends, and a file over the limit of bytes is passed
-- over.
abbrev turn : Bool → Bool → FileEntry → List FileEntry → List FileEntry → List FileEntry
turn false fits entry kept passed = []
turn true false entry kept passed = passed
turn true true entry kept passed = entry ∷ kept

-- The loop, with the number and the bytes of what is selected already
unfoldable pub select_from : Option ℕ → Option ℕ → ℕ → ℕ → List FileEntry → List FileEntry
unfolding within
select_from files bytes count total [] = []
select_from files bytes count total (entry ∷ entries) =
    let kept = select_from files bytes (suc count) (total + entry.size) entries in
    let passed = select_from files bytes count total entries in
    turn (within files (suc count)) (within bytes (total + entry.size)) entry kept passed

module _ (shuffle : ℤ → List FileEntry → List FileEntry) where
  unfoldable pub select_files :
      List FileEntry → Option ℤ → Option ℤ → ℤ → Result String (List FileEntry)
  unfolding limit select_from
  select_files shard files_per_pod max_bytes_per_pod seed =
      limit "files_per_pod must be non-negative" files_per_pod >>= λ files.
      limit "max_bytes_per_pod must be non-negative" max_bytes_per_pod >>= λ bytes.
      ok (select_from files bytes 0 0 (shuffle seed shard))

unfoldable pub total_size : List FileEntry → ℕ
total_size [] = 0
total_size (entry ∷ entries) = entry.size + total_size entries

-- `xs` is `ys` with some items left out.
pub data Sublist {A : Type 0} : List A → List A → Type 0 where
  empty : Sublist [] []
  skipped : (y : A) {xs ys : List A} → Sublist xs ys → Sublist xs (y ∷ ys)
  taken : (x : A) {xs ys : List A} → Sublist xs ys → Sublist (x ∷ xs) (x ∷ ys)

nothing_taken : {A : Type 0} → (ys : List A) → Sublist [] ys
nothing_taken [] = empty
nothing_taken (y ∷ ys) = skipped y (nothing_taken ys)

-- What is selected from here on keeps within the limits.
pub record IsSelection (files bytes : Option ℕ) (count total : ℕ) (from selected : List FileEntry)
    : Type 0 where
  pub few : within files (count + length selected) ≡ true
  pub small : within bytes (total + total_size selected) ≡ true
  pub chosen : Sublist selected from

at_same : (limit : Option ℕ) (m n : ℕ) → m ≡ n → within limit m ≡ true → within limit n ≡ true
at_same limit m n same h = subst (λ k. within limit k ≡ true) same h

nothing_selected :
    (files bytes : Option ℕ) (count total : ℕ) (entries : List FileEntry)
    → within files count ≡ true
    → within bytes total ≡ true
    → IsSelection files bytes count total entries []
unfolding total_size
nothing_selected files bytes count total entries f b = record {
  few = at_same files count (count + 0) (omega arith) f;
  small = at_same bytes total (total + 0) (omega arith) b;
  chosen = nothing_taken entries;
}

select_from-IsSelection :
    (files bytes : Option ℕ) (count total : ℕ) (entries : List FileEntry)
    → within files count ≡ true
    → within bytes total ≡ true
    → IsSelection files bytes count total entries (select_from files bytes count total entries)
unfolding select_from total_size
select_from-IsSelection files bytes count total [] f b =
    nothing_selected files bytes count total [] f b
select_from-IsSelection files bytes count total (entry ∷ entries) f b =
    elim (Bool-cases (within files (suc count))) [
      | inl more ↦ elim (Bool-cases (within bytes (total + entry.size))) [
        | inl fits ↦
            let later = select_from files bytes (suc count) (total + entry.size) entries in
            let rest =
              select_from-IsSelection files bytes (suc count) (total + entry.size) entries more
                fits in
            rw (more, fits)
              (record {
                few =
                    at_same files (suc count + length later) (count + suc (length later))
                      (omega arith) rest.few;
                small =
                    at_same bytes (total + entry.size + total_size later)
                      (total + (entry.size + total_size later)) (omega arith) rest.small;
                chosen = taken entry rest.chosen;
              })
        | inr large ↦
            let rest = select_from-IsSelection files bytes count total entries f b in
            rw (more, large)
              (record { few = rest.few; small = rest.small; chosen = skipped entry rest.chosen })
      ]
      | inr full ↦ rw full (nothing_selected files bytes count total (entry ∷ entries) f b)
    ]

-- Only a limit leaves a file out.
abbrev pub LeavesOut : Option ℕ → Option ℕ → ℕ → List FileEntry → List FileEntry → Type 0
LeavesOut files bytes n from selected = (files ≡ some n) ⊎ ((bytes ≢ none) ⊎ (selected ≡ from))

reached :
    (files : Option ℕ) (count : ℕ)
    → within files count ≡ true
    → within files (suc count) ≡ false
    → files ≡ some (count + 0)
unfolding within
reached none count f full = absurd (ground (arith, full))
reached (some most) count f full = ap some (ground (arith, f, full))

taken-LeavesOut :
    (files : Option ℕ) (count : ℕ) (entry : FileEntry) (later entries : List FileEntry)
    → LeavesOut files none (suc count + length later) entries later
    → LeavesOut files none (count + suc (length later)) (entry ∷ entries) (entry ∷ later)
taken-LeavesOut files count entry later entries (inl at_limit) =
    inl (at_limit ∙ ap some (omega arith))
taken-LeavesOut files count entry later entries (inr (inl set)) = inr (inl set)
taken-LeavesOut files count entry later entries (inr (inr all)) =
    inr (inr (ap (λ es. entry ∷ es) all))

select_from-LeavesOut :
    (files : Option ℕ) (count total : ℕ) (entries : List FileEntry)
    → within files count ≡ true
    → let selected = select_from files none count total entries in
      LeavesOut files none (count + length selected) entries selected
unfolding select_from within
select_from-LeavesOut files count total [] f = inr (inr refl)
select_from-LeavesOut files count total (entry ∷ entries) f =
    elim (Bool-cases (within files (suc count))) [
      | inl more ↦
          let later = select_from files none (suc count) (total + entry.size) entries in
          rw more (
            taken-LeavesOut files count entry later entries
              (select_from-LeavesOut files (suc count) (total + entry.size) entries more))
      | inr full ↦ rw full (inl (reached files count f full))
    ]

within_zero : (most : Option ℕ) → within most 0 ≡ true
unfolding within
within_zero none = refl
within_zero (some most) = ground arith

-- `n` is not above the limit that is given, which is not negative.
abbrev pub IsUnder : Option ℤ → ℕ → Type 0
IsUnder none n = Unit
IsUnder (some (pos most)) n = n ≤ most
IsUnder (some (negsuc m)) n = ⊥

limit-IsUnder :
    (message : String) (raw : Option ℤ) (most : Option ℕ) (n : ℕ)
    → limit message raw ≡ ok most
    → within most n ≡ true
    → IsUnder raw n
unfolding limit within
limit-IsUnder message none most n h fits = tt
limit-IsUnder message (some (pos m)) most n h fits =
    ground (arith, subst (λ l. within l n ≡ true) (sym (ok-injective _ most h)) fits)
limit-IsUnder message (some (negsuc m)) most n h fits = absurd (ground (arith, h))

limit-some :
    (message : String) (raw : Option ℤ) (n : ℕ)
    → limit message raw ≡ ok (some n)
    → raw ≡ some (pos n)
unfolding limit
limit-some message none n h = absurd (ground (arith, ok-injective _ (some n) h))
limit-some message (some (pos m)) n h = ground (arith, ok-injective _ (some n) h)
limit-some message (some (negsuc m)) n h = absurd (ground (arith, h))

module _ (shuffle : ℤ → List FileEntry → List FileEntry) where
  leaves_out :
      (shard : List FileEntry) (files bytes : Option ℕ) (seed : ℤ)
      → within files 0 ≡ true
      → let selected = select_from files bytes 0 0 (shuffle seed shard) in
        LeavesOut files bytes (length selected) (shuffle seed shard) selected
  leaves_out shard files none seed f =
      let selected = select_from files none 0 0 (shuffle seed shard) in
      subst (λ n. LeavesOut files none n (shuffle seed shard) selected) (omega arith)
        (select_from-LeavesOut files 0 0 (shuffle seed shard) f)
  leaves_out shard files (some most) seed f = inr (inl (λ e. ground (arith, e)))

  as_given :
      (files_per_pod max_bytes_per_pod : Option ℤ) (files bytes : Option ℕ) (n : ℕ)
      (from selected : List FileEntry)
      → limit "files_per_pod must be non-negative" files_per_pod ≡ ok files
      → limit "max_bytes_per_pod must be non-negative" max_bytes_per_pod ≡ ok bytes
      → LeavesOut files bytes n from selected
      → (files_per_pod ≡ some (pos n)) ⊎ ((max_bytes_per_pod ≢ none) ⊎ (selected ≡ from))
  unfolding limit
  as_given raw_files raw_bytes files bytes n from selected is_files is_bytes (inl at_limit) =
      inl (limit-some _ raw_files n (is_files ∙ ap ok at_limit))
  as_given raw_files raw_bytes files bytes n from selected is_files is_bytes (inr (inl set)) =
      inr (inl (λ e. set (sym (ok-injective none bytes (rw e at is_bytes)))))
  as_given raw_files raw_bytes files bytes n from selected is_files is_bytes (inr (inr all)) =
      inr (inr all)

  -- What a pod processes is a part of its shuffled shard, in that order, with at most as many files
  -- and at most as many bytes as the limits that are given; neither is negative. A file is left out
  -- only where the limit of files is reached exactly, or a limit of bytes is given: without limits
  -- the whole shard is processed. A limit of zero is a limit.
  pub select_files-IsSelection :
      (shard : List FileEntry) (files_per_pod max_bytes_per_pod : Option ℤ) (seed : ℤ)
      (selected : List FileEntry)
      → select_files shuffle shard files_per_pod max_bytes_per_pod seed ≡ ok selected
      → IsUnder files_per_pod (length selected)
        × IsUnder max_bytes_per_pod (total_size selected)
        × Sublist selected (shuffle seed shard)
        × ((files_per_pod ≡ some (pos (length selected)))
            ⊎ ((max_bytes_per_pod ≢ none) ⊎ (selected ≡ shuffle seed shard)))
  unfolding select_files
  select_files-IsSelection shard files_per_pod max_bytes_per_pod seed selected h =
      let (files, is_files, h₁) =
        bind-ok (limit "files_per_pod must be non-negative" files_per_pod) _ selected h in
      let (bytes, is_bytes, h₂) =
        bind-ok (limit "max_bytes_per_pod must be non-negative" max_bytes_per_pod) _ selected h₁ in
      let from = shuffle seed shard in
      let same = ok-injective _ selected h₂ in
      let limits =
        subst (IsSelection files bytes 0 0 from) same
          (select_from-IsSelection files bytes 0 0 from (within_zero files) (within_zero bytes)) in
      let left_out =
        subst (λ xs. LeavesOut files bytes (length xs) from xs) same
          (leaves_out shard files bytes seed (within_zero files)) in
      (
        limit-IsUnder _ files_per_pod files (length selected) is_files
            (at_same files (0 + length selected) (length selected) (omega arith) limits.few),
        limit-IsUnder _ max_bytes_per_pod bytes (total_size selected) is_bytes (
            at_same bytes (0 + total_size selected) (total_size selected) (omega arith)
              limits.small),
        limits.chosen,
        as_given files_per_pod max_bytes_per_pod files bytes _ from selected is_files is_bytes
            left_out,
      )
