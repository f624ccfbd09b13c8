-- ===== src/Exporter/Vm/Sizes.antt =====
-- The counts by size against a count of the inventory.
use azure_lustre_vmss_metric.Prelude.{
  ℕ, ◌+◌, String, nat_beq, length, keep, ◌≡◌, refl, ap, Option, none, some, List, [], ◌∷◌, ◌==◌,
  string_eq, list_eq, ◌∙◌, if◌then◌else◌, arith, Bool-cases, inl, inr,
}
use azure_lustre_vmss_metric.Prelude.Dict.{
  Distinct, insert-Distinct, Dict, lookup, insert, lookup-insert,
}
use azure_lustre_vmss_metric.Prelude.Number.{Floats, of_nat}
use azure_lustre_vmss_metric.Models.Vm.{StandaloneVm}
use azure_lustre_vmss_metric.Exporter.Gauge.{Gauges}
use azure_lustre_vmss_metric.Exporter.Family.{put, value-update}
use azure_lustre_vmss_metric.Exporter.Samples.{
  last_with, last_or, after_samples-last, last_or-stale, put-set_or_remove,
}
use azure_lustre_vmss_metric.Exporter.Vm.{
  VmGauges, VmTracked, standalone_vm_count_by_size, count_or_zero, count_sizes, new_size_labelsets,
  size_samples, update_standalone_vm_metrics,
}

-- How many virtual machines of the inventory have the size.
unfoldable pub how_many : String → List StandaloneVm → ℕ
how_many size vms = length (keep (λ vm. vm.vm_size == size) vms)

count_sizes-Distinct :
    (vms : List StandaloneVm) (d : Dict String ℕ) → Distinct d → Distinct (count_sizes vms d)
unfolding count_sizes
count_sizes-Distinct [] d h = h
count_sizes-Distinct (vm ∷ vms) d h = count_sizes-Distinct vms _ (insert-Distinct vm.vm_size _ d h)

-- `k` more of a size.
unfoldable more : ℕ → Option ℕ → Option ℕ
unfolding count_or_zero
more k old = if nat_beq k 0 then old else some (k + count_or_zero old)

-- The dictionary counts each size.
lookup-count_sizes :
    (size : String) (vms : List StandaloneVm) (d : Dict String ℕ)
    → lookup size (count_sizes vms d) ≡ more (how_many size vms) (lookup size d)
unfolding count_sizes how_many more
lookup-count_sizes size [] d = ground arith
lookup-count_sizes size (vm ∷ vms) d =
    let next = count_or_zero (lookup vm.vm_size d) + 1 in
    rw
      (lookup-count_sizes size vms (insert vm.vm_size next d), lookup-insert vm.vm_size size next d)
      (elim (Bool-cases (vm.vm_size == size)) [
        | inl is ↦ rw (is, (string_eq.equals_iff vm.vm_size size).0 is) (ground arith)
        | inr isnt ↦ rw isnt (ground arith)
      ])

module _ {F : Type 0} (v : ℕ → F) where
  -- What a scrape shows for an entry of the dictionary.
  unfoldable shown : Option ℕ → Option F
  shown none = none
  shown (some n) = some (v n)

  last_with-lookup :
      (d : Dict String ℕ) (size : String)
      → Distinct d
      → last_or (λ entry. some (v entry.1)) (last_with (λ entry. entry.0 ∷ []) d (size ∷ [])) none
        ≡ shown (lookup size d)
  unfolding last_or last_with lookup shown
  last_with-lookup [] size h = refl
  last_with-lookup ((k, n) ∷ d) size h =
      let rest = last_with-lookup d size h.1 in
      elim (Bool-cases (k == size)) [
        | inl is ↦
            let none_left = rw ((string_eq.equals_iff k size).0 is) at h.0 in
            ground (arith, is, none_left, rest)
        | inr isnt ↦ ground (arith, isnt, rest)
      ]

  shown-count_sizes :
      (size : String) (vms : List StandaloneVm)
      → shown (lookup size (count_sizes vms []))
        ≡ (if nat_beq (how_many size vms) 0 then none else some (v (how_many size vms)))
  unfolding shown lookup more
  shown-count_sizes size vms =
      rw (lookup-count_sizes size vms []) (elim (Bool-cases (nat_beq (how_many size vms) 0)) [
        | inl is ↦ rw is
        | inr isnt ↦ rw isnt (ap (λ n. some (v n)) (omega arith))
      ])

module _ {G F : Type 0} (floats : Floats F) (api : Gauges G F) where
  -- Whatever the cap, after an update `azure_vm_count_by_size` shows for each size how many virtual
  -- machines of the inventory have it, and nothing for a size that none has.
  pub update_standalone_vm_metrics-sizes :
      (max_inventory : ℕ) (vms : List StandaloneVm) (gauges : VmGauges G) (size : String)
      → VmTracked floats api gauges
      → api.value
          ((update_standalone_vm_metrics floats api max_inventory vms gauges).sizes.gauge
            standalone_vm_count_by_size)
          (size ∷ [])
        ≡ (if nat_beq (how_many size vms) 0 then none else some (of_nat floats (how_many size vms)))
  unfolding update_standalone_vm_metrics new_size_labelsets size_samples
  update_standalone_vm_metrics-sizes max_inventory vms gauges size h =
      let d = count_sizes vms [] in
      value-update api (new_size_labelsets d) (size_samples floats d) gauges.sizes
        standalone_vm_count_by_size (size ∷ []) h.sizes_noted
      ∙ after_samples-last (λ entry. entry.0 ∷ []) (λ entry _. put (of_nat floats entry.1))
          (λ entry. some (of_nat floats entry.1)) d standalone_vm_count_by_size (size ∷ []) _
          (λ entry. put-set_or_remove (of_nat floats entry.1))
      ∙ last_or-stale (λ entry. some (of_nat floats entry.1)) (λ entry. entry.0 ∷ []) d (size ∷ [])
          _
      ∙ last_with-lookup (of_nat floats) d size (count_sizes-Distinct vms [] tt)
      ∙ shown-count_sizes (of_nat floats) size vms
