-- ===== src/VmCoverage/Supportability.antt =====
-- When a VM is supportable: the result of `apply_odcr_eligibility`, services/odcr_coverage.py, in terms
-- of the row.
use az_capa.Prelude.{String, ◌≡◌, refl, Bool, true, false, not, ◌||◌, str_eq, arith, if◌then◌else◌}
use az_capa.Json.{Json, null, bool, int, float, str, arr, obj}
use az_capa.VmCoverage.Requirements.{
  VmRow, as_bool, requirements_of, supportability, has_status, apply_odcr_eligibility, sku_status,
}

flag-failed : (b : Bool) → str_eq (if b then "Failed" else "Passed") "Failed" ≡ b
flag-failed true = refl
flag-failed false = refl

flag-unknown : (b : Bool) → str_eq (if b then "Failed" else "Passed") "Unknown" ≡ false
flag-unknown true = refl
flag-unknown false = refl

abbrev pub is_false : {F : Type 0} → Json F → Bool
is_false (bool false) = true
is_false _ = false

abbrev pub is_true_or_false : {F : Type 0} → Json F → Bool
is_true_or_false (bool b) = true
is_true_or_false _ = false

module _ {F : Type 0} (canonical : String → String) (is_zero : F → Bool) where
  sku-failed : (j : Json F) → str_eq (sku_status canonical is_zero j) "Failed" ≡ is_false j
  sku-failed (bool true) = refl
  sku-failed (bool false) = refl
  sku-failed null = refl
  sku-failed (int i) = refl
  sku-failed (float x) = refl
  sku-failed (str s) = refl
  sku-failed (arr xs) = refl
  sku-failed (obj fs) = refl

  sku-unknown :
      (j : Json F) → str_eq (sku_status canonical is_zero j) "Unknown" ≡ not (is_true_or_false j)
  sku-unknown (bool true) = refl
  sku-unknown (bool false) = refl
  sku-unknown null = refl
  sku-unknown (int i) = refl
  sku-unknown (float x) = refl
  sku-unknown (str s) = refl
  sku-unknown (arr xs) = refl
  sku-unknown (obj fs) = refl

  -- One of the six flags, or a size that is known not to be supported.
  abbrev pub is_unsupported : VmRow F → Bool
  is_unsupported row =
      as_bool canonical is_zero row.azure_spot
      || (as_bool canonical is_zero row.is_on_dedicated_host
          || (as_bool canonical is_zero row.has_availability_set
              || (as_bool canonical is_zero row.has_proximity_placement_group
                  || (as_bool canonical is_zero row.has_ultra_disk
                      || (as_bool canonical is_zero row.has_legacy_vm_nva_tag
                          || is_false row.capacity_reservation_supported)))))

  or_false : (a : Bool) → (a || false) ≡ a
  or_false a = ground arith

  failed-is_unsupported :
      (row : VmRow F)
      → has_status "Failed" (requirements_of canonical is_zero row) ≡ is_unsupported row
  unfolding requirements_of
  failed-is_unsupported row = rw (
    flag-failed (as_bool canonical is_zero row.azure_spot),
    flag-failed (as_bool canonical is_zero row.is_on_dedicated_host),
    flag-failed (as_bool canonical is_zero row.has_availability_set),
    flag-failed (as_bool canonical is_zero row.has_proximity_placement_group),
    flag-failed (as_bool canonical is_zero row.has_ultra_disk),
    flag-failed (as_bool canonical is_zero row.has_legacy_vm_nva_tag),
    sku-failed row.capacity_reservation_supported,
    or_false (is_false row.capacity_reservation_supported),
  )

  unknown-sku :
      (row : VmRow F)
      → has_status "Unknown" (requirements_of canonical is_zero row)
        ≡ not (is_true_or_false row.capacity_reservation_supported)
  unfolding requirements_of
  unknown-sku row =
      rw
        (
          flag-unknown (as_bool canonical is_zero row.azure_spot),
          flag-unknown (as_bool canonical is_zero row.is_on_dedicated_host),
          flag-unknown (as_bool canonical is_zero row.has_availability_set),
          flag-unknown (as_bool canonical is_zero row.has_proximity_placement_group),
          flag-unknown (as_bool canonical is_zero row.has_ultra_disk),
          flag-unknown (as_bool canonical is_zero row.has_legacy_vm_nva_tag),
          sku-unknown row.capacity_reservation_supported,
        )
        (or_false (not (is_true_or_false row.capacity_reservation_supported)))

  -- A VM is unsupported exactly if one of the six flags holds or its size is known not to be
  -- supported; otherwise it is supported if its size is known to be, and unknown if nothing is
  -- known of its size.
  pub apply_odcr_eligibility-status :
      (row : VmRow F)
      → (apply_odcr_eligibility canonical is_zero row).supportability_status ≡ (
          if is_unsupported row
          then "Unsupported"
          else if is_true_or_false row.capacity_reservation_supported
          then "Supported"
          else "Unknown")
  unfolding apply_odcr_eligibility supportability
  apply_odcr_eligibility-status row =
      rw (failed-is_unsupported row, unknown-sku row)
        (if-not (is_true_or_false row.capacity_reservation_supported) (is_unsupported row))
    where
      if-not :
          (b u : Bool)
          → ◌≡◌ {A = String}
              (if u then "Unsupported" else if not b then "Unknown" else "Supported")
              (if u then "Unsupported" else if b then "Supported" else "Unknown")
      if-not true u = refl
      if-not false u = refl
