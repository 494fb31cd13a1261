-- ===== src/VmCoverage/Tests.antt =====
-- The theorems on VMs and their reservations at concrete inputs.
use az_capa.Prelude.{
  ℕ, String, ◌≡◌, refl, Bool, true, false, Option, none, some, List, [], ◌∷◌, str_eq, contains,
  if◌then◌else◌,
}
use az_capa.Prelude.Int.{pos}
use az_capa.Json.{null, bool}
use az_capa.VmCoverage.Zones.{Zone}
use az_capa.VmCoverage.Candidates.{ReservationRow, VmGroup, matching_reservations}
use az_capa.VmCoverage.Candidates.Exact.{listed, IsOffered, matching_reservations-contains}
use az_capa.VmCoverage.Lifecycle.{
  InstanceView, VmCandidates, lifecycle_of, reservation_status_values,
}
use az_capa.VmCoverage.Lifecycle.Unique.{Named, lifecycle_of-Named}
use az_capa.VmCoverage.Requirements.{VmRow, requirements_of}
use az_capa.VmCoverage.Compact.{compact, status_in, status_of, compact-status_in}

abbrev as_given : String → String
as_given s = s

abbrev unordered : String → String → Bool
unordered s t = false

abbrev every_zero : ℕ → Bool
every_zero x = true

-- A Spot VM of a size that nothing is known of.
abbrev spot_vm : VmRow ℕ
spot_vm = record {
  id = some "vm1";
  vm_size = some "D2";
  location = some "westeurope";
  azure_spot = bool true;
  is_on_dedicated_host = null;
  dedicated_host = none;
  dedicated_host_id = none;
  has_availability_set = null;
  availability_set = none;
  availability_set_id = none;
  has_proximity_placement_group = null;
  proximity_placement_group = none;
  proximity_placement_group_id = none;
  has_ultra_disk = bool false;
  has_legacy_vm_nva_tag = null;
  capacity_reservation_supported = null;
  support_reason = none;
}

compact-status_in_example :
    status_in "regularPriority" (compact (requirements_of as_given every_zero spot_vm))
    ≡ status_of "regularPriority" (requirements_of as_given every_zero spot_vm)
compact-status_in_example = compact-status_in as_given every_zero spot_vm "regularPriority"

abbrev zoned : Zone
zoned = record { physical_zone = some "z1"; resolved = true }

abbrev group_vm : VmGroup
group_vm = record { group_id = some "g"; vm_size = some "D2"; zone = zoned }

abbrev offered : List ReservationRow
offered =
    record {
      group_id = some "g";
      group_name = some "Group";
      reservation_id = some "g/r1";
      vm_size = some "D2";
      zone = zoned;
    }
    ∷ record {
      group_id = some "g";
      group_name = none;
      reservation_id = some "g/r2";
      vm_size = some "D4";
      zone = zoned;
    }
    ∷ []

matching_reservations-contains_example :
    (contains (listed (matching_reservations as_given unordered group_vm offered)) "g/r1" ≡ true
      → IsOffered as_given unordered group_vm offered "g/r1")
    × (IsOffered as_given unordered group_vm offered "g/r1"
        → contains (listed (matching_reservations as_given unordered group_vm offered)) "g/r1"
          ≡ true)
matching_reservations-contains_example =
    matching_reservations-contains as_given unordered group_vm offered "g/r1" refl

abbrev views : String → Option InstanceView
views id =
    if str_eq id "g/r1"
    then some
        record { name = some "r1"; capacity = pos 1; associated = some "vm1" ∷ []; allocated = [] }
    else none

abbrev candidate_vm : VmCandidates
candidate_vm = record {
  id = some "vm1";
  group_id = some "g";
  candidates = some ("g/r1" ∷ "g/r2" ∷ []);
}

lifecycle_of-Named_example :
    (contains reservation_status_values (lifecycle_of as_given unordered views candidate_vm).status
      ≡ true)
    × Named as_given unordered views candidate_vm
        (lifecycle_of as_given unordered views candidate_vm).reservation_id
lifecycle_of-Named_example = lifecycle_of-Named as_given unordered views candidate_vm
