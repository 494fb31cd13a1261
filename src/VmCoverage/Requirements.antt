-- ===== src/VmCoverage/Requirements.antt =====
-- `apply_odcr_eligibility` of services/odcr_coverage.py: the prerequisites of a capacity reservation,
-- for one VM, and whether it is supportable. `strip().lower()` and the truth value of a float are
-- parameters.
use Prim.Native.String.{◌++◌}
use az_capa.Prelude.{
  String, Bool, true, false, ◌||◌, Option, none, some, List, [], ◌∷◌, str_eq, any, if◌then◌else◌,
}
use az_capa.Json.{Json, null, bool, str, is_true}

pub record Definition : Type 0 where
  pub key : String
  pub label : String
  pub failure_reason : Option String

abbrev pub regular_priority : Definition
regular_priority = record {
  key = "regularPriority";
  label = "Not an Azure Spot instance";
  failure_reason = some "Spot VMs aren't supported by on-demand capacity reservations.";
}

abbrev pub dedicated_host : Definition
dedicated_host = record {
  key = "dedicatedHost";
  label = "No dedicated host";
  failure_reason = some "VMs deployed on Azure Dedicated Hosts aren't supported by ODCR.";
}

abbrev pub availability_set : Definition
availability_set = record {
  key = "availabilitySet";
  label = "No availability set";
  failure_reason = some (
      "Availability sets aren't supported by ODCR. The VM's update-domain placement "
      ++ "is inherited from this availability set and isn't reported as a separate failure.");
}

abbrev pub proximity_placement_group : Definition
proximity_placement_group = record {
  key = "proximityPlacementGroup";
  label = "No proximity placement group";
  failure_reason = some "Proximity placement groups are an unsupported ODCR deployment constraint.";
}

abbrev pub ultra_disk : Definition
ultra_disk = record {
  key = "ultraDisk";
  label = "No Ultra Disk Storage";
  failure_reason = some "Azure Ultra Disk Storage isn't supported with ODCR.";
}

abbrev pub legacy_vm_nva : Definition
legacy_vm_nva = record {
  key = "legacyVMNVA";
  label = "Eligible for the ODCR capacity SLA (no LegacyVMNVA tag)";
  failure_reason = some "The ODCR SLA doesn't apply to deployments using the LegacyVMNVA tag.";
}

abbrev pub vmss_placement_model : Definition
vmss_placement_model = record {
  key = "vmssPlacementModel";
  label = "VMSS placement model";
  failure_reason = none;
}

abbrev pub vm_sku_support : Definition
vm_sku_support = record {
  key = "vmSkuSupport";
  label = "VM SKU supports ODCR";
  failure_reason =
      some "This VM SKU doesn't support on-demand capacity reservations in this region.";
}

abbrev pub definitions : List Definition
definitions =
    regular_priority ∷ dedicated_host ∷ availability_set ∷ proximity_placement_group ∷ ultra_disk
    ∷ legacy_vm_nva ∷ vmss_placement_model ∷ vm_sku_support ∷ []

pub record Requirement : Type 0 where
  pub key : String
  pub label : String
  pub status : String
  pub observed_value : String
  pub reason : Option String
  pub resource_id : Option String

-- The columns of a VM's row that are read; an absent one is null.
pub record VmRow (F : Type 0) : Type 0 where
  pub id : Option String
  pub vm_size : Option String
  pub location : Option String
  pub azure_spot : Json F
  pub is_on_dedicated_host : Json F
  pub dedicated_host : Option String
  pub dedicated_host_id : Option String
  pub has_availability_set : Json F
  pub availability_set : Option String
  pub availability_set_id : Option String
  pub has_proximity_placement_group : Json F
  pub proximity_placement_group : Option String
  pub proximity_placement_group_id : Option String
  pub has_ultra_disk : Json F
  pub has_legacy_vm_nva_tag : Json F
  pub capacity_reservation_supported : Json F
  pub support_reason : Option String

-- `value or default` on an optional text
abbrev pub or_text : Option String → String → String
or_text none default_text = default_text
or_text (some s) default_text = if str_eq s "" then default_text else s

-- `value or None`
abbrev pub present : Option String → Option String
present none = none
present (some s) = if str_eq s "" then none else some s

-- A prerequisite that fails exactly if the test holds.
abbrev pub flag_requirement : Definition → Bool → (observed : String) → Option String → Requirement
flag_requirement d failed observed resource_id = record {
  key = d.key;
  label = d.label;
  status = if failed then "Failed" else "Passed";
  observed_value = observed;
  reason = if failed then d.failure_reason else none;
  resource_id = resource_id;
}

abbrev pub yes_no : Bool → String
yes_no b = if b then "Yes" else "No"

module _ {F : Type 0} (canonical : String → String) (is_zero : F → Bool) where
  unfoldable pub as_bool : Json F → Bool
  as_bool (str s) =
      str_eq (canonical s) "true" || (str_eq (canonical s) "yes" || str_eq (canonical s) "1")
  as_bool value = is_true is_zero value

  -- `_ is True`, `_ is False` and `_ is None` on whether the size is supported
  abbrev pub sku_status : Json F → String
  sku_status (bool true) = "Passed"
  sku_status (bool false) = "Failed"
  sku_status _ = "Unknown"

  abbrev pub sku_observed : Json F → String
  sku_observed (bool true) = "Supported"
  sku_observed (bool false) = "Not supported"
  sku_observed _ = "Unknown"

  abbrev pub sku_reason : Json F → Option String → Option String
  sku_reason (bool false) reason = vm_sku_support.failure_reason
  sku_reason null reason = reason
  sku_reason _ reason = none

  unfoldable pub requirements_of : VmRow F → List Requirement
  unfolding as_bool
  requirements_of row =
      flag_requirement regular_priority (as_bool row.azure_spot)
        ("Azure Spot: " ++ yes_no (as_bool row.azure_spot)) row.id
      ∷ flag_requirement dedicated_host (as_bool row.is_on_dedicated_host)
          (or_text row.dedicated_host "No dedicated host") (present row.dedicated_host_id)
      ∷ flag_requirement availability_set (as_bool row.has_availability_set)
          (or_text row.availability_set "No availability set") (present row.availability_set_id)
      ∷ flag_requirement proximity_placement_group (as_bool row.has_proximity_placement_group)
          (or_text row.proximity_placement_group "No proximity placement group")
          (present row.proximity_placement_group_id)
      ∷ flag_requirement ultra_disk (as_bool row.has_ultra_disk)
          ("Ultra Disk attached: " ++ yes_no (as_bool row.has_ultra_disk)) row.id
      ∷ flag_requirement legacy_vm_nva (as_bool row.has_legacy_vm_nva_tag)
          ("LegacyVMNVA tag: " ++ yes_no (as_bool row.has_legacy_vm_nva_tag)) row.id
      ∷ record {
        key = vmss_placement_model.key;
        label = vmss_placement_model.label;
        status = "Not applicable";
        observed_value = "Standalone VM inventory";
        reason = none;
        resource_id = none;
      }
      ∷ record {
        key = vm_sku_support.key;
        label = vm_sku_support.label;
        status = sku_status row.capacity_reservation_supported;
        observed_value =
            or_text row.vm_size "Unknown VM size"
            ++ (" in "
                ++ (or_text row.location "unknown location"
                    ++ (": " ++ sku_observed row.capacity_reservation_supported)));
        reason = sku_reason row.capacity_reservation_supported row.support_reason;
        resource_id = none;
      }
      ∷ []

abbrev pub has_status : String → List Requirement → Bool
has_status status requirements = any (λ (r : Requirement). str_eq r.status status) requirements

abbrev pub labels_of : String → List Requirement → List String
labels_of status [] = []
labels_of status (r ∷ rs) =
    if str_eq r.status status then r.label ∷ labels_of status rs else labels_of status rs

abbrev pub reasons_of : List Requirement → List String
reasons_of [] = []
reasons_of (r ∷ rs) =
    if str_eq r.status "Unknown" then or_text r.reason r.label ∷ reasons_of rs else reasons_of rs

unfoldable pub supportability : List Requirement → String
supportability requirements =
    if has_status "Failed" requirements
    then "Unsupported"
    else if has_status "Unknown" requirements
    then "Unknown"
    else "Supported"

pub record Eligibility : Type 0 where
  pub requirements : List Requirement
  pub unsupported_reasons : List String
  pub unknown_reasons : List String
  pub supportability_status : String

module _ {F : Type 0} (canonical : String → String) (is_zero : F → Bool) where
  unfoldable pub apply_odcr_eligibility : VmRow F → Eligibility
  unfolding requirements_of supportability
  apply_odcr_eligibility row = record {
    requirements = requirements_of canonical is_zero row;
    unsupported_reasons = labels_of "Failed" (requirements_of canonical is_zero row);
    unknown_reasons = reasons_of (requirements_of canonical is_zero row);
    supportability_status = supportability (requirements_of canonical is_zero row);
  }
