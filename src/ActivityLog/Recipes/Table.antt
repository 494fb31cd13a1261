-- ===== src/ActivityLog/Recipes/Table.antt =====
-- The recipes of services/activity_log/recipes.py, in its order.
use az_capa.Prelude.{String, true, false, none, some, List, [], ◌∷◌, all, ◌≡◌, refl}
use az_capa.ActivityLog.Recipes.Declared.{ProjectedField, Recipe, is_valid_recipe, is_valid_field}

abbrev always : String → String → ProjectedField
always c p = record { column = c; path = p; on_status = none }

abbrev on_failed : String → String → ProjectedField
on_failed c p = record { column = c; path = p; on_status = some "Failed" }

abbrev pub vm_configuration : Recipe
vm_configuration = record {
  id = "vm-configuration";
  version = 1;
  resource_types = "microsoft.compute/virtualmachines" ∷ [];
  operation_names =
      "microsoft.compute/virtualmachines/write" ∷ "microsoft.compute/virtualmachines/delete" ∷ [];
  statuses = none;
  projected_fields =
      always "VmSize" "responseBody.properties.hardwareProfile.vmSize"
      ∷ always "Location" "responseBody.location"
      ∷ always "Zones" "responseBody.zones"
      ∷ always "ProvisioningState" "responseBody.properties.provisioningState"
      ∷ always "CapacityReservationGroupId"
          "responseBody.properties.capacityReservation.capacityReservationGroup.id"
      ∷ on_failed "ErrorCode" "statusMessage.error.code"
      ∷ [];
  retain_payload = true;
}

abbrev pub vm_lifecycle : Recipe
vm_lifecycle = record {
  id = "vm-lifecycle";
  version = 1;
  resource_types = "microsoft.compute/virtualmachines" ∷ [];
  operation_names =
      "microsoft.compute/virtualmachines/start/action"
      ∷ "microsoft.compute/virtualmachines/deallocate/action"
      ∷ "microsoft.compute/virtualmachines/reapply/action"
      ∷ "microsoft.compute/virtualmachines/redeploy/action" ∷ [];
  statuses = none;
  projected_fields =
      on_failed "ErrorCode" "statusMessage.error.code"
      ∷ on_failed "ErrorMessage" "statusMessage.error.message"
      ∷ [];
  retain_payload = false;
}

abbrev pub vmss_configuration : Recipe
vmss_configuration = record {
  id = "vmss-configuration";
  version = 1;
  resource_types = "microsoft.compute/virtualmachinescalesets" ∷ [];
  operation_names =
      "microsoft.compute/virtualmachinescalesets/write"
      ∷ "microsoft.compute/virtualmachinescalesets/delete" ∷ [];
  statuses = none;
  projected_fields =
      always "SkuName" "responseBody.sku.name"
      ∷ always "Capacity" "responseBody.sku.capacity"
      ∷ always "Location" "responseBody.location"
      ∷ always "Zones" "responseBody.zones"
      ∷ always "ProvisioningState" "responseBody.properties.provisioningState"
      ∷ on_failed "ErrorCode" "statusMessage.error.code"
      ∷ [];
  retain_payload = true;
}

abbrev pub crg_configuration : Recipe
crg_configuration = record {
  id = "crg-configuration";
  version = 1;
  resource_types = "microsoft.compute/capacityreservationgroups" ∷ [];
  operation_names =
      "microsoft.compute/capacityreservationgroups/write"
      ∷ "microsoft.compute/capacityreservationgroups/delete" ∷ [];
  statuses = none;
  projected_fields =
      always "Location" "responseBody.location"
      ∷ always "Zones" "responseBody.zones"
      ∷ always "ProvisioningState" "responseBody.properties.provisioningState"
      ∷ on_failed "ErrorCode" "statusMessage.error.code"
      ∷ [];
  retain_payload = true;
}

abbrev pub cr_configuration : Recipe
cr_configuration = record {
  id = "cr-configuration";
  version = 1;
  resource_types = "microsoft.compute/capacityreservationgroups/capacityreservations" ∷ [];
  operation_names =
      "microsoft.compute/capacityreservationgroups/capacityreservations/write"
      ∷ "microsoft.compute/capacityreservationgroups/capacityreservations/delete" ∷ [];
  statuses = none;
  projected_fields =
      always "SkuName" "responseBody.sku.name"
      ∷ always "Capacity" "responseBody.sku.capacity"
      ∷ always "Zones" "responseBody.zones"
      ∷ always "ProvisioningState" "responseBody.properties.provisioningState"
      ∷ on_failed "ErrorCode" "statusMessage.error.code"
      ∷ [];
  retain_payload = true;
}

abbrev pub subscription_registration : Recipe
subscription_registration = record {
  id = "subscription-registration";
  version = 1;
  resource_types = [];
  operation_names = "microsoft.management/register/action" ∷ [];
  statuses = none;
  projected_fields = [];
  retain_payload = true;
}

abbrev pub recipes : List Recipe
recipes =
    vm_configuration ∷ vm_lifecycle ∷ vmss_configuration ∷ crg_configuration ∷ cr_configuration
    ∷ subscription_registration ∷ []

-- The check that the registry makes of each recipe.
recipes_valid : all is_valid_recipe recipes ≡ true
unfolding is_valid_recipe is_valid_field
recipes_valid = refl
