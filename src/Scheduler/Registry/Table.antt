-- ===== src/Scheduler/Registry/Table.antt =====
-- The table of pipelines of services/data_collection/registry.py.
use az_capa.Prelude.{true, false, none, some, List, [], ◌∷◌}
use az_capa.Scheduler.Registry.Descriptor.{PipelineDescriptor}

abbrev pub subscription_reference : PipelineDescriptor
subscription_reference = record {
  id = "subscription_reference";
  label = "Subscription reference";
  refresh_orchestrator = "subscription_reference_refresh_orchestrator";
  flush_orchestrator = none;
  scope = "subscription_reference";
  contention_group = none;
  priority = 10;
  default_frequency_seconds = 900;
  default_anchor_seconds = 0;
  default_enabled = true;
  supports_flush = false;
  can_disable = false;
}

abbrev pub location_reference : PipelineDescriptor
location_reference = record {
  id = "location_reference";
  label = "Location reference";
  refresh_orchestrator = "location_reference_refresh_orchestrator";
  flush_orchestrator = none;
  scope = "location_reference";
  contention_group = none;
  priority = 20;
  default_frequency_seconds = 86400;
  default_anchor_seconds = 18900;
  default_enabled = true;
  supports_flush = false;
  can_disable = true;
}

abbrev pub compute_skus : PipelineDescriptor
compute_skus = record {
  id = "compute_skus";
  label = "Compute SKUs";
  refresh_orchestrator = "compute_skus_refresh_orchestrator";
  flush_orchestrator = some "compute_skus_flush_orchestrator";
  scope = "compute_skus";
  contention_group = none;
  priority = 30;
  default_frequency_seconds = 86400;
  default_anchor_seconds = 19800;
  default_enabled = true;
  supports_flush = true;
  can_disable = true;
}

abbrev pub subscription_context : PipelineDescriptor
subscription_context = record {
  id = "subscription_context";
  label = "Business context";
  refresh_orchestrator = "subscription_context_refresh_orchestrator";
  flush_orchestrator = some "subscription_context_flush_orchestrator";
  scope = "subscription_context";
  contention_group = none;
  priority = 40;
  default_frequency_seconds = 900;
  default_anchor_seconds = 0;
  default_enabled = true;
  supports_flush = true;
  can_disable = true;
}

abbrev pub cr_usage : PipelineDescriptor
cr_usage = record {
  id = "cr_usage";
  label = "CR usage";
  refresh_orchestrator = "cr_usage_refresh_orchestrator";
  flush_orchestrator = some "cr_usage_flush_orchestrator";
  scope = "cr_usage";
  contention_group = some "cost_management";
  priority = 50;
  default_frequency_seconds = 86400;
  default_anchor_seconds = 23400;
  default_enabled = true;
  supports_flush = true;
  can_disable = true;
}

abbrev pub vm_usage : PipelineDescriptor
vm_usage = record {
  id = "vm_usage";
  label = "VM usage";
  refresh_orchestrator = "vm_usage_refresh_orchestrator";
  flush_orchestrator = some "vm_usage_flush_orchestrator";
  scope = "vm_usage";
  contention_group = some "cost_management";
  priority = 55;
  default_frequency_seconds = 86400;
  default_anchor_seconds = 21600;
  default_enabled = true;
  supports_flush = true;
  can_disable = true;
}

abbrev pub activity_log : PipelineDescriptor
activity_log = record {
  id = "activity_log";
  label = "Activity log";
  refresh_orchestrator = "activity_log_refresh_orchestrator";
  flush_orchestrator = some "activity_log_flush_orchestrator";
  scope = "activity_log";
  contention_group = none;
  priority = 60;
  default_frequency_seconds = 86400;
  default_anchor_seconds = 25200;
  default_enabled = true;
  supports_flush = true;
  can_disable = true;
}

abbrev pub zone_mapping : PipelineDescriptor
zone_mapping = record {
  id = "zone_mapping";
  label = "Zone mapping";
  refresh_orchestrator = "zone_mapping_refresh_orchestrator";
  flush_orchestrator = some "zone_mapping_flush_orchestrator";
  scope = "zone_mapping";
  contention_group = none;
  priority = 90;
  default_frequency_seconds = 86400;
  default_anchor_seconds = 20700;
  default_enabled = true;
  supports_flush = true;
  can_disable = true;
}

abbrev pub descriptors : List PipelineDescriptor
descriptors =
    subscription_reference ∷ location_reference ∷ compute_skus ∷ subscription_context ∷ cr_usage
    ∷ vm_usage ∷ activity_log ∷ zone_mapping ∷ []
