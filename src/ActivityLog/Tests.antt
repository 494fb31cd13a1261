-- ===== src/ActivityLog/Tests.antt =====
-- The theorems on recipes and projections at concrete inputs.
use az_capa.Prelude.{
  All, ℕ, String, refl, Bool, false, true, none, some, ◌≡◌, List, [], ◌∷◌, any, map, contains,
  distinct,
}
use mathlib.Core.List.Memᴰ.{head}
use az_capa.Json.{str, obj, field, end}
use az_capa.ActivityLog.Recipes.{event_matches, matching_recipes, server_operations}
use az_capa.ActivityLog.Recipes.Table.{recipes, vm_configuration}
use az_capa.ActivityLog.Recipes.Pushed.{matching_recipes-server_operations}
use az_capa.ActivityLog.Projection.{
  Parsed, malformed, Event, project, project_fields, resolve_path, descend, coerce_container,
}
use az_capa.ActivityLog.Projection.Columns.{Derived, project-Derived}
use az_capa.ActivityLog.Assembly.Events.{PreparedEvent, Texts}
use az_capa.ActivityLog.Assembly.Operations.{Operation, assemble}
use az_capa.ActivityLog.Assembly.Groups.{names}
use az_capa.ActivityLog.Assembly.Whole.{IsSound, IsOneOf, assemble-lossless}
use az_capa.ActivityLog.Collection.{
  Settings, Coverage, CollectionPlan, WorkUnit, resolve_plan, work_units, work_unit, unit_from,
  start_of, drift, historical_start, cutoff_of, recipe_versions, plan_of, changes, sort_texts,
}
use az_capa.ActivityLog.Collection.Windows.{AreWindows, resolve_plan-AreWindows}
use az_capa.ActivityLog.Replay.{
  Retained, Replaying, reconcile_operation, is_stale, recipe_version_for, project_all, aged,
  is_overdue, age_exceeds,
}
use az_capa.ActivityLog.Replay.Stable.{Settled, reconcile_operation-Settled}

-- The parameters at texts in lower case without spaces and JSON strings.
abbrev same : String → String
same s = s

abbrev unordered : String → String → Bool
unordered s t = false

abbrev no_json : String → Parsed ℕ
no_json s = malformed

matching_recipes-server_operations_example :
    (o : String) × (some "microsoft.compute/virtualmachines/write" ≡ some o)
    × (contains (server_operations same unordered recipes) o ≡ true)
unfolding matching_recipes event_matches
matching_recipes-server_operations_example =
    matching_recipes-server_operations same unordered (some "microsoft.compute/virtualmachines")
      (some "microsoft.compute/virtualmachines/write") (some "succeeded") vm_configuration
      (head refl)

abbrev succeeded : Event ℕ
succeeded = record {
  properties = obj (field "responseBody" (obj (field "location" (str "westeurope") end)) end);
  status = some "Succeeded";
}

project-Derived_example :
    Derived same same no_json succeeded vm_configuration.projected_fields "Location"
      (str "westeurope")
unfolding project project_fields resolve_path descend coerce_container
project-Derived_example =
    project-Derived same same no_json succeeded vm_configuration "Location" (str "westeurope") refl

abbrev plain_texts : Texts
plain_texts = record {
  lower = same;
  less = unordered;
  from_iso = λ s. none;
  is_naive = λ s. false;
  max_moment = 1;
  sha1 = same;
}

abbrev event_named : (id status : String) → PreparedEvent ℕ ℕ
event_named id status = record {
  event_data_id = id;
  event_timestamp = "2026-01-01T00:00:00Z";
  subscription_id = "a";
  resource_id = some "vm";
  operation_name = "write";
  status = some status;
  resource_type = none;
  submission_timestamp = none;
  operation_id = none;
  correlation_id = some "c";
  columns = end;
  payload_gz = none;
  payload_encoding = none;
  reprojection_pending = false;
}

-- A repeated event and a second stage of its operation.
abbrev page : List (PreparedEvent ℕ ℕ)
page = event_named "e1" "accepted" ∷ event_named "e1" "accepted" ∷ event_named "e2" "succeeded" ∷ []

page-IsSound : All (IsSound plain_texts) page
page-IsSound = (
  ((refl, refl, refl, refl), refl),
  (((refl, refl, refl, refl), refl), (((refl, refl, refl, refl), refl), tt)),
)

assemble-lossless_example :
    (ops : List (Operation ℕ ℕ)) × (assemble plain_texts page ≡ some ops)
    × (distinct (map (λ (op : Operation ℕ ℕ). op.operation_identity) ops) ≡ true)
    × All (IsOneOf plain_texts page) ops
    × ((id : String)
        → any (λ (op : Operation ℕ ℕ). contains op.all_event_ids id) ops
          ≡ any (names plain_texts id) page)
assemble-lossless_example = assemble-lossless plain_texts page page-IsSound

abbrev limits : Settings
limits = record {
  ingestion_lag_minutes = 20;
  historical_days = 30;
  refresh_overlap_hours = 24;
  max_concurrency = 20;
  replay_max_units = 200;
}

-- One subscription that was collected before, with the same recipes, and a new one.
abbrev collected : List Coverage
collected =
    record {
      subscription_id = "a";
      coverage_start = some 1760000000;
      coverage_end = some 1770000000;
      enabled_recipe_ids = [];
      materialized_recipe_versions = [];
    }
    ∷ []

collection :
    (plan : CollectionPlan) × (resolve_plan same unordered limits 1770100000 [] collected
        ("a" ∷ "b" ∷ [])
      ≡ some plan)
unfolding resolve_plan work_units work_unit unit_from start_of drift historical_start cutoff_of
    recipe_versions plan_of changes server_operations
collection = (_, refl)

resolve_plan-AreWindows_example :
    AreWindows same unordered limits
      (cutoff_of limits 1770100000)
      []
      collected
      (sort_texts same unordered ("a" ∷ "b" ∷ []))
      collection.0.work_units
    × (collection.0.new_state ≡ map (λ (u : WorkUnit). u.coverage) collection.0.work_units)
resolve_plan-AreWindows_example =
    resolve_plan-AreWindows same unordered limits 1770100000 [] collected ("a" ∷ "b" ∷ [])
      collection.0 collection.1

abbrev replay_of : Replaying ℕ ℕ
replay_of = record {
  lower = same;
  strip = same;
  loads = no_json;
  decompress = λ payload. some succeeded;
  is_given = λ payload. true;
  exceeds = λ timestamp. some true;
}

-- A row of an older version that is pending for long.
abbrev retained : Retained ℕ ℕ
retained = record {
  resource_type = some "microsoft.compute/virtualmachines";
  operation_name = some "microsoft.compute/virtualmachines/write";
  outcome = some "pending";
  last_event_time = some "2026-01-01T00:00:00Z";
  columns = end;
  reprojection_pending = false;
  assembler_version = some 0;
  recipe_version = none;
  applied_payload_gz = some 1;
  applied_payload_spill = none;
}

reconciled : (p : Bool × Retained ℕ ℕ) × (reconcile_operation replay_of retained ≡ some p)
unfolding reconcile_operation is_stale recipe_version_for project_all aged is_overdue age_exceeds
    matching_recipes event_matches project project_fields resolve_path descend coerce_container
reconciled = (_, refl)

reconcile_operation-Settled_example : Settled replay_of refl reconciled.0.1
reconcile_operation-Settled_example =
    reconcile_operation-Settled replay_of refl retained reconciled.0.1 reconciled.0.0 reconciled.1
