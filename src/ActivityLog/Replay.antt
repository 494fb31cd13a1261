-- ===== src/ActivityLog/Replay.antt =====
-- The replay of retained operations, services/activity_log/pipeline.py: `_row_needs_reconcile`,
-- `_reconcile_operation` and what they call. The decompression of a payload, the reading of a
-- timestamp and the difference of two moments are parameters; `none` is an exception.
pub mod Stable
use az_capa.Prelude.{
  ℕ, String, Bool, true, false, not, ◌&&◌, ◌||◌, Option, none, some, List, [], ◌∷◌, str_eq, truthy,
  is_some, get_or, ltb, any, if◌then◌else◌, ◌==◌,
}
use az_capa.Json.{Fields, end}
use az_capa.ActivityLog.Recipes.{matching_recipes}
use az_capa.ActivityLog.Recipes.Declared.{Recipe}
use az_capa.ActivityLog.Projection.{Parsed, Event, ProjectionResult, project}
use az_capa.ActivityLog.Assembly.Events.{update_fields}

-- The columns of a stored operation that the replay reads or writes.
pub record Retained (F Payload : Type 0) : Type 0 where
  pub resource_type : Option String
  pub operation_name : Option String
  pub outcome : Option String
  pub last_event_time : Option String
  pub columns : Fields F
  pub reprojection_pending : Bool
  pub assembler_version : Option ℕ
  pub recipe_version : Option ℕ
  pub applied_payload_gz : Option Payload
  pub applied_payload_spill : Option String

pub record Replaying (F Payload : Type 0) : Type 0 where
  pub lower : String → String
  pub strip : String → String
  pub loads : String → Parsed F
  pub decompress : Payload → Option (Event F)
  -- `bool(payload)`
  pub is_given : Payload → Bool
  -- `now - _parse_timestamp(timestamp) > horizon`, `none` for a ValueError
  pub exceeds : String → Option Bool

abbrev pub current_version : ℕ
current_version = 1

abbrev pub same_version : Option ℕ → Option ℕ → Bool
same_version none none = true
same_version (some a) (some b) = a == b
same_version _ _ = false

abbrev pub greatest : List Recipe → Option ℕ
greatest [] = none
greatest (r ∷ rs) = some (above r.version (greatest rs))
  where
    above : ℕ → Option ℕ → ℕ
    above v none = v
    above v (some w) = if ltb v w then w else v

-- A payload that is there and not empty.
abbrev pub given : {Payload : Type 0} → (Payload → Bool) → Option Payload → Bool
given is_given none = false
given is_given (some payload) = is_given payload

module _ {F Payload : Type 0} (replaying : Replaying F Payload) where
  abbrev pub recipes_for : Retained F Payload → Option String → List Recipe
  recipes_for operation status =
      matching_recipes replaying.lower (λ s t. false) operation.resource_type
        operation.operation_name status

  unfoldable pub recipe_version_for : Retained F Payload → Option ℕ
  unfolding matching_recipes
  recipe_version_for operation = greatest (recipes_for operation none)

  unfoldable pub age_exceeds : Option String → Bool
  age_exceeds none = false
  age_exceeds (some timestamp) =
      if str_eq timestamp "" then false else get_or (replaying.exceeds timestamp) false

  abbrev pub is_pending : Retained F Payload → Bool
  is_pending operation = str_eq (replaying.lower (get_or operation.outcome "")) "pending"

  unfoldable pub is_overdue : Retained F Payload → Bool
  unfolding age_exceeds
  is_overdue operation = is_pending operation && age_exceeds operation.last_event_time

  unfoldable pub is_stale : Retained F Payload → Bool
  unfolding recipe_version_for
  is_stale operation =
      operation.reprojection_pending
      || (not (same_version operation.assembler_version (some current_version))
          || not (same_version operation.recipe_version (recipe_version_for operation)))

  unfoldable pub row_needs_reconcile : Retained F Payload → Bool
  unfolding is_overdue is_stale
  row_needs_reconcile row =
      is_overdue row
      || ((given replaying.is_given row.applied_payload_gz || truthy row.applied_payload_spill)
          && is_stale row)

  abbrev pub merged : ProjectionResult F → ProjectionResult F → ProjectionResult F
  merged acc result = record {
    columns = update_fields acc.columns result.columns;
    reprojection_pending = acc.reprojection_pending || result.reprojection_pending;
  }

  unfoldable pub project_all : Event F → List Recipe → ProjectionResult F → ProjectionResult F
  unfolding project
  project_all event [] acc = acc
  project_all event (recipe ∷ recipes) acc =
      project_all event recipes
        (merged acc (project replaying.strip replaying.lower replaying.loads event recipe))

  abbrev pub reprojected : Retained F Payload → Option ℕ → ProjectionResult F → Retained F Payload
  reprojected operation expected result = record operation {
    columns = result.columns;
    reprojection_pending = result.reprojection_pending;
    assembler_version = some current_version;
    recipe_version = expected;
  }

  abbrev pub with_event : Retained F Payload → Option (Event F) → Option (Retained F Payload)
  with_event operation none = none
  with_event operation (some event) = some (
      reprojected operation (recipe_version_for operation) (
        project_all event (recipes_for operation event.status)
          (record { columns = end; reprojection_pending = false })))

  abbrev pub with_payload : Retained F Payload → Option Payload → Option (Retained F Payload)
  with_payload operation none = none
  with_payload operation (some payload) = with_event operation (replaying.decompress payload)

  -- The second test, which ages a pending operation.
  unfoldable pub aged : Bool → Retained F Payload → Bool × Retained F Payload
  unfolding is_overdue
  aged changed operation =
      if is_overdue operation
      then (true, record operation { outcome = some "unknown" })
      else (changed, operation)

  abbrev pub then_aged : Option (Retained F Payload) → Option (Bool × Retained F Payload)
  then_aged none = none
  then_aged (some operation) = some (aged true operation)

  unfoldable pub reconcile_operation : Retained F Payload → Option (Bool × Retained F Payload)
  unfolding is_stale recipe_version_for project_all aged
  reconcile_operation operation =
      if is_stale operation && given replaying.is_given operation.applied_payload_gz
      then then_aged (with_payload operation operation.applied_payload_gz)
      else some (aged false operation)
