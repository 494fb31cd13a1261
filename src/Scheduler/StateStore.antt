-- ===== src/Scheduler/StateStore.antt =====
-- storage/scheduler_state_store.py. A row has the columns of a run-state row and of the marker
-- row, each with no value where the property is absent; so `_drop_none` is built in.
pub mod Claims
pub mod Rows
pub mod Placeholder
use az_capa.Prelude.{
  ℕ, String, Option, none, some, or_else, List, map, str_eq, truthy, if◌then◌else◌,
}
use az_capa.Table.{Key, key, Update, updated, failed, precondition_failed, Table, row}
use Prim.Native.String.{◌++◌}
use az_capa.Prelude.{◌==◌}

pub record StateRow : Type 0 where
  pub scope : Option String
  pub active_instance_id : Option String
  pub active_action : Option String
  pub last_dispatched_at : Option ℕ
  pub last_trigger : Option String
  pub last_outcome : Option String
  pub last_completed_at : Option ℕ
  pub last_tick_at : Option ℕ
  pub last_pruned_at : Option ℕ

abbrev pub empty_row : StateRow
empty_row = record {
  scope = none;
  active_instance_id = none;
  active_action = none;
  last_dispatched_at = none;
  last_trigger = none;
  last_outcome = none;
  last_completed_at = none;
  last_tick_at = none;
  last_pruned_at = none;
}

-- UpdateMode.MERGE: a given column replaces the old one.
abbrev pub merge_state : StateRow → StateRow → StateRow
merge_state old new = record {
  scope = or_else new.scope old.scope;
  active_instance_id = or_else new.active_instance_id old.active_instance_id;
  active_action = or_else new.active_action old.active_action;
  last_dispatched_at = or_else new.last_dispatched_at old.last_dispatched_at;
  last_trigger = or_else new.last_trigger old.last_trigger;
  last_outcome = or_else new.last_outcome old.last_outcome;
  last_completed_at = or_else new.last_completed_at old.last_completed_at;
  last_tick_at = or_else new.last_tick_at old.last_tick_at;
  last_pruned_at = or_else new.last_pruned_at old.last_pruned_at;
}

abbrev pub state_key : String → Key
state_key pipeline_id = key "state" pipeline_id

abbrev pub marker_key : Key
marker_key = key "dispatcher" "marker"

-- The dictionary that `get` and `list` return.
pub record RunState : Type 0 where
  pub pipeline : String
  pub scope : Option String
  pub active_instance_id : Option String
  pub active_action : Option String
  pub last_dispatched_at : Option ℕ
  pub last_trigger : Option String
  pub last_outcome : Option String
  pub last_completed_at : Option ℕ

abbrev pub row_to_state : String → StateRow → RunState
row_to_state row_key entity = record {
  pipeline = row_key;
  scope = entity.scope;
  active_instance_id = entity.active_instance_id;
  active_action = entity.active_action;
  last_dispatched_at = entity.last_dispatched_at;
  last_trigger = entity.last_trigger;
  last_outcome = entity.last_outcome;
  last_completed_at = entity.last_completed_at;
}

-- What `try_claim` answers: True with the new table, False, or the HttpResponseError that it
-- passes on.
pub data Claim (S : Type 0) : Type 0 where
  claimed : S → Claim S
  refused : Claim S
  raised : ℕ → Claim S

abbrev pub placeholder_prefix : String
placeholder_prefix = "pending:"

abbrev pub placeholder : String → String
placeholder uuid = placeholder_prefix ++ uuid

abbrev pub claim_columns : StateRow → (scope uuid action trigger : String) → ℕ → StateRow
claim_columns entity scope uuid action trigger dispatched_at = record entity {
  scope = some scope;
  active_instance_id = some (placeholder uuid);
  active_action = some action;
  last_dispatched_at = some dispatched_at;
  last_trigger = some trigger;
}

-- The entity that clears the active run: ActiveInstanceId and ActiveAction are left out.
abbrev pub cleared : StateRow → Option String → Option ℕ → StateRow
cleared entity outcome completed_at = record empty_row {
  scope = entity.scope;
  last_dispatched_at = entity.last_dispatched_at;
  last_trigger = entity.last_trigger;
  last_outcome = or_else outcome entity.last_outcome;
  last_completed_at = or_else completed_at entity.last_completed_at;
}

module _ (t : Table StateRow) where
  unfoldable pub get : (pipeline_id : String) → t.Store → Option RunState
  get pipeline_id s = elim (row t (state_key pipeline_id) s) [
    | none ↦ none
    | some entity ↦ some (row_to_state pipeline_id entity)
  ]

  unfoldable pub list : t.Store → List RunState
  list s =
      map (λ r. row_to_state r.0.row_key r.1)
        (t.query_entities (λ k e. str_eq k.partition_key "state") s)

  abbrev created : Option t.Store → Claim t.Store
  created none = refused
  created (some s') = claimed s'

  abbrev replaced : Update t.Store → Claim t.Store
  replaced (updated s') = claimed s'
  replaced (failed code) = if code == precondition_failed then refused else raised code

  -- `try_claim` from its read on: what it has read of the row, and then the table it writes to.
  unfoldable pub claim_read :
      (pipeline_id scope uuid action trigger : String)
      → ℕ
      → Option (StateRow × ℕ)
      → t.Store
      → Claim t.Store
  claim_read pipeline_id scope uuid action trigger dispatched_at none s = created (
      t.create_entity (state_key pipeline_id)
        (claim_columns empty_row scope uuid action trigger dispatched_at) s)
  claim_read pipeline_id scope uuid action trigger dispatched_at (some (entity, etag)) s =
      if truthy entity.active_instance_id
      then refused
      else replaced (
          t.update_entity (state_key pipeline_id)
            (claim_columns entity scope uuid action trigger dispatched_at) etag s)

  unfoldable pub try_claim :
      (pipeline_id scope uuid action trigger : String)
      → (dispatched_at : ℕ) → t.Store
      → Claim t.Store
  unfolding claim_read
  try_claim pipeline_id scope uuid action trigger dispatched_at s =
      claim_read pipeline_id scope uuid action trigger dispatched_at
        (t.get_entity (state_key pipeline_id) s) s

  unfoldable pub set_active_instance : (pipeline_id instance_id : String) → t.Store → t.Store
  set_active_instance pipeline_id instance_id s =
      t.upsert_merge (state_key pipeline_id)
        (record empty_row { active_instance_id = some instance_id }) s

  unfoldable pub clear_active :
      (pipeline_id : String) (outcome : Option String) (completed_at : Option ℕ) → t.Store → t.Store
  clear_active pipeline_id outcome completed_at s = elim (row t (state_key pipeline_id) s) [
    | none ↦ s
    | some entity ↦ t.upsert_replace (state_key pipeline_id) (cleared entity outcome completed_at) s
  ]

  unfoldable pub release_claim : (pipeline_id : String) → t.Store → t.Store
  unfolding clear_active
  release_claim pipeline_id s = clear_active pipeline_id none none s

  unfoldable pub close_run : (pipeline_id outcome : String) (completed_at : ℕ) → t.Store → t.Store
  unfolding clear_active
  close_run pipeline_id outcome completed_at s =
      clear_active pipeline_id (some outcome) (some completed_at) s

  -- LastTickAt and LastPrunedAt; `{}` where there is no marker row.
  unfoldable pub get_marker : t.Store → Option ℕ × Option ℕ
  get_marker s = elim (row t marker_key s) [
    | none ↦ (none, none)
    | some entity ↦ (entity.last_tick_at, entity.last_pruned_at)
  ]

  unfoldable pub record_tick : (tick_at : ℕ) (pruned_at : Option ℕ) → t.Store → t.Store
  record_tick tick_at pruned_at s =
      t.upsert_merge marker_key
        (record empty_row { last_tick_at = some tick_at; last_pruned_at = pruned_at }) s
