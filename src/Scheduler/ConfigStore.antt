-- ===== src/Scheduler/ConfigStore.antt =====
-- storage/scheduler_config_store.py. `UpdatedBy` holds a JSON text; `Enabled` and the numbers are
-- what `bool` and `int` give, so they are typed.
pub mod Clear
pub mod Editors
pub mod Revisions
use az_capa.Prelude.{
  ℕ, zero, suc, ◌+◌, String, Bool, true, false, not, ◌&&◌, Option, none, some, get_or, List, [],
  ◌∷◌, map, str_eq, if◌then◌else◌, ◌==◌,
}
use az_capa.Prelude.Int.{ℤ}
use az_capa.Json.{Json, Runtime}
use az_capa.Table.{Key, key, Update, updated, failed, precondition_failed, Table, row}

pub record ConfigRow : Type 0 where
  pub enabled : Option Bool
  pub frequency_seconds : Option ℤ
  pub anchor_seconds : Option ℤ
  pub revision : Option ℕ
  pub updated_at : Option ℕ
  pub updated_by : Option String

-- The store never merges: a given row takes the place of the old one.
abbrev pub replace_config : ConfigRow → ConfigRow → ConfigRow
replace_config old new = new

pub record Config (F : Type 0) : Type 0 where
  pub pipeline : String
  pub enabled : Option Bool
  pub frequency_seconds : Option ℤ
  pub anchor_seconds : Option ℤ
  pub revision : Option ℕ
  pub updated_at : Option ℕ
  pub updated_by : Option (Json F)

abbrev pub config_key : String → Key
config_key pipeline_id = key "config" pipeline_id

abbrev loaded : (rt : Runtime) → Option String → Option (Json rt.Float)
loaded rt none = none
loaded rt (some s) = if str_eq s "" then none else some (rt.loads s)

abbrev pub row_to_config : (rt : Runtime) → String → ConfigRow → Config rt.Float
row_to_config rt row_key entity = record {
  pipeline = row_key;
  enabled = entity.enabled;
  frequency_seconds = entity.frequency_seconds;
  anchor_seconds = entity.anchor_seconds;
  revision = entity.revision;
  updated_at = entity.updated_at;
  updated_by = loaded rt entity.updated_by;
}

-- The values of an edit, without its revision.
pub record Edit (F : Type 0) : Type 0 where
  pub enabled : Bool
  pub frequency_seconds : ℤ
  pub anchor_seconds : ℤ
  pub updated_by : Json F
  pub updated_at : ℕ

abbrev pub build_entity : (rt : Runtime) → Edit rt.Float → (revision : ℕ) → ConfigRow
build_entity rt edit revision = record {
  enabled = some edit.enabled;
  frequency_seconds = some edit.frequency_seconds;
  anchor_seconds = some edit.anchor_seconds;
  revision = some revision;
  updated_at = some edit.updated_at;
  updated_by = some (rt.dumps edit.updated_by);
}

-- What `patch` answers: the row with the new table, SchedulerConfigConflictError, or the
-- HttpResponseError that it passes on.
pub data Patched (S C : Type 0) : Type 0 where
  patched : S → C → Patched S C
  conflict : Patched S C
  raised : ℕ → Patched S C

-- `expected_revision not in (None, 0)`
abbrev pub names_revision : Option ℕ → Bool
names_revision none = false
names_revision (some n) = not (n == 0)

-- `expected_revision is None or int(expected_revision) != current_revision`
abbrev pub is_stale : Option ℕ → ℕ → Bool
is_stale none current = true
is_stale (some n) current = not (n == current)

module _ (rt : Runtime) (t : Table ConfigRow) where
  unfoldable pub get : (pipeline_id : String) → t.Store → Option (Config rt.Float)
  get pipeline_id s = elim (row t (config_key pipeline_id) s) [
    | none ↦ none
    | some entity ↦ some (row_to_config rt pipeline_id entity)
  ]

  unfoldable pub list : t.Store → List (Config rt.Float)
  list s =
      map (λ r. row_to_config rt r.0.row_key r.1)
        (t.query_entities (λ k e. str_eq k.partition_key "config") s)

  -- The loop of `clear`, with its count.
  pub clear_rows : List (Key × ConfigRow) → t.Store → t.Store × ℕ
  clear_rows [] s = (s, 0)
  clear_rows ((k, e) ∷ rows) s =
      let (s', cleared) = clear_rows rows (t.delete_entity (config_key k.row_key) s) in
      (s', suc cleared)

  unfoldable pub clear : t.Store → t.Store × ℕ
  unfolding clear_rows
  clear s = clear_rows (t.query_entities (λ k e. str_eq k.partition_key "config") s) s

  abbrev created : String → ConfigRow → Option t.Store → Patched t.Store (Config rt.Float)
  created pipeline_id entity none = conflict
  created pipeline_id entity (some s') = patched s' (row_to_config rt pipeline_id entity)

  abbrev replaced : String → ConfigRow → Update t.Store → Patched t.Store (Config rt.Float)
  replaced pipeline_id entity (updated s') = patched s' (row_to_config rt pipeline_id entity)
  replaced pipeline_id entity (failed code) =
      if code == precondition_failed then conflict else raised code

  -- `patch` from its read on: what it has read of the row, and then the table it writes to.
  unfoldable pub patch_read :
      (pipeline_id : String) (edit : Edit rt.Float) (expected_revision : Option ℕ)
      → Option (ConfigRow × ℕ)
      → t.Store
      → Patched t.Store (Config rt.Float)
  patch_read pipeline_id edit expected_revision none s =
      if names_revision expected_revision
      then conflict
      else let entity = build_entity rt edit 1 in
        created pipeline_id entity (t.create_entity (config_key pipeline_id) entity s)
  patch_read pipeline_id edit expected_revision (some (existing, etag)) s =
      let current_revision = get_or existing.revision 0 in
      if is_stale expected_revision current_revision
      then conflict
      else let entity = build_entity rt edit (current_revision + 1) in
        replaced pipeline_id entity (t.update_entity (config_key pipeline_id) entity etag s)

  unfoldable pub patch :
      (pipeline_id : String) (edit : Edit rt.Float) (expected_revision : Option ℕ)
      → t.Store
      → Patched t.Store (Config rt.Float)
  unfolding patch_read
  patch pipeline_id edit expected_revision s =
      patch_read pipeline_id edit expected_revision (t.get_entity (config_key pipeline_id) s) s
