-- ===== src/ActivityLog/Projection.antt =====
-- services/activity_log/projection.py: the columns that a recipe derives from an event. Python's
-- `str.strip`, `str.lower` and `json.loads` are parameters; the compression of payloads, which is
-- gzip and JSON, is left out.
pub mod Columns
use Prim.Native.Char.{code}
use az_capa.Prelude.{
  String, Bool, true, false, ◌&&◌, ◌||◌, Option, none, some, List, [], ◌∷◌, str_eq, truthy,
  split_at, if◌then◌else◌, ◌==◌,
}
use az_capa.Json.{Json, null, bool, int, float, str, arr, obj, Fields, end, field, lookup}
use az_capa.ActivityLog.Recipes.Declared.{ProjectedField, Recipe}

-- What `json.loads` does on a text: a value, a ValueError, or another exception (a text nested
-- too deeply).
pub data Parsed (F : Type 0) : Type 0 where
  parsed : Json F → Parsed F
  malformed : Parsed F
  raised : Parsed F

-- What a path leads to: a value, `_MISSING`, or an exception.
pub data Resolved (F : Type 0) : Type 0 where
  found : Json F → Resolved F
  missing : Resolved F
  failed : Resolved F

pub record ProjectionResult (F : Type 0) : Type 0 where
  pub columns : Fields F
  pub reprojection_pending : Bool

-- `event.get("properties")`, null where there is none, and `event.get("status")`.
pub record Event (F : Type 0) : Type 0 where
  pub properties : Json F
  pub status : Option String

abbrev pub is_null : {F : Type 0} → Json F → Bool
is_null null = true
is_null _ = false

-- `d[k] = v`
abbrev pub put_field : {F : Type 0} → String → Json F → Fields F → Fields F
put_field k v end = field k v end
put_field k v (field j u fs) =
    let rest = put_field k v fs in if str_eq j k then field j v fs else field j u rest

-- `text[:1] in ("{", "[")`
abbrev pub opens_container : String → Bool
opens_container String.[] = false
opens_container (String.◌∷◌ c s) = code c == b'{' || code c == b'['

module _ {F : Type 0} (strip lower : String → String) (loads : String → Parsed F) where
  abbrev pub parsed_or : Json F → Parsed F → Resolved F
  parsed_or value (parsed j) = found j
  parsed_or value malformed = found value
  parsed_or value raised = failed

  -- `_coerce_container`, with `failed` for an exception that it does not catch.
  unfoldable pub coerce_container : Json F → Resolved F
  coerce_container (str s) =
      if opens_container (strip s) then parsed_or (str s) (loads (strip s)) else found (str s)
  coerce_container value = found value

  abbrev pub found_or_missing : Option (Json F) → Resolved F
  found_or_missing none = missing
  found_or_missing (some v) = found v

  abbrev pub entered : String → Resolved F → Resolved F
  entered segment (found (obj fs)) = found_or_missing (lookup segment fs)
  entered segment (found _) = missing
  entered segment missing = missing
  entered segment failed = failed

  abbrev pub then_descend : (Json F → Resolved F) → Resolved F → Resolved F
  then_descend next (found v) = next v
  then_descend next missing = missing
  then_descend next failed = failed

  unfoldable pub descend : List String → Json F → Resolved F
  unfolding coerce_container
  descend [] current = found current
  descend (segment ∷ rest) current =
      then_descend (λ v. descend rest v) (entered segment (coerce_container current))

  unfoldable pub resolve_path : Json F → String → Resolved F
  unfolding descend
  resolve_path properties path = descend (split_at b'.' path) properties

  abbrev pub status_matches : Option String → Option String → Bool
  status_matches none status = true
  status_matches (some on_status) none = false
  status_matches (some on_status) (some status) =
      truthy (some status) && str_eq (lower status) (lower on_status)

  -- A null and an absent value give no column.
  abbrev pub with_column : String → Resolved F → ProjectionResult F → ProjectionResult F
  with_column column missing r = r
  with_column column failed r = record r { reprojection_pending = true }
  with_column column (found v) r =
      if is_null v then r else record r { columns = put_field column v r.columns }

  unfoldable pub project_fields :
      Event F → List ProjectedField → ProjectionResult F → ProjectionResult F
  unfolding resolve_path
  project_fields event [] r = r
  project_fields event (spec ∷ specs) r = project_fields event specs (
      if status_matches spec.on_status event.status
      then with_column spec.column (resolve_path event.properties spec.path) r
      else r)

  unfoldable pub project : Event F → Recipe → ProjectionResult F
  unfolding project_fields
  project event recipe =
      project_fields event recipe.projected_fields
        (record { columns = end; reprojection_pending = false })
