-- ===== src/Scheduler/Progress.antt =====
-- `_clamp01` and `normalize_progress` of services/data_collection/dispatcher.py.
pub mod Bounds
use Prim.Native.String.{◌++◌}
use az_capa.Prelude.{
  String, Bool, true, false, ◌||◌, ◌&&◌, Option, none, some, is_some, if◌then◌else◌,
}
use az_capa.Json.{Json, null, bool, int, float, str, arr, obj, Fields, Runtime, lookup}

-- The common shape of a progress report: how much is complete, from 0 to 1, and a label.
pub record Progress (F : Type 0) : Type 0 where
  pub complete : Option F
  pub label : Option String

module _ (rt : Runtime) where
  -- `max(0.0, min(1.0, x))`, with Python's choice between equal or unordered values.
  abbrev pub clamp : rt.Float → rt.Float
  clamp x =
      let low = if rt.less x rt.one_float then x else rt.one_float in
      if rt.less rt.zero_float low then low else rt.zero_float

  -- An absent key is `None` too. Booleans are integers for `isinstance`, and are kept out.
  unfoldable pub clamp01 : Option (Json rt.Float) → Option rt.Float
  clamp01 (some (int i)) = some (clamp (rt.of_int i))
  clamp01 (some (float x)) = some (clamp x)
  clamp01 _ = none

  abbrev label_text : Option (Json rt.Float) → Option String
  label_text (some (str s)) = some s
  label_text _ = none

  -- `_clamp01(percent / 100)` for a number that is no boolean.
  abbrev percent_complete : Option (Json rt.Float) → Option rt.Float
  percent_complete (some (int i)) = some (clamp (rt.percent_of_int i))
  percent_complete (some (float x)) = some (clamp (rt.percent_of_float x))
  percent_complete _ = none

  -- The text of a value for which `isinstance(value, int)` holds, booleans included.
  abbrev int_text : Option (Json rt.Float) → Option String
  int_text (some (int i)) = some (rt.show_int i)
  int_text (some (bool true)) = some "True"
  int_text (some (bool false)) = some "False"
  int_text _ = none

  abbrev count_label : Option String → Option String → Option String
  count_label (some completed) (some total) =
      some (completed ++ ("/" ++ (total ++ " subscriptions completed")))
  count_label _ _ = none

  abbrev normalize_fields : Fields rt.Float → Option (Progress rt.Float)
  normalize_fields fs =
      if is_some (lookup "complete" fs) || is_some (lookup "label" fs)
      then some (record {
        complete = clamp01 (lookup "complete" fs);
        label = label_text (lookup "label" fs);
      })
      else if is_some (lookup "percentCompleted" fs)
      then some (record {
        complete = percent_complete (lookup "percentCompleted" fs);
        label =
            count_label (int_text (lookup "completedSubscriptions" fs))
              (int_text (lookup "totalSubscriptions" fs));
      })
      else none

  unfoldable pub normalize_progress : Json rt.Float → Option (Progress rt.Float)
  unfolding clamp01
  normalize_progress (obj fs) = normalize_fields fs
  normalize_progress _ = none
