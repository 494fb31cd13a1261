-- ===== src/Scheduler/Dispatcher/Notifications.antt =====
-- The notifications feed of services/data_collection/dispatcher.py: `notifications` and
-- `_notification_item`. A moment stands for its ISO text, which orders the same way.
use Prim.Native.String.{◌++◌ as concat}
use az_capa.Prelude.{
  ℕ, ◌-◌, ◌/◌, String, Bool, true, false, Option, none, some, List, [], ◌∷◌, get_or, ◌++◌, str_eq,
  opt_eq, contains, ltb, if◌then◌else◌,
}
use az_capa.Prelude.Int.{ℤ, sub_ℕ}
use az_capa.Json.{Json, obj}
use az_capa.Scheduler.Cadence.{second}
use az_capa.Scheduler.Registry.{try_get}
use az_capa.Scheduler.Registry.Descriptor.{PipelineDescriptor}
use az_capa.Scheduler.HistoryStore.{Run, running}
use az_capa.Scheduler.HistoryStore
use az_capa.Scheduler.Dispatcher.Effects.{
  RunStatus, Env, Method, pure, ◌>>=◌, ◌>>◌, now, get_status, read_history,
}
use az_capa.Scheduler.Dispatcher.Gate.{is_over, reconcile_terminal}

pub record Item (F : Type 0) : Type 0 where
  pub instance_id : Option String
  pub kind : String
  pub section_label : String
  pub operation : String
  pub label : String
  pub runtime_status : String
  pub is_running : Bool
  pub created_time : Option ℕ
  pub last_updated_time : Option ℕ
  pub started_since_seconds : Option ℤ
  pub duration_seconds : Option ℤ
  pub completed_on : Option ℕ
  pub progress : Option (Json F)

-- `int((b - a).total_seconds())`, which rounds towards zero.
unfoldable pub seconds_between : ℕ → ℕ → ℤ
seconds_between a b = sub_ℕ ((b - a) / second) ((a - b) / second)

abbrev elapsed : Bool → Option ℕ → Option ℕ → Option ℤ
elapsed true (some a) (some b) = some (seconds_between a b)
elapsed _ _ _ = none

abbrev only_if : {A : Type 0} → Bool → Option A → Option A
only_if true o = o
only_if false o = none

abbrev not_running : Bool → Bool
not_running true = false
not_running false = true

abbrev section_of : Option PipelineDescriptor → String → String
section_of none pipeline = pipeline
section_of (some d) pipeline = d.label

abbrev dict_only : {F : Type 0} → Option (Json F) → Option (Json F)
dict_only (some (obj fs)) = some (obj fs)
dict_only _ = none

module _ (env : Env) where
  unfoldable pub notification_item :
      (run : Run env.rt.Float) (runtime_status : String) (is_running : Bool)
      (progress : Option (Json env.rt.Float)) (completed_at : Option ℕ) (at : ℕ)
      → Item env.rt.Float
  unfolding seconds_between
  notification_item run runtime_status is_running progress completed_at at =
      let section_text = section_of (try_get run.pipeline) run.pipeline in
      let operation = env.capitalize (get_or run.action "") in
      record {
        instance_id = run.instance_id;
        kind = run.pipeline;
        section_label = section_text;
        operation = operation;
        label =
            if str_eq operation ""
            then section_text
            else concat section_text (concat " — " operation);
        runtime_status = runtime_status;
        is_running = is_running;
        created_time = run.started_at;
        last_updated_time = only_if (not_running is_running) completed_at;
        started_since_seconds = elapsed is_running run.started_at (some at);
        duration_seconds = elapsed (not_running is_running) run.started_at completed_at;
        completed_on = only_if (not_running is_running) completed_at;
        progress = dict_only progress;
      }

  -- `items.sort(key=…, reverse=True)` keeps the order of equal items; an item with no time has the
  -- least key.
  abbrev pub newer : Option ℕ → Option ℕ → Bool
  newer none b = false
  newer (some a) none = true
  newer (some a) (some b) = ltb b a

  pub insert_item : Item env.rt.Float → List (Item env.rt.Float) → List (Item env.rt.Float)
  insert_item x [] = x ∷ []
  insert_item x (y ∷ ys) =
      if newer y.created_time x.created_time then y ∷ insert_item x ys else x ∷ (y ∷ ys)

  pub sort_items : List (Item env.rt.Float) → List (Item env.rt.Float)
  sort_items [] = []
  sort_items (x ∷ xs) = insert_item x (sort_items xs)

  abbrev status_if : Option String → Method env (Option (RunStatus env.rt.Float))
  status_if none = pure none
  status_if (some id) = if str_eq id "" then pure none else get_status env id

  abbrev printed : Option String → String
  printed none = "None"
  printed (some id) = id

  abbrev runtime_or_terminated : Option (RunStatus env.rt.Float) → String
  runtime_or_terminated none = "Terminated"
  runtime_or_terminated (some status) = status.runtime_status

  abbrev custom_of : Option (RunStatus env.rt.Float) → Option (Json env.rt.Float)
  custom_of none = none
  custom_of (some status) = some status.custom_status

  unfoldable pub running_item : (at : ℕ) → Run env.rt.Float → Method env (Item env.rt.Float)
  unfolding notification_item reconcile_terminal
  running_item at run = do
    status ← status_if run.instance_id
    if is_over status
        then (do
          reconcile_terminal env run.pipeline (printed run.instance_id) status
          pure (notification_item run (runtime_or_terminated status) false none (some at) at))
        else pure
            (notification_item run (runtime_or_terminated status) true (custom_of status) none at)

  pub running_items : (at : ℕ) → List (Run env.rt.Float) → Method env (List (Item env.rt.Float))
  unfolding running_item
  running_items at [] = pure []
  running_items at (run ∷ runs) = do
    item ← running_item at run
    items ← running_items at runs
    pure (item ∷ items)

  -- The ids that `notifications` adds to `seen`: those that are not empty.
  abbrev seen_of : Option String → List String → List String
  seen_of none seen = seen
  seen_of (some id) seen = if str_eq id "" then seen else id ∷ seen

  pub seen_ids : List (Run env.rt.Float) → List String
  seen_ids [] = []
  seen_ids (run ∷ runs) = seen_of run.instance_id (seen_ids runs)

  -- `_DISPLAY_RUNTIME.get(status, "Completed")`
  abbrev display_runtime : Option String → String
  display_runtime status = if opt_eq status "failed" then "Failed" else "Completed"

  abbrev was_seen : List String → Option String → Bool
  was_seen seen none = false
  was_seen seen (some id) = contains seen id

  pub recent_items :
      (at : ℕ) (seen : List String) → List (Run env.rt.Float) → List (Item env.rt.Float)
  unfolding notification_item
  recent_items at seen [] = []
  recent_items at seen (run ∷ runs) =
      let rest = recent_items at seen runs in
      if opt_eq run.status running
      then rest
      else if was_seen seen run.instance_id
      then rest
      else notification_item run (display_runtime run.status) false none run.completed_at at ∷ rest

  unfoldable pub notifications : (since : ℕ) → Method env (List (Item env.rt.Float))
  unfolding running_items recent_items sort_items insert_item seen_ids
  notifications since = do
    at ← now env
    live_rows ← read_history env (HistoryStore.list_running env.histories env.rt)
    live ← running_items at live_rows
    recent ← read_history env (HistoryStore.list_recent env.histories env.rt since)
    pure (sort_items (live ++ recent_items at (seen_ids live_rows) recent))
