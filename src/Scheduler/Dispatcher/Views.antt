-- ===== src/Scheduler/Dispatcher/Views.antt =====
-- What services/data_collection/dispatcher.py gives the pages: `list_pipelines`,
-- `pipeline_status` and `run_history`; and `delete_run` and `clear_terminal_runs`. A moment stands
-- for its ISO text.

use az_capa.Prelude.{
  ℕ, ◌+◌, ◌*◌, String, Bool, true, false, ◌&&◌, ◌||◌, Option, none, some, List, [], ◌∷◌, str_eq,
  opt_eq, any, length, get_last?, leb, if◌then◌else◌,
}
use az_capa.Prelude.Int.{pos, ltb_ℤ, pos_part}
use az_capa.Json.{Json, obj}
use az_capa.Scheduler.Cadence.{second}
use az_capa.Scheduler.Progress.{Progress, normalize_progress}
use az_capa.Scheduler.Registry.{all_descriptors, try_get}
use az_capa.Scheduler.Registry.Descriptor.{PipelineDescriptor}
use az_capa.Scheduler.StateStore.{RunState}
use az_capa.Scheduler.StateStore
use az_capa.Scheduler.HistoryStore.{Run, running}
use az_capa.Scheduler.HistoryStore
use az_capa.Scheduler.Dispatcher.Effects.{
  unknown_pipeline, RunStatus, Env, Method, pure, raise, ◌>>=◌, ◌>>◌, now, get_status, on_history,
  read_state, read_history,
}
use az_capa.Scheduler.Dispatcher.Config.{EffectiveConfig, effective_config}
use az_capa.Scheduler.Dispatcher.Gate.{
  is_over, is_placeholder, active_of, outcome_from_status, reconcile_terminal,
}

-- One row of the table of pipelines, and the envelope of a pipeline's status.
pub record Summary (F : Type 0) : Type 0 where
  pub descriptor : PipelineDescriptor
  pub config : EffectiveConfig
  pub last_dispatched_at : Option ℕ
  pub last_trigger : Option String
  pub last_outcome : Option String
  pub last_completed_at : Option ℕ
  pub running : Bool
  pub next_due_at : Option ℕ
  pub progress : Option (Progress F)

abbrev pub column : {A : Type 0} → (RunState → Option A) → Option RunState → Option A
column f none = none
column f (some state) = f state

unfoldable pub next_due : EffectiveConfig → Option ℕ → Option ℕ
next_due config none = none
next_due config (some last) =
    if config.enabled && ltb_ℤ (pos 0) config.frequency_seconds
    then some (last + pos_part config.frequency_seconds * second)
    else none

abbrev pub progress_of :
    (env : Env) → Option (RunStatus env.rt.Float) → Option (Progress env.rt.Float)
progress_of env none = none
progress_of env (some status) = normalize_progress env.rt status.custom_status

module _ (env : Env) where
  -- (running, progress, state): a terminal instance is reconciled, and the state is read anew.
  abbrev live :
      (pipeline_id : String)
      → Option RunState
      → Option String
      → Method env (Bool × Option (Progress env.rt.Float) × Option RunState)
  live pipeline_id state none = pure (false, none, state)
  live pipeline_id state (some active) =
      if str_eq active "" || is_placeholder active then pure (false, none, state) else do
        status ← get_status env active
        if is_over status
            then (do
              reconcile_terminal env pipeline_id active status
              state' ← read_state env (StateStore.get env.states pipeline_id)
              pure (false, none, state'))
            else pure (true, progress_of env status, state)

  -- The part that `list_pipelines` and `pipeline_status` share.
  unfoldable pub summarize : PipelineDescriptor → Method env (Summary env.rt.Float)
  unfolding effective_config reconcile_terminal next_due
  summarize d = do
    config ← effective_config env d
    state ← read_state env (StateStore.get env.states d.id)
    (running, progress, state') ← live d.id state (active_of state)
    pure (record {
      descriptor = d;
      config = config;
      last_dispatched_at = column (λ s. s.last_dispatched_at) state';
      last_trigger = column (λ s. s.last_trigger) state';
      last_outcome = column (λ s. s.last_outcome) state';
      last_completed_at = column (λ s. s.last_completed_at) state';
      running = running;
      next_due_at = next_due config (column (λ s. s.last_dispatched_at) state');
      progress = progress;
    })

  pub summarize_all : List PipelineDescriptor → Method env (List (Summary env.rt.Float))
  unfolding summarize
  summarize_all [] = pure []
  summarize_all (d ∷ ds) = do
    summary ← summarize d
    summaries ← summarize_all ds
    pure (summary ∷ summaries)

  unfoldable pub list_pipelines : Method env (List (Summary env.rt.Float))
  unfolding summarize_all
  list_pipelines = summarize_all all_descriptors

  abbrev status_of :
      Option PipelineDescriptor
      → (detail : Json env.rt.Float) → Method env (Summary env.rt.Float × Json env.rt.Float)
  status_of none detail = raise unknown_pipeline
  status_of (some d) detail = do summary ← summarize d; pure (summary, detail)

  unfoldable pub pipeline_status :
      (pipeline_id : String) (detail : Json env.rt.Float)
      → Method env (Summary env.rt.Float × Json env.rt.Float)
  unfolding summarize
  pipeline_status pipeline_id detail = status_of (try_get pipeline_id) detail

  -- A terminal status in the answer of `run_history`; `Terminated` where Durable has none.
  abbrev runtime_or_terminated : Option (RunStatus env.rt.Float) → String
  runtime_or_terminated none = "Terminated"
  runtime_or_terminated (some status) = status.runtime_status

  abbrev dict_output : Option (RunStatus env.rt.Float) → Option (Json env.rt.Float)
  dict_output none = none
  dict_output (some status) = elim status.output [ obj fs ↦ some (obj fs) | _ ↦ none ]

  -- `get_status(instance_id) if instance_id else None`
  abbrev status_if : Option String → Method env (Option (RunStatus env.rt.Float))
  status_if instance_id = elim instance_id [
    | none ↦ pure none
    | some id ↦ if str_eq id "" then pure none else get_status env id
  ]

  -- What an f-string prints for an instance that may be `None`.
  abbrev printed : Option String → String
  printed none = "None"
  printed (some id) = id

  pub record RunView : Type 0 where
    pub run : Run env.rt.Float
    pub runtime_status : Option String
    pub progress : Option (Progress env.rt.Float)

  abbrev stored_view : Run env.rt.Float → RunView
  stored_view run = record { run = run; runtime_status = none; progress = none }

  unfoldable pub run_view : (pipeline_id : String) → Run env.rt.Float → Method env RunView
  unfolding reconcile_terminal outcome_from_status
  run_view pipeline_id run =
      if opt_eq run.status running
      then (do
        live ← status_if run.instance_id
        if is_over live
            then (do
              reconcile_terminal env pipeline_id (printed run.instance_id) live
              at ← now env
              pure (record {
                run = record run {
                  status = some (outcome_from_status live);
                  completed_at = some at;
                  summary = dict_output live;
                };
                runtime_status = some (runtime_or_terminated live);
                progress = none;
              }))
            else pure (record {
              run = record run { completed_at = none; summary = none };
              runtime_status = some (runtime_or_terminated live);
              progress = progress_of env live;
            }))
      else pure (stored_view run)

  pub run_views : (pipeline_id : String) → List (Run env.rt.Float) → Method env (List RunView)
  unfolding run_view
  run_views pipeline_id [] = pure []
  run_views pipeline_id (run ∷ runs) = do
    view ← run_view pipeline_id run
    views ← run_views pipeline_id runs
    pure (view ∷ views)

  -- `rows[-1]["rowKey"] if len(rows) >= limit and rows else None`
  abbrev next_continuation : (limit : ℕ) → List (Run env.rt.Float) → Option String
  next_continuation limit rows =
      if leb limit (length rows)
      then elim (get_last? rows) [ none ↦ none | some run ↦ some run.row_key ]
      else none

  unfoldable pub run_history :
      (pipeline_id : String) (limit : ℕ) (after : Option String)
      → Method env (List RunView × Option String)
  unfolding run_views
  run_history pipeline_id limit after = do
    rows ←
        read_history env
          (HistoryStore.list_by_pipeline env.histories env.rt env.text_less pipeline_id limit after)
    views ← run_views pipeline_id rows
    pure (views, next_continuation limit rows)

  -- `delete_run` answers "not_found", "running" or "deleted".
  pub reconcile_running :
      (instance_id : String)
      → Option (RunStatus env.rt.Float)
      → List (Run env.rt.Float)
      → Method env (Unit {0})
  reconcile_running instance_id status [] = pure tt
  reconcile_running instance_id status (run ∷ runs) = do
    if opt_eq run.status running
        then reconcile_terminal env run.pipeline instance_id status
        else pure tt
    reconcile_running instance_id status runs

  abbrev delete_rows_of : (instance_id : String) → Method env String
  delete_rows_of instance_id = do
    on_history env (HistoryStore.delete_by_instance env.histories instance_id)
    pure "deleted"

  abbrev any_running : List (Run env.rt.Float) → Bool
  any_running rows = any (λ run. opt_eq run.status running) rows

  unfoldable pub delete_run : (instance_id : String) → Method env String
  unfolding reconcile_running reconcile_terminal
  delete_run instance_id = do
    rows ← read_history env (HistoryStore.rows_for_instance env.histories env.rt instance_id)
    elim rows [
      | [] ↦ pure "not_found"
      | run ∷ runs ↦
          if any_running (run ∷ runs)
          then (do
            status ← get_status env instance_id
            if is_over status
                then (do
                  reconcile_running instance_id status (run ∷ runs)
                  delete_rows_of instance_id)
                else pure "running")
          else delete_rows_of instance_id
    ]

  unfoldable pub clear_terminal_runs : Method env ℕ
  clear_terminal_runs = on_history env (HistoryStore.delete_terminal env.histories)
