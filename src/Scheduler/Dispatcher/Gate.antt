-- ===== src/Scheduler/Dispatcher/Gate.antt =====
-- The concurrency gate, the start point and the completion of runs:
-- `scope_busy`, `active_operation`, `start`, `_reconcile_terminal` and `record_outcome` of
-- services/data_collection/dispatcher.py.
pub mod Answers
pub mod Counts
pub mod Starts
use text.Mathlib.Text.{starts_with}
use az_capa.Prelude.{
  ℕ, String, Bool, true, false, not, ◌&&◌, ◌||◌, Option, none, some, str_eq, truthy, if◌then◌else◌,
}
use az_capa.Json.{Json, is_true}
use az_capa.Scheduler.Registry.{try_get}
use az_capa.Scheduler.Registry.Descriptor.{PipelineDescriptor}
use az_capa.Scheduler.StateStore.{placeholder_prefix, RunState}
use az_capa.Scheduler.StateStore
use az_capa.Scheduler.HistoryStore
use az_capa.Scheduler.Dispatcher.Effects.{
  Error, unknown_pipeline, unsupported_flush, no_orchestrator, Result, returned, raised, RunStatus,
  is_terminal, Env, World, Method, pure, raise, ◌>>=◌, ◌>>◌, try_except, now, get_status, start_new,
  on_state, on_history, read_state, try_claim, open_row,
}
use az_capa.Scheduler.Dispatcher.Config.{EffectiveConfig, effective_config}

abbrev pub refresh : String
refresh = "refresh"

abbrev pub flush : String
flush = "flush"

abbrev pub scheduled : String
scheduled = "scheduled"

pub data StartStatus : Type 0 where
  started busy disabled : StartStatus

abbrev pub is_started : StartStatus → Bool
is_started started = true
is_started _ = false

pub record StartResult : Type 0 where
  pub status : StartStatus
  pub instance_id : Option String

module _ {F : Type 0} where
  unfoldable pub outcome_from_status : Option (RunStatus F) → String
  outcome_from_status none = "failed"
  outcome_from_status (some status) =
      if str_eq status.runtime_status "Completed" then "completed" else "failed"

  -- `status is None or status.is_terminal`
  abbrev pub is_over : Option (RunStatus F) → Bool
  is_over none = true
  is_over (some status) = is_terminal status

abbrev pub is_placeholder : String → Bool
is_placeholder active = starts_with active placeholder_prefix

abbrev pub active_of : Option RunState → Option String
active_of none = none
active_of (some state) = state.active_instance_id

abbrev pub action_of : Option RunState → Option String
action_of none = none
action_of (some state) = state.active_action

module _ (env : Env) where
  abbrev summary_of : Option (RunStatus env.rt.Float) → Option (Json env.rt.Float)
  summary_of none = none
  summary_of (some status) =
      if is_true env.rt.is_zero status.output then some status.output else none

  -- Both closings: the history rows of the instance, then the run state of the pipeline.
  unfoldable pub record_outcome :
      (pipeline_id instance_id outcome : String)
      → Option (Json env.rt.Float)
      → Method env (Unit {0})
  record_outcome pipeline_id instance_id outcome summary = do
    at ← now env
    on_history env (
        HistoryStore.close_by_instance env.histories env.rt pipeline_id instance_id outcome at
          summary)
    on_state env (StateStore.close_run env.states pipeline_id outcome at)

  unfoldable pub reconcile_terminal :
      (pipeline_id instance_id : String) → Option (RunStatus env.rt.Float) → Method env (Unit {0})
  unfolding outcome_from_status
  reconcile_terminal pipeline_id instance_id status = do
    at ← now env
    on_history env (
        HistoryStore.close_by_instance env.histories env.rt pipeline_id instance_id
          (outcome_from_status status) at (summary_of status))
    on_state env (StateStore.close_run env.states pipeline_id (outcome_from_status status) at)

  -- The gate over the active instance that the state holds.
  unfoldable pub instance_busy : (pipeline_id : String) → Option String → Method env Bool
  unfolding reconcile_terminal
  instance_busy pipeline_id none = pure false
  instance_busy pipeline_id (some active) =
      if str_eq active "" then pure false else if is_placeholder active then pure true else do
        status ← get_status env active
        if is_over status
            then (do reconcile_terminal pipeline_id active status; pure false)
            else pure true

  unfoldable pub scope_busy : (pipeline_id : String) → Method env Bool
  unfolding instance_busy
  scope_busy pipeline_id = do
    state ← read_state env (StateStore.get env.states pipeline_id)
    instance_busy pipeline_id (active_of state)

  abbrev hidden : Option String → Option String
  hidden none = none
  hidden (some active) = if is_placeholder active then none else some active

  -- (in progress, action, instance)
  unfoldable pub active_operation :
      (pipeline_id : String) → Method env (Bool × Option String × Option String)
  unfolding scope_busy
  active_operation pipeline_id = do
    is_busy ← scope_busy pipeline_id
    if not is_busy then pure (false, none, none) else (do
      state ← read_state env (StateStore.get env.states pipeline_id)
      pure (true, action_of state, hidden (active_of state)))

  abbrev answer : StartStatus → Option String → Method env StartResult
  answer status instance_id = pure (record { status = status; instance_id = instance_id })

  -- `start` from the claim on, for a scope that the gate found free.
  unfoldable pub launch :
      (d : PipelineDescriptor) (orchestrator action trigger : String) → Method env StartResult
  launch d orchestrator action trigger = do
    at ← now env
    won ← try_claim env d.id d.scope action trigger at
    if not won then answer busy none else (do
      instance_id ←
          try_except (start_new env orchestrator)
            (λ e. do on_state env (StateStore.release_claim env.states d.id); raise e)
      on_state env (StateStore.set_active_instance env.states d.id instance_id)
      open_row env d.id action trigger at instance_id
      answer started (some instance_id))

  -- `start` once the orchestrator is known.
  unfoldable pub start_orchestrator :
      (d : PipelineDescriptor) (orchestrator action trigger : String) → Method env StartResult
  unfolding launch scope_busy
  start_orchestrator d orchestrator action trigger = do
    config ← effective_config env d
    if str_eq action refresh && (str_eq trigger scheduled && not config.enabled)
        then answer disabled none
        else (do
          occupied ← scope_busy d.id
          if occupied then answer busy none else launch d orchestrator action trigger)

  abbrev pub orchestrator_for : PipelineDescriptor → String → Option String
  orchestrator_for d action =
      if str_eq action refresh then some d.refresh_orchestrator else d.flush_orchestrator

  abbrev start_with :
      PipelineDescriptor → Option String → (action trigger : String) → Method env StartResult
  start_with d none action trigger = raise no_orchestrator
  start_with d (some orchestrator) action trigger = start_orchestrator d orchestrator action trigger

  abbrev start_descriptor :
      Option PipelineDescriptor → (action trigger : String) → Method env StartResult
  start_descriptor none action trigger = raise unknown_pipeline
  start_descriptor (some d) action trigger =
      if str_eq action flush && not d.supports_flush
      then raise unsupported_flush
      else start_with d (orchestrator_for d action) action trigger

  unfoldable pub start : (pipeline_id action trigger : String) → Method env StartResult
  unfolding start_orchestrator
  start pipeline_id action trigger = start_descriptor (try_get pipeline_id) action trigger
