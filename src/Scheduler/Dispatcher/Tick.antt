-- ===== src/Scheduler/Dispatcher/Tick.antt =====
-- The per-tick scheduler of services/data_collection/dispatcher.py: `tick`, `_dispatch_one`,
-- `_contention_blocked`, `_reconcile_state` and `_maybe_prune`.
pub mod Dispatch
pub mod Launches
pub mod Reconcile
pub mod Whole
use az_capa.Prelude.{
  ℕ, ◌+◌, ◌-◌, ◌*◌, String, Bool, true, false, not, ◌&&◌, Option, none, some, List, [], ◌∷◌, str_eq,
  opt_eq, contains, ltb, leb, if◌then◌else◌,
}
use az_capa.Scheduler.Cadence.{second, is_due}
use az_capa.Scheduler.Registry.{all_descriptors}
use az_capa.Scheduler.Registry.Descriptor.{PipelineDescriptor}
use az_capa.Scheduler.StateStore.{RunState}
use az_capa.Scheduler.StateStore
use az_capa.Scheduler.HistoryStore
use az_capa.Scheduler.Dispatcher.Effects.{
  Error, zero_division, Result, returned, raised, Env, World, Method, pure, raise, ◌>>=◌, ◌>>◌,
  isolated, now, get_status, on_state, on_history, read_state,
}
use az_capa.Scheduler.Dispatcher.Config.{EffectiveConfig, effective_config}
use az_capa.Scheduler.Dispatcher.Gate.{
  StartStatus, started, busy, disabled, StartResult, is_started, is_over, is_placeholder, refresh,
  scheduled, scope_busy, reconcile_terminal, start,
}

abbrev dispatched_of : Option RunState → Option ℕ
dispatched_of none = none
dispatched_of (some state) = state.last_dispatched_at

abbrev pub day : ℕ
day = 86400 * second

-- `last_pruned is not None and (now - last_pruned) < timedelta(days=1)`
abbrev pub pruned_lately : Option ℕ → ℕ → Bool
pruned_lately none at = false
pruned_lately (some last) at = ltb at (last + day)

abbrev pub groups_after : Bool → PipelineDescriptor → List String → List String
groups_after false d groups = groups
groups_after true d groups = elim d.contention_group [ none ↦ groups | some group ↦ group ∷ groups ]

-- `group is None or group not in started_groups`
abbrev pub group_free : Option String → List String → Bool
group_free none groups = true
group_free (some group) groups = not (contains groups group)

-- `cap > 0 and started_count >= cap`
abbrev pub at_cap : (cap started_count : ℕ) → Bool
at_cap cap started_count = ltb 0 cap && leb cap started_count

module _ (env : Env) where
  abbrev due : Option Bool → Method env Bool
  due none = raise zero_division
  due (some b) = pure b

  -- A placeholder is skipped: an in-flight claim must not be cleared by the tick.
  abbrev reconcile_active : String → Option String → Method env (Unit {0})
  reconcile_active pipeline_id none = pure tt
  reconcile_active pipeline_id (some active) =
      if str_eq active "" then pure tt else if is_placeholder active then pure tt else do
        status ← get_status env active
        if is_over status then reconcile_terminal env pipeline_id active status else pure tt

  unfoldable pub reconcile_state : RunState → Method env (Unit {0})
  unfolding reconcile_terminal
  reconcile_state state = reconcile_active state.pipeline state.active_instance_id

  -- The loop of `_contention_blocked` over the other pipelines of the group.
  pub any_busy : (id group : String) → List PipelineDescriptor → Method env Bool
  any_busy id group [] = pure false
  any_busy id group (other ∷ others) =
      let rest = any_busy id group others in
      if not (str_eq other.id id) && opt_eq other.contention_group group
      then (do occupied ← scope_busy env other.id; if occupied then pure true else rest)
      else rest

  abbrev group_blocked :
      PipelineDescriptor → (group : Option String) (started_groups : List String) → Method env Bool
  group_blocked d none started_groups = pure false
  group_blocked d (some group) started_groups =
      if contains started_groups group then pure true else any_busy d.id group all_descriptors

  unfoldable pub contention_blocked :
      PipelineDescriptor → (started_groups : List String) → Method env Bool
  unfolding any_busy
  contention_blocked d started_groups = group_blocked d d.contention_group started_groups

  unfoldable pub dispatch_one :
      PipelineDescriptor → (at : ℕ) (started_groups : List String) → Method env Bool
  unfolding effective_config scope_busy contention_blocked start
  dispatch_one d at started_groups = do
    config ← effective_config env d
    if not config.enabled then pure false else (do
      state ← read_state env (StateStore.get env.states d.id)
      is_now ← due (is_due at (dispatched_of state) config.anchor_seconds config.frequency_seconds)
      if not is_now then pure false else (do
        occupied ← scope_busy env d.id
        if occupied then pure false else (do
          blocked ← contention_blocked d started_groups
          if blocked then pure false else (do
            result ← start env d.id refresh scheduled
            pure (is_started result.status)))))

  pub reconcile_all : List RunState → Method env (Unit {0})
  reconcile_all [] = pure tt
  reconcile_all (state ∷ states) = do isolated tt (reconcile_state state); reconcile_all states

  -- The loop of the dispatch: an exception of one pipeline is logged, and the next one follows.
  pub dispatch_all :
      (at : ℕ)
      → List PipelineDescriptor
      → (started_groups : List String) (started_count : ℕ) → Method env (Unit {0})
  dispatch_all at [] started_groups started_count = pure tt
  dispatch_all at (d ∷ ds) started_groups started_count =
      if at_cap env.max_dispatch_per_tick started_count then pure tt else do
        did_start ← isolated false (dispatch_one d at started_groups)
        dispatch_all at ds (groups_after did_start d started_groups)
            (if did_start then started_count + 1 else started_count)

  -- Moments are not before 1970, so that the subtraction that stops at 0 selects the same rows.
  unfoldable pub maybe_prune : (at : ℕ) → Method env (Option ℕ)
  maybe_prune at = do
    marker ← read_state env (StateStore.get_marker env.states)
    if pruned_lately marker.1 at then pure none else (do
      on_history env (HistoryStore.prune env.histories (at - env.history_retention_days * day))
      pure (some at))

  unfoldable pub tick : Method env (Unit {0})
  unfolding reconcile_all dispatch_all maybe_prune
  tick = do
    at ← now env
    states ← read_state env (StateStore.list env.states)
    reconcile_all states
    dispatch_all at all_descriptors [] 0
    pruned_at ← isolated none (maybe_prune at)
    on_state env (StateStore.record_tick env.states at pruned_at)
