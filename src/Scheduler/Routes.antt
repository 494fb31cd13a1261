-- ===== src/Scheduler/Routes.antt =====
-- functions/data_collection_bp.py: the HTTP routes of the scheduler, the timer and the activity
-- that records an outcome. A handler gives the response, or nothing where an exception leaves it,
-- and the world after it. A body is what is printed as JSON.
pub mod Admitted
pub mod Codes
use az_capa.Prelude.{
  ℕ, String, Bool, true, false, not, ◌&&◌, ◌||◌, Option, none, some, List, [], ◌∷◌, str_eq, truthy,
  get_or, if◌then◌else◌,
}
use az_capa.Prelude.Int.{ℤ, pos, leb_ℤ}
use az_capa.Json.{Json, null, bool, int, float, str, arr, obj, Fields, field, end, lookup, is_true}
use az_capa.Authorization.{
  ClientPrincipal, AuthorizationError, Access, granted, denied, crashed, Host, require_admin,
}
use az_capa.Scheduler.Registry.{try_get}
use az_capa.Scheduler.Registry.Descriptor.{PipelineDescriptor}
use az_capa.Scheduler.ConfigStore.{Config}
use az_capa.Scheduler.Dispatcher.Effects.{
  Error, config_update, Result, returned, raised, Env, World, Method,
}
use az_capa.Scheduler.Dispatcher.Config.{update_config, reset_config}
use az_capa.Scheduler.Dispatcher.Gate.{
  StartStatus, busy, StartResult, start, flush, refresh, record_outcome,
}
use az_capa.Scheduler.Dispatcher.Tick.{tick}
use az_capa.Scheduler.Dispatcher.Views.{
  Summary, RunView, list_pipelines, pipeline_status, run_history,
}

-- `_CONFIG_ERROR_STATUS.get(exc.code, 400)`
abbrev pub config_error_status : String → ℕ
config_error_status code =
    if str_eq code "unknown_pipeline"
    then 404
    else if str_eq code "cannot_disable" || str_eq code "stale_revision"
    then 409
    else 400

-- `int(value)`: a number, a TypeError or ValueError, or the OverflowError of an infinite float.
pub data IntRead : Type 0 where
  whole : ℤ → IntRead
  unreadable : IntRead
  infinite : IntRead

-- The three required values of an edit, an error that is caught, or one that is not.
pub data EditRead : Type 0 where
  edit : (enabled : Bool) (frequency_seconds anchor_seconds : ℤ) → EditRead
  invalid : EditRead
  uncaught : EditRead

abbrev pub edit_of : Option Bool → Option IntRead → Option IntRead → EditRead
edit_of none f a = invalid
edit_of (some e) none a = invalid
edit_of (some e) (some unreadable) a = invalid
edit_of (some e) (some infinite) a = uncaught
edit_of (some e) (some (whole f)) none = invalid
edit_of (some e) (some (whole f)) (some unreadable) = invalid
edit_of (some e) (some (whole f)) (some infinite) = uncaught
edit_of (some e) (some (whole f)) (some (whole a)) = edit e f a

abbrev pub option_map : {A B : Type 0} → (A → B) → Option A → Option B
option_map f none = none
option_map f (some a) = some (f a)

abbrev pub text_or_null : {F : Type 0} → Option String → Json F
text_or_null none = null
text_or_null (some s) = str s

abbrev pub editor_of : {F : Type 0} → ClientPrincipal → Json F
editor_of p = obj (
    field "objectId" (text_or_null p.object_id)
      (field "name" (str p.name) (field "tenantId" (text_or_null p.tenant_id) end)))

-- A request to edit: the body, `none` where it is no JSON, and its `expectedRevision`, a whole number
-- or None. Another JSON value, of which `int` may raise, is not modelled.
pub record EditRequest (F : Type 0) : Type 0 where
  pub body : Option (Json F)
  pub expected_revision : Option ℕ

pub record Outcome (F : Type 0) : Type 0 where
  pub pipeline : String
  pub instance_id : String
  pub outcome : Option String
  pub summary : Option (Json F)

pub data Route (F : Type 0) : Type 0 where
  list_route : Route F
  status_route : (pipeline : Option String) → Route F
  history_route : (pipeline limit after : Option String) → Route F
  action_route : (pipeline action : Option String) → Route F
  config_route : (pipeline : Option String) → EditRequest F → Route F
  reset_route : Route F

module _ (env : Env) where
  pub data Body : Type 0 where
    error_body : (error : String) → Body
    pipelines_body : List (Summary env.rt.Float) → Body
    status_body : Summary env.rt.Float × Json env.rt.Float → Body
    history_body : List (RunView env) × Option String → Body
    started_body : Option String → Body
    config_body : Config env.rt.Float → Body
    reset_body : ℕ → Body

  pub record Response : Type 0 where
    pub status_code : ℕ
    pub body : Body

  abbrev pub Handler : Type 0
  Handler = World env → Option Response × World env

  abbrev pub respond : ℕ → Body → Handler
  respond status_code body w = (some (record { status_code = status_code; body = body }), w)

  -- An exception that the handler does not catch.
  abbrev pub crash : Handler
  crash w = (none, w)

  abbrev pub answered : {A : Type 0} → (A → Handler) → Result A → Handler
  answered f (returned a) w = f a w
  answered f (raised e) w = (none, w)

  abbrev pub run : {A : Type 0} → Method env A → (A → Handler) → Handler
  run m f w = let r = m w in answered f r.0 r.1

  abbrev pub with_access : (ClientPrincipal → Handler) → Access → Handler
  with_access handler (granted p) = handler p
  with_access handler (denied e) = respond e.status_code (error_body e.error)
  with_access handler crashed = crash

  abbrev pub descriptor_of : Option String → Option (String × PipelineDescriptor)
  descriptor_of none = none
  descriptor_of (some id) = option_map (λ d. (id, d)) (try_get id)

  abbrev pub not_found : Handler
  not_found = respond 404 (error_body "unknown_pipeline")

  abbrev pub with_pipeline :
      (String → PipelineDescriptor → Handler) → Option (String × PipelineDescriptor) → Handler
  with_pipeline handler none = not_found
  with_pipeline handler (some (id, d)) = handler id d

  -- `max(1, min(limit, 200))` of the `limit` parameter, 50 where it is absent or no number.
  abbrev pub clamped : Option ℤ → ℕ
  clamped none = 50
  clamped (some (pos n)) =
      if leb_ℤ (pos n) (pos 200) then (if leb_ℤ (pos 1) (pos n) then n else 1) else 200
  clamped (some _) = 1

  abbrev pub config_result : Result (Config env.rt.Float) → Handler
  config_result (returned config) = respond 200 (config_body config)
  config_result (raised (config_update code)) = respond (config_error_status code) (error_body code)
  config_result (raised _) = crash

  abbrev pub action_answer : StartStatus → Option String → Handler
  action_answer busy instance_id = respond 409 (error_body "operation_in_progress")
  action_answer _ instance_id = respond 202 (started_body instance_id)

  -- `details` is the `status` of the pipeline's service, `read_int` is `int` on a text, and `to_int`
  -- on a JSON value.
  module _ (host : Host env.rt.Float) (details : String → Result (Json env.rt.Float))
      (read_int : String → Option ℤ) (to_int : Json env.rt.Float → IntRead) where
    unfoldable pub data_collection_status : Option String → Handler
    data_collection_status pipeline =
        with_pipeline
          (λ id d.
            answered
              (λ detail.
                run (pipeline_status env id detail) (λ body. respond 200 (status_body body)))
              (details id))
          (descriptor_of pipeline)

    abbrev pub limit_of : Option String → ℕ
    limit_of none = 50
    limit_of (some text) = clamped (read_int text)

    abbrev pub after_of : Option String → Option String
    after_of none = none
    after_of (some text) = if str_eq text "" then none else some text

    unfoldable pub data_collection_run_history : (pipeline limit after : Option String) → Handler
    data_collection_run_history pipeline limit after =
        with_pipeline
          (λ id d.
            run (run_history env id (limit_of limit) (after_of after))
              (λ body. respond 200 (history_body body)))
          (descriptor_of pipeline)

    abbrev pub start_route : String → PipelineDescriptor → String → Handler
    start_route id d action =
        if not (str_eq action refresh || str_eq action flush)
        then respond 404 (error_body "unknown_action")
        else if str_eq action flush && not d.supports_flush
        then respond 405 (error_body "flush_unsupported")
        else run (start env id action "manual")
            (λ result. action_answer result.status result.instance_id)

    unfoldable pub data_collection_action : (pipeline action : Option String) → Handler
    data_collection_action pipeline action =
        with_pipeline (λ id d. start_route id d (get_or action "")) (descriptor_of pipeline)

    abbrev pub read_edit : Json env.rt.Float → EditRead
    read_edit (obj fs) =
        edit_of (option_map (is_true env.rt.is_zero) (lookup "enabled" fs))
          (option_map to_int (lookup "frequencySeconds" fs))
          (option_map to_int (lookup "anchorSeconds" fs))
    read_edit _ = invalid

    abbrev pub with_edit : String → Option ℕ → ClientPrincipal → EditRead → Handler
    with_edit id expected p invalid = respond 400 (error_body "invalid_body")
    with_edit id expected p uncaught = crash
    with_edit id expected p (edit enabled frequency anchor) = λ w.
        let r = update_config env id enabled frequency anchor expected (editor_of p) w in
        config_result r.0 r.1

    abbrev pub with_body :
        String → Option ℕ → ClientPrincipal → Option (Json env.rt.Float) → Handler
    with_body id expected p none = respond 400 (error_body "invalid_body")
    with_body id expected p (some body) = with_edit id expected p (read_edit body)

    unfoldable pub data_collection_config :
        Option String → EditRequest env.rt.Float → ClientPrincipal → Handler
    data_collection_config pipeline request p =
        with_pipeline (λ id d. with_body id request.expected_revision p request.body)
          (descriptor_of pipeline)

    -- What each route does for an administrator.
    unfoldable pub admin_handler : Route env.rt.Float → ClientPrincipal → Handler
    unfolding data_collection_status data_collection_run_history data_collection_action
        data_collection_config
    admin_handler list_route p =
        run (list_pipelines env) (λ rows. respond 200 (pipelines_body rows))
    admin_handler (status_route pipeline) p = data_collection_status pipeline
    admin_handler (history_route pipeline limit after) p =
        data_collection_run_history pipeline limit after
    admin_handler (action_route pipeline action) p = data_collection_action pipeline action
    admin_handler (config_route pipeline request) p = data_collection_config pipeline request p
    admin_handler reset_route p =
        run (reset_config env) (λ cleared. respond 200 (reset_body cleared))

    -- Every route, after `require_admin`.
    unfoldable pub serve : Route env.rt.Float → List (String × String) → Handler
    unfolding admin_handler
    serve route headers = with_access (admin_handler route) (require_admin host headers)

  unfoldable pub data_collection_dispatch : Method env (Unit {0})
  data_collection_dispatch = tick env

  abbrev pub or_completed : Option String → String
  or_completed none = "completed"
  or_completed (some s) = if str_eq s "" then "completed" else s

  unfoldable pub record_run_outcome : Outcome env.rt.Float → Method env (Unit {0})
  record_run_outcome payload =
      record_outcome env payload.pipeline payload.instance_id (or_completed payload.outcome)
        payload.summary
