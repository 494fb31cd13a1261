-- ===== src/Scheduler/Tests/Dispatches.antt =====
-- The theorems on the dispatcher at concrete inputs.
use az_capa.Prelude.{ℕ, ◌≡◌, refl, false, none, some, [], str_eq, if◌then◌else◌}
use az_capa.Prelude.Int.{pos}
use az_capa.Json.{null}
use az_capa.Table.{row}
use az_capa.Table.Memory.{get, put, remove, query, omit}
use az_capa.Scheduler.Registry.{all_descriptors, try_get, find_id}
use az_capa.Scheduler.Registry.Descriptor.{PipelineDescriptor}
use az_capa.Scheduler.Registry.Table.{vm_usage}
use az_capa.Scheduler.ConfigStore.{Config, config_key, patch}
use az_capa.Scheduler.ConfigStore.Revisions.{next_revision}
use az_capa.Scheduler.Dispatcher.Effects.{returned, World}
use az_capa.Scheduler.Dispatcher.Config.{edit_error, update_config, reset_config, merge_defaults}
use az_capa.Scheduler.Dispatcher.Config.Edits.{
  IsAllowed, config_now, reset_config-defaults, update_config-stored,
}
use az_capa.Scheduler.Dispatcher.Gate.{scope_busy, start}
use az_capa.Scheduler.Dispatcher.Gate.Answers.{Answers, scope_busy-Answers}
use az_capa.Scheduler.Dispatcher.Gate.Starts.{StartCases, start_cases}
use az_capa.Scheduler.Dispatcher.Tick.{dispatch_one, tick}
use az_capa.Scheduler.Dispatcher.Tick.Dispatch.{DispatchOutcome, dispatch_one-DispatchOutcome}
use az_capa.Scheduler.Dispatcher.Tick.Launches.{Dispatches}
use az_capa.Scheduler.Dispatcher.Tick.Whole.{Beats, tick_lem}
use az_capa.Scheduler.Tests.Sample.{sample, empty_world, states_laws, histories_laws, configs_laws}

start_cases_example : StartCases sample "vm_usage" "refresh" "manual" empty_world
start_cases_example =
    start_cases sample states_laws histories_laws "vm_usage" "refresh" "manual" empty_world

scope_busy-Answers_example :
    Answers sample "vm_usage"
      (start sample "vm_usage" "refresh" "manual" empty_world).1
      (scope_busy sample "vm_usage" (start sample "vm_usage" "refresh" "manual" empty_world).1)
scope_busy-Answers_example =
    scope_busy-Answers sample states_laws "vm_usage"
      (start sample "vm_usage" "refresh" "manual" empty_world).1

dispatch_one-DispatchOutcome_example :
    DispatchOutcome sample 1700000000000000 [] vm_usage empty_world
      (dispatch_one sample vm_usage 1700000000000000 [] empty_world)
unfolding try_get
dispatch_one-DispatchOutcome_example =
    dispatch_one-DispatchOutcome sample states_laws 1700000000000000 [] vm_usage empty_world refl

tick_lem_example :
    Dispatches sample (sample.clock 0) all_descriptors [] 0 empty_world (tick sample empty_world)
    × Beats sample (sample.clock 0) (tick sample empty_world).1
tick_lem_example = tick_lem sample states_laws empty_world

stored_edit :
    (w' : World sample) × (config : Config ℕ) × (update_config sample "vm_usage" false
        (pos 900)
        (pos 0)
        none
        null
        empty_world
      ≡ (returned config, w'))
unfolding update_config edit_error try_get all_descriptors find_id patch get put remove query omit
stored_edit = (_, _, refl)

update_config-stored_example :
    (d : PipelineDescriptor) × (try_get "vm_usage" ≡ some d)
    × IsAllowed sample d false (pos 900) (pos 0)
    × (stored_edit.1.revision
        ≡ some (next_revision (row sample.configs (config_key "vm_usage") empty_world.config)))
    × ((d' : PipelineDescriptor)
        → config_now sample d' stored_edit.0 ≡ (
            if str_eq "vm_usage" d'.id
            then record {
              enabled = false;
              frequency_seconds = pos 900;
              anchor_seconds = pos 0;
              revision =
                  next_revision (row sample.configs (config_key "vm_usage") empty_world.config);
            }
            else config_now sample d' empty_world))
update_config-stored_example =
    update_config-stored sample configs_laws "vm_usage" false (pos 900) (pos 0) none null
      empty_world stored_edit.0 stored_edit.1 stored_edit.2

reset_config-defaults_example :
    config_now sample vm_usage (reset_config sample stored_edit.0).1
    ≡ merge_defaults {F = ℕ} vm_usage none
reset_config-defaults_example = reset_config-defaults sample configs_laws vm_usage stored_edit.0
