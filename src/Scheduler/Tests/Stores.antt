-- ===== src/Scheduler/Tests/Stores.antt =====
-- The theorems on the scheduler's stores and progress reports at concrete inputs.
use az_capa.Prelude.{
  ℕ, String, ◌≡◌, ◌≢◌, refl, ◌&&◌, true, none, some, List, [], ◌∷◌, arith, truthy, str_eq_iff,
}
use az_capa.Prelude.Int.{pos}
use az_capa.Json.{Json, null, obj, int, field, end}
use az_capa.Table.{Key, key, row}
use az_capa.Table.Memory.{memory, memory-IsTable, get, put, remove, query, omit}
use az_capa.Scheduler.Progress.{normalize_progress, clamp01}
use az_capa.Scheduler.Progress.Bounds.{InRange, normalize_progress-InRange}
use az_capa.Scheduler.StateStore.{
  StateRow, empty_row, merge_state, state_key, claimed, claim_columns, claim_read, try_claim,
  close_run,
}
use az_capa.Scheduler.StateStore.Claims.{
  System, waiting, won, Reach, here, next, observe, win, try_claim_exclusive,
}
use az_capa.Scheduler.StateStore.Rows.{close_run-try_claim}
use az_capa.Scheduler.HistoryStore.{
  HistoryRow, merge_history, running, open_columns, close_by_instance, delete_by_instance,
  delete_terminal, prune, dumped,
}
use az_capa.Scheduler.HistoryStore.Rows.{
  closed_of, has_instance, has_ended, started_before, unless, close_by_instance_once,
  row-close_by_instance, row-delete, running_row_survives,
}
use az_capa.Scheduler.ConfigStore.{
  ConfigRow, Edit, replace_config, config_key, build_entity, row_to_config, patch_read,
}
use az_capa.Scheduler.ConfigStore.Editors.{
  Editors, idle, stored, Edited, begun, after, look, write, give_way, patch_no_lost_update,
}
use az_capa.Scheduler.Tests.Sample.{plain}

memory_table : Unit {0}
unfolding get put remove query omit claim_read try_claim close_run patch_read
memory_table = tt

-- Two callers read the absent row, and the first one to write wins.
abbrev start : System (memory merge_state) "vm_usage"
start = record { store = []; phase = λ i. waiting }

abbrev claim_row : StateRow
claim_row = claim_columns empty_row "vm_usage" "a" "refresh" "manual" 7

abbrev claimed_store : List (Key × StateRow × ℕ)
claimed_store = (state_key "vm_usage", claim_row, 0) ∷ []

race :
    (sys : System (memory merge_state) "vm_usage") × Reach (memory merge_state) "vm_usage" start sys
    × (sys.phase 0 ≡ won)
unfolding memory_table
race = (
  _,
  next (next (next here (observe 0 refl)) (observe 1 refl))
      (win 0 none "vm_usage" "a" "refresh" "manual" 7 claimed_store refl refl),
  refl,
)

try_claim_exclusive_example :
    (◌≡◌ {A = ℕ} 0 0)
    × (e : StateRow) × (row (memory merge_state) (state_key "vm_usage") race.0.store ≡ some e)
    × (truthy e.active_instance_id ≡ true)
try_claim_exclusive_example =
    try_claim_exclusive (memory merge_state) "vm_usage" (memory-IsTable merge_state) start race.0 0
      0 (λ k. refl) race.1 race.2 race.2

close_run-try_claim_example :
    (s' : List (Key × StateRow × ℕ)) × (try_claim
        (memory merge_state)
        "vm_usage"
        "vm_usage"
        "b"
        "refresh"
        "manual"
        9
        (close_run (memory merge_state) "vm_usage" "failed" 8 claimed_store)
      ≡ claimed s')
close_run-try_claim_example =
    close_run-try_claim (memory merge_state) (memory-IsTable merge_state) "vm_usage" "failed"
      "vm_usage" "b" "refresh" "manual" 8 9 claimed_store

abbrev run_key : Key
run_key = key "vm_usage" "00000000000001-a"

abbrev run_row : HistoryRow
run_row = open_columns "vm_usage" "refresh" "manual" 7 "run-1"

abbrev run_store : List (Key × HistoryRow × ℕ)
run_store = (run_key, run_row, 0) ∷ []

completed_ne_running : ◌≢◌ {A = String} "completed" running
completed_ne_running = ground (arith, str_eq_iff "completed" running)

close_by_instance_once_example :
    row
      (memory merge_history)
      run_key
      (close_by_instance
        (memory merge_history)
        plain
        "vm_usage"
        "run-1"
        "failed"
        12
        none
        (close_by_instance
          (memory merge_history)
          plain
          "vm_usage"
          "run-1"
          "completed"
          11
          none
          run_store).0).0
    ≡ row
        (memory merge_history)
        run_key
        (close_by_instance
          (memory merge_history)
          plain
          "vm_usage"
          "run-1"
          "completed"
          11
          none
          run_store).0
close_by_instance_once_example =
    close_by_instance_once (memory merge_history) (memory-IsTable merge_history) plain "vm_usage"
      "run-1" "completed" "failed" 11 12 none none run_key run_store completed_ne_running

row-close_by_instance_example :
    row
      (memory merge_history)
      run_key
      (close_by_instance
        (memory merge_history)
        plain
        "vm_usage"
        "run-1"
        "completed"
        11
        none
        run_store).0
    ≡ closed_of "vm_usage" "run-1" "completed" 11
        (dumped plain none)
        run_key
        (row (memory merge_history) run_key run_store)
row-close_by_instance_example =
    row-close_by_instance (memory merge_history) (memory-IsTable merge_history) plain "vm_usage"
      "run-1" "completed" 11 none run_key run_store

row-delete_example :
    (row
        (memory merge_history)
        run_key
        (delete_by_instance (memory merge_history) "run-1" run_store).0
      ≡ unless (has_instance "run-1") (row (memory merge_history) run_key run_store))
    × (row (memory merge_history) run_key (delete_terminal (memory merge_history) run_store).0
        ≡ unless has_ended (row (memory merge_history) run_key run_store))
    × (row (memory merge_history) run_key (prune (memory merge_history) 100 run_store).0
        ≡ unless
            (λ e. has_ended e && started_before 100 e)
            (row (memory merge_history) run_key run_store))
row-delete_example =
    row-delete (memory merge_history) (memory-IsTable merge_history) "run-1" 100 run_key run_store

running_row_survives_example :
    (row (memory merge_history) run_key (delete_terminal (memory merge_history) run_store).0
      ≡ some run_row)
    × (row (memory merge_history) run_key (prune (memory merge_history) 100 run_store).0
        ≡ some run_row)
unfolding memory_table
running_row_survives_example =
    running_row_survives (memory merge_history) (memory-IsTable merge_history) 100 run_key run_store
      run_row refl refl

abbrev hourly : Edit ℕ
hourly = record {
  enabled = true;
  frequency_seconds = pos 3600;
  anchor_seconds = pos 0;
  updated_by = null;
  updated_at = 7;
}

-- Two callers read the absent row, the first one's edit is stored and the second one's is a conflict.
abbrev untouched : Editors plain (memory replace_config) "vm_usage" none
untouched = record { store = []; turn = λ i. idle }

abbrev hourly_store : List (Key × ConfigRow × ℕ)
hourly_store = (config_key "vm_usage", build_entity plain hourly 1, 0) ∷ []

edited :
    (sys : Editors plain (memory replace_config) "vm_usage" none) × Edited plain
      (memory replace_config)
      "vm_usage"
      none
      untouched
      sys
    × (sys.turn 0 ≡ stored hourly)
unfolding memory_table
edited = (
  _,
  after
      (after (after (after begun (look 0 refl)) (look 1 refl)) (
        write 0 none hourly hourly_store
          (row_to_config plain "vm_usage" (build_entity plain hourly 1)) refl refl))
      (give_way 1 none hourly refl refl),
  refl,
)

patch_no_lost_update_example :
    (◌≡◌ {A = ℕ} 0 0)
    × (revision : ℕ) × (row (memory replace_config) (config_key "vm_usage") edited.0.store
        ≡ some (build_entity plain hourly revision))
patch_no_lost_update_example =
    patch_no_lost_update plain (memory replace_config) "vm_usage" none
      (memory-IsTable replace_config) untouched edited.0 0 0 hourly hourly (λ k. refl) edited.1
      edited.2 edited.2

abbrev too_much : Json ℕ
too_much = obj (field "percentCompleted" (int (pos 500)) end)

normalize_progress-InRange_example : InRange plain 1
unfolding normalize_progress clamp01
normalize_progress-InRange_example =
    normalize_progress-InRange plain too_much (record { complete = some 1; label = none }) 1 refl
      refl
