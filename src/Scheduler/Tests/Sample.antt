-- ===== src/Scheduler/Tests/Sample.antt =====
-- An environment in memory: three tables, a clock of one second a call, and a Durable client for
-- which every launched instance has completed.
use Prim.Native.String.{◌++◌}
use az_capa.Prelude.{
  ℕ, ◌+◌, ◌*◌, ◌/◌, String, ◌≡◌, refl, true, false, some, [], arith, ltb, if◌then◌else◌, ◌==◌,
}
use az_capa.Prelude.Int.{pos, pos_part}
use az_capa.Json.{null, Runtime}
use az_capa.Table.{Table, IsTable}
use az_capa.Table.Memory.{memory, memory-IsTable}
use az_capa.Scheduler.Cadence.{second}
use az_capa.Scheduler.StateStore.{merge_state}
use az_capa.Scheduler.HistoryStore.{HistoryRow, merge_history}
use az_capa.Scheduler.ConfigStore.{replace_config}
use az_capa.Scheduler.Dispatcher.Effects.{Result, returned, RunStatus, Env, World}

pub ltb_asymm : (x y : ℕ) → ltb x y ≡ true → ltb y x ≡ false
ltb_asymm x y h = ground arith

-- Whole numbers in place of floats.
abbrev pub plain : Runtime
plain = record {
  Float = ℕ;
  less = ltb;
  less_asymm = ltb_asymm;
  zero_float = 0;
  one_float = 1;
  zero-less-one = refl;
  is_zero = λ x. x == 0;
  of_int = pos_part;
  percent_of_int = λ i. pos_part i / 100;
  percent_of_float = λ x. x / 100;
  show_int = λ i. "0";
  dumps = λ j. "{}";
  loads = λ s. null;
}

abbrev pub completed : RunStatus ℕ
completed = record { runtime_status = "Completed"; custom_status = null; output = null }

abbrev pub env_with : Table HistoryRow → (String → Result String) → Env
env_with histories launch = record {
  rt = plain;
  states = memory merge_state;
  histories = histories;
  configs = memory replace_config;
  text_less = λ s t. false;
  capitalize = λ s. s;
  min_frequency_seconds = pos 300;
  max_frequency_seconds = pos 604800;
  max_dispatch_per_tick = 2;
  history_retention_days = 30;
  clock = λ n. (1700000000 + n) * second;
  uuid = λ n. if n == 0 then "a" else if n == 1 then "b" else if n == 2 then "c" else "d";
  get_status = λ n id. returned (some completed);
  start_new = λ n orchestrator. launch orchestrator;
}

abbrev pub sample : Env
sample = env_with (memory merge_history) (λ orchestrator. returned ("run-" ++ orchestrator))

abbrev pub empty_world : World sample
empty_world = record { state = []; history = []; config = []; calls = 0; launches = [] }

pub states_laws : IsTable merge_state sample.states
states_laws = memory-IsTable merge_state

pub histories_laws : IsTable merge_history sample.histories
histories_laws = memory-IsTable merge_history

pub configs_laws : IsTable replace_config sample.configs
configs_laws = memory-IsTable replace_config
