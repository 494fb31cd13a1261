-- ===== src/Scheduler/Dispatcher/Effects.antt =====
-- What services/data_collection/dispatcher.py calls: the three scheduler stores, the clock,
-- `uuid4`, the settings and the injected Durable client. A method is a function of the world that
-- returns a value or raises, and gives the world after it; also where it raises.
use az_capa.Prelude.{
  ℕ, ◌+◌, String, Bool, true, false, Option, none, some, List, ◌∷◌, str_eq, ◌||◌, ◌≡◌, ◌⊎◌, refl,
  inl, inr,
}
use az_capa.Prelude.Int.{ℤ}
use az_capa.Json.{Json, Runtime}
use az_capa.Table.{Table}
use az_capa.Scheduler.StateStore.{StateRow, Claim, claimed, refused}
use az_capa.Scheduler.StateStore
use az_capa.Scheduler.HistoryStore.{HistoryRow}
use az_capa.Scheduler.HistoryStore
use az_capa.Scheduler.ConfigStore.{ConfigRow}

pub data Error : Type 0 where
  unknown_pipeline unsupported_flush no_orchestrator : Error
  client_error entity_exists zero_division : Error
  http_error : ℕ → Error
  config_update : String → Error

pub data Result (A : Type 0) : Type 0 where
  returned : A → Result A
  raised : Error → Result A

pub record RunStatus (F : Type 0) : Type 0 where
  pub runtime_status : String
  pub custom_status : Json F
  pub output : Json F

abbrev pub is_terminal : {F : Type 0} → RunStatus F → Bool
is_terminal status =
    str_eq status.runtime_status "Completed"
    || (str_eq status.runtime_status "Failed"
        || (str_eq status.runtime_status "Terminated" || str_eq status.runtime_status "Canceled"))

-- The environment. The n-th call out of the program is answered by the n-th answer of its kind;
-- so a status may change from one call to the next.
pub record Env : Type 1 where
  pub rt : Runtime
  pub states : Table StateRow
  pub histories : Table HistoryRow
  pub configs : Table ConfigRow
  pub text_less : String → String → Bool
  pub capitalize : String → String
  pub min_frequency_seconds : ℤ
  pub max_frequency_seconds : ℤ
  pub max_dispatch_per_tick : ℕ
  pub history_retention_days : ℕ
  pub clock : ℕ → ℕ
  pub uuid : ℕ → String
  pub get_status : ℕ → String → Result (Option (RunStatus rt.Float))
  pub start_new : ℕ → String → Result String

-- The tables, how many calls were made, and the orchestrators that were launched, the last first.
pub record World (env : Env) : Type 0 where
  pub state : env.states.Store
  pub history : env.histories.Store
  pub config : env.configs.Store
  pub calls : ℕ
  pub launches : List String

abbrev pub Method : Env → Type 0 → Type 0
Method env A = World env → Result A × World env

module _ {S : Type 0} where
  abbrev pub pure : {A : Type 0} → A → S → Result A × S
  pure a s = (returned a, s)

  abbrev pub raise : {A : Type 0} → Error → S → Result A × S
  raise e s = (raised e, s)

  abbrev pub and_then : {A B : Type 0} → (A → S → Result B × S) → Result A → S → Result B × S
  and_then f (returned a) s = f a s
  and_then f (raised e) s = (raised e, s)

  infixl 5 ◌>>=◌ ◌>>◌
  abbrev pub ◌>>=◌ : {A B : Type 0} → (S → Result A × S) → (A → S → Result B × S) → S → Result B × S
  ◌>>=◌ m f s = let r = m s in and_then f r.0 r.1

  abbrev pub ◌>>◌ : {A B : Type 0} → (S → Result A × S) → (S → Result B × S) → S → Result B × S
  m >> k = m >>= λ _. k

  abbrev pub handle : {A : Type 0} → (Error → S → Result A × S) → Result A → S → Result A × S
  handle h (returned a) s = (returned a, s)
  handle h (raised e) s = h e s

  -- `try: m except Exception as e: h`
  abbrev pub try_except :
      {A : Type 0} → (S → Result A × S) → (Error → S → Result A × S) → S → Result A × S
  try_except m h s = let r = m s in handle h r.0 r.1

  -- `try: m except Exception: logger.exception(…)`, with a value to go on with.
  abbrev pub isolated : {A : Type 0} → A → (S → Result A × S) → S → Result A × S
  isolated a m = try_except m (λ e. pure a)

module _ (env : Env) where
  abbrev pub next_call : World env → World env
  next_call w = record w { calls = w.calls + 1 }

  abbrev pub now : Method env ℕ
  now w = (returned (env.clock w.calls), next_call w)

  abbrev pub new_uuid : Method env String
  new_uuid w = (returned (env.uuid w.calls), next_call w)

  abbrev pub get_status : String → Method env (Option (RunStatus env.rt.Float))
  get_status instance_id w = (env.get_status w.calls instance_id, next_call w)

  abbrev launched : String → Result String → World env → Result String × World env
  launched orchestrator (returned id) w =
      (returned id, record (next_call w) { launches = orchestrator ∷ w.launches })
  launched orchestrator (raised e) w = (raised e, next_call w)

  abbrev pub start_new : String → Method env String
  start_new orchestrator w = launched orchestrator (env.start_new w.calls orchestrator) w

  abbrev pub on_state : (env.states.Store → env.states.Store) → Method env (Unit {0})
  on_state f w = (returned tt, record w { state = f w.state })

  -- A method of the history store that gives a value.
  abbrev pub on_history :
      {A : Type 0} → (env.histories.Store → env.histories.Store × A) → Method env A
  on_history f w = let r = f w.history in (returned r.1, record w { history = r.0 })

  abbrev pub read_state : {A : Type 0} → (env.states.Store → A) → Method env A
  read_state f w = (returned (f w.state), w)

  abbrev pub read_history : {A : Type 0} → (env.histories.Store → A) → Method env A
  read_history f w = (returned (f w.history), w)

  abbrev claim_answer : Claim env.states.Store → World env → Result Bool × World env
  claim_answer (claimed s) w = (returned true, record w { state = s })
  claim_answer refused w = (returned false, w)
  claim_answer (Claim.raised code) w = (raised (http_error code), w)

  -- `try_claim` draws its uuid itself.
  abbrev pub try_claim : (pipeline_id scope action trigger : String) → ℕ → Method env Bool
  try_claim pipeline_id scope action trigger dispatched_at = do
    uuid ← new_uuid
    (λ w.
        claim_answer
          (StateStore.try_claim env.states pipeline_id scope uuid action trigger dispatched_at
            w.state)
          w)

  abbrev opened : Option env.histories.Store → World env → Result (Unit {0}) × World env
  opened none w = (raised entity_exists, w)
  opened (some s) w = (returned tt, record w { history = s })

  abbrev pub open_row :
      (pipeline_id action trigger : String) → ℕ → (instance_id : String) → Method env (Unit {0})
  open_row pipeline_id action trigger started_at instance_id = do
    uuid ← new_uuid
    (λ w.
        opened
          (HistoryStore.open_row env.histories pipeline_id action trigger started_at instance_id
            uuid w.history)
          w)

pub Result-cases :
    {A : Type 0} (r : Result A) → ((a : A) × (r ≡ returned a)) ⊎ ((e : Error) × (r ≡ raised e))
Result-cases (returned a) = inl (a, refl)
Result-cases (raised e) = inr (e, refl)

pub returned_inj : {A : Type 0} {a b : A} → returned a ≡ returned b → a ≡ b
returned_inj h = cc
