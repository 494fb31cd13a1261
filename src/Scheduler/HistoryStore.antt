-- ===== src/Scheduler/HistoryStore.antt =====
-- storage/scheduler_history_store.py. The summary column holds the JSON text that
-- `json.dumps` gives; moments are microseconds.
pub mod Rows
use Prim.Native.String.{◌++◌}
use az_capa.Prelude.{
  ℕ, zero, suc, ◌-◌, ◌/◌, ◌%◌, ◌+◌, String, Bool, true, false, not, ◌&&◌, Option, none, some,
  or_else, List, [], ◌∷◌, map, str_eq, opt_eq, truthy, ltb, leb, if◌then◌else◌, length, ◌==◌,
}
use az_capa.Json.{Json, Runtime}
use az_capa.Table.{Key, key, Table, row}

pub record HistoryRow : Type 0 where
  pub pipeline : Option String
  pub action : Option String
  pub trigger : Option String
  pub started_at : Option ℕ
  pub status : Option String
  pub completed_at : Option ℕ
  pub instance_id : Option String
  pub summary : Option String

abbrev pub merge_history : HistoryRow → HistoryRow → HistoryRow
merge_history old new = record {
  pipeline = or_else new.pipeline old.pipeline;
  action = or_else new.action old.action;
  trigger = or_else new.trigger old.trigger;
  started_at = or_else new.started_at old.started_at;
  status = or_else new.status old.status;
  completed_at = or_else new.completed_at old.completed_at;
  instance_id = or_else new.instance_id old.instance_id;
  summary = or_else new.summary old.summary;
}

abbrev pub running : String
running = "running"

-- The last `width` decimal digits, with leading zeros.
abbrev digit : ℕ → String
digit d =
    if d == 0
    then "0"
    else if d == 1
    then "1"
    else if d == 2
    then "2"
    else if d == 3
    then "3"
    else if d == 4
    then "4"
    else if d == 5
    then "5"
    else if d == 6
    then "6"
    else if d == 7
    then "7"
    else if d == 8
    then "8"
    else "9"

padded : (width n : ℕ) → String
padded zero n = ""
padded (suc width) n = padded width (n / 10) ++ digit (n % 10)

abbrev max_ms : ℕ
max_ms = 99999999999999

abbrev milliseconds : ℕ → ℕ
milliseconds t = t / 1000

-- `uuid` is `uuid4().hex`. Moments lie before the year 5138, where the difference is 0 or more.
unfoldable pub inverted_row_key : (started_at : ℕ) (uuid : String) → String
unfolding padded
inverted_row_key started_at uuid = padded 14 (max_ms - milliseconds started_at) ++ ("-" ++ uuid)

-- The dictionary that the queries return.
pub record Run (F : Type 0) : Type 0 where
  pub pipeline : String
  pub row_key : String
  pub action : Option String
  pub trigger : Option String
  pub started_at : Option ℕ
  pub status : Option String
  pub completed_at : Option ℕ
  pub instance_id : Option String
  pub summary : Option (Json F)

-- `entity.get("Pipeline") or entity["PartitionKey"]`
abbrev text_or : Option String → String → String
text_or none d = d
text_or (some s) d = if str_eq s "" then d else s

abbrev loaded : (rt : Runtime) → Option String → Option (Json rt.Float)
loaded rt none = none
loaded rt (some s) = if str_eq s "" then none else some (rt.loads s)

abbrev pub row_to_run : (rt : Runtime) → Key → HistoryRow → Run rt.Float
row_to_run rt k entity = record {
  pipeline = text_or entity.pipeline k.partition_key;
  row_key = k.row_key;
  action = entity.action;
  trigger = entity.trigger;
  started_at = entity.started_at;
  status = entity.status;
  completed_at = entity.completed_at;
  instance_id = entity.instance_id;
  summary = loaded rt entity.summary;
}

-- A comparison with a property that is absent is false in a filter.
abbrev pub at_least : Option ℕ → ℕ → Bool
at_least none t = false
at_least (some a) t = leb t a

abbrev pub below : Option ℕ → ℕ → Bool
below none t = false
below (some a) t = ltb a t

abbrev pub is_running : HistoryRow → Bool
is_running e = opt_eq e.status running

-- The filters of the queries.
abbrev pub running_instance : (pipeline_id instance_id : String) → Key → HistoryRow → Bool
running_instance pipeline_id instance_id k e =
    str_eq k.partition_key pipeline_id && (opt_eq e.instance_id instance_id && is_running e)

abbrev pub of_instance : String → Key → HistoryRow → Bool
of_instance instance_id k e = opt_eq e.instance_id instance_id

-- `ne`, which too is false of a property that is absent.
abbrev pub differs : Option String → String → Bool
differs none s = false
differs (some a) s = not (str_eq a s)

abbrev pub terminal : Key → HistoryRow → Bool
terminal k e = differs e.status running

abbrev pub expired : ℕ → Key → HistoryRow → Bool
expired older_than k e = below e.started_at older_than && differs e.status running

abbrev pub open_columns : (pipeline_id action trigger : String) → ℕ → String → HistoryRow
open_columns pipeline_id action trigger started_at instance_id = record {
  pipeline = some pipeline_id;
  action = some action;
  trigger = some trigger;
  started_at = some started_at;
  status = some running;
  completed_at = none;
  instance_id = some instance_id;
  summary = none;
}

abbrev pub close_columns : (status : String) → ℕ → Option String → HistoryRow
close_columns status completed_at summary = record {
  pipeline = none;
  action = none;
  trigger = none;
  started_at = none;
  status = some status;
  completed_at = some completed_at;
  instance_id = none;
  summary = summary;
}

abbrev pub dumped : (rt : Runtime) → Option (Json rt.Float) → Option String
dumped rt none = none
dumped rt (some j) = some (rt.dumps j)

abbrev pub after_key : Option String → (String → String → Bool) → String → Bool
after_key none text_less k = true
after_key (some after) text_less k = if str_eq after "" then true else text_less after k

module _ (t : Table HistoryRow) where
  -- `none` is ResourceExistsError.
  unfoldable pub open_row :
      (pipeline_id action trigger : String)
      → (started_at : ℕ) → (instance_id uuid : String) → t.Store
      → Option t.Store
  unfolding inverted_row_key
  open_row pipeline_id action trigger started_at instance_id uuid s =
      t.create_entity (key pipeline_id (inverted_row_key started_at uuid))
        (open_columns pipeline_id action trigger started_at instance_id) s

  -- The loop of `close_by_instance` over the rows that its query found.
  pub close_rows : HistoryRow → List (Key × HistoryRow) → t.Store → t.Store
  close_rows update [] s = s
  close_rows update ((k, e) ∷ rows) s = close_rows update rows (t.upsert_merge k update s)

  abbrev nonempty : List (Key × HistoryRow) → Bool
  nonempty [] = false
  nonempty (_ ∷ _) = true

  -- The new table, and whether a row was closed.
  unfoldable pub close_by_instance :
      (rt : Runtime) (pipeline_id instance_id status : String)
      → (completed_at : ℕ) → Option (Json rt.Float)
      → t.Store
      → t.Store × Bool
  unfolding close_rows
  close_by_instance rt pipeline_id instance_id status completed_at summary s =
      let rows = t.query_entities (running_instance pipeline_id instance_id) s in
      (close_rows (close_columns status completed_at (dumped rt summary)) rows s, nonempty rows)

  -- The loop that the deletions share, with its count.
  pub delete_rows : List (Key × HistoryRow) → t.Store → t.Store × ℕ
  delete_rows [] s = (s, 0)
  delete_rows ((k, e) ∷ rows) s =
      let (s', deleted) = delete_rows rows (t.delete_entity k s) in (s', suc deleted)

  unfoldable pub delete_by_instance : String → t.Store → t.Store × ℕ
  unfolding delete_rows
  delete_by_instance instance_id s = delete_rows (t.query_entities (of_instance instance_id) s) s

  unfoldable pub delete_terminal : t.Store → t.Store × ℕ
  unfolding delete_rows
  delete_terminal s = delete_rows (t.query_entities terminal s) s

  unfoldable pub prune : (older_than : ℕ) → t.Store → t.Store × ℕ
  unfolding delete_rows
  prune older_than s = delete_rows (t.query_entities (expired older_than) s) s

  abbrev runs : (rt : Runtime) → List (Key × HistoryRow) → List (Run rt.Float)
  runs rt rows = map (λ r. row_to_run rt r.0 r.1) rows

  unfoldable pub list_running : (rt : Runtime) → t.Store → List (Run rt.Float)
  list_running rt s = runs rt (t.query_entities (λ k e. is_running e) s)

  unfoldable pub list_recent : (rt : Runtime) → (since : ℕ) → t.Store → List (Run rt.Float)
  list_recent rt since s = runs rt (t.query_entities (λ k e. at_least e.started_at since) s)

  unfoldable pub rows_for_instance : (rt : Runtime) → String → t.Store → List (Run rt.Float)
  rows_for_instance rt instance_id s = runs rt (t.query_entities (of_instance instance_id) s)

  -- The loop appends before it tests the limit, so that a limit below 1 lets one row through.
  pub first_page : {A : Type 0} → (limit taken : ℕ) → List A → List A
  first_page limit taken [] = []
  first_page limit taken (x ∷ xs) =
      let rest = first_page limit (suc taken) xs in x ∷ (if leb limit (suc taken) then [] else rest)

  -- `text_less` is the service's order of row keys.
  unfoldable pub list_by_pipeline :
      (rt : Runtime) (text_less : String → String → Bool) (pipeline_id : String) (limit : ℕ)
      (after : Option String)
      → t.Store
      → List (Run rt.Float)
  unfolding first_page
  list_by_pipeline rt text_less pipeline_id limit after s = first_page limit 0 (
      runs rt (
        t.query_entities
          (λ k e. str_eq k.partition_key pipeline_id && after_key after text_less k.row_key) s))
