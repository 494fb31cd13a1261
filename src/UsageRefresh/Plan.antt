-- ===== src/UsageRefresh/Plan.antt =====
-- `resolve_plan` and `status` of `RefreshPipeline`, services/usage_refresh.py, from the resolved
-- scope, the last finalized day and the stored state; `none` is an exception. The settings of days
-- are not negative here.
use Prim.Native.String.{◌++◌}
use az_capa.Prelude.{
  ℕ, ◌+◌, ◌-◌, String, Bool, true, false, not, ◌||◌, Option, none, some, List, [], ◌∷◌, ltb, leb,
  contains, sorted_set, filter, if◌then◌else◌, ◌==◌,
}
use az_capa.UsageRefresh.Scope.{
  Scope, State, Conflict, scope_conflict, Printer, scope_change_message, refuse_reason,
}
use az_capa.UsageRefresh.Units.{Stream, refresh_streams, Load, WorkUnit, units_of_loads}

-- `date - timedelta(days=n)`: an OverflowError before the first day.
unfoldable pub days_before : ℕ → ℕ → Option ℕ
days_before day n = if ltb n day then some (day - n) else none

unfoldable pub end_date : (today lag : ℕ) → Option ℕ
unfolding days_before
end_date today lag = days_before today lag

-- `end - timedelta(days=n - 1)`
unfoldable pub historical_start : (end_day n : ℕ) → Option ℕ
unfolding days_before
historical_start end_day n = days_before (end_day + 1) n

abbrev pub projection_version : ℕ
projection_version = 1

-- Whether the store keeps the summary projection, and the version that the state names.
abbrev pub projection_is_current : Bool → State → Bool
projection_is_current keeps_summary state =
    not keeps_summary || state.projection_version == projection_version

abbrev pub maximum : ℕ → ℕ → ℕ
maximum a b = if ltb a b then b else a

-- The arguments of `_plan` that the branches choose.
pub record Loading : Type 0 where
  pub loads : List Load
  pub deletions : List String
  pub coverage_start : ℕ
  pub coverage_end : ℕ
  pub reason : String

abbrev pub is_nil : List String → Bool
is_nil [] = true
is_nil (x ∷ xs) = false

-- A load unless the list is empty or the test fails.
abbrev pub load_if : Bool → List String → ℕ → ℕ → List Load → List Load
load_if true (s ∷ ss) start stop rest =
    record { subs = some (s ∷ ss); start = start; stop = stop } ∷ rest
load_if _ _ start stop rest = rest

abbrev pub initial_loading : Option (List String) → (start W : ℕ) → Loading
initial_loading subs start W = record {
  loads = record { subs = subs; start = start; stop = W } ∷ [];
  deletions = [];
  coverage_start = start;
  coverage_end = W;
  reason = "initial-full";
}

unfoldable pub projection_loading : State → Scope → (projection_start W : ℕ) → Loading
projection_loading state scope projection_start W = record {
  loads =
      record { subs = scope.subs; start = maximum state.coverage_start projection_start; stop = W }
      ∷ [];
  deletions = [];
  coverage_start = state.coverage_start;
  coverage_end = maximum state.coverage_end W;
  reason = "projection-rebuild";
}

unfoldable pub profile_loading : State → ℕ → Loading
profile_loading state W = record {
  loads =
      if leb W state.coverage_end
      then []
      else record { subs = none; start = state.coverage_end + 1; stop = W } ∷ [];
  deletions = [];
  coverage_start = state.coverage_start;
  coverage_end = maximum state.coverage_end W;
  reason = "refresh-all";
}

abbrev is_empty_loads : List Load → Bool
is_empty_loads [] = true
is_empty_loads (l ∷ ls) = false

module _ (less : String → String → Bool) where
  -- `sorted(set(xs) - set(ys))` and `sorted(set(xs) & set(ys))`
  abbrev pub difference : List String → List String → List String
  difference xs ys = sorted_set less (filter (λ s. not (contains ys s)) xs)

  abbrev pub intersection : List String → List String → List String
  intersection xs ys = sorted_set less (filter (contains ys) xs)

  abbrev pub subset_loads : State → (P N : List String) → ℕ → List Load
  subset_loads state P N W =
      load_if true (difference N P) state.coverage_start W
        (load_if (ltb state.coverage_end W) (intersection N P) (state.coverage_end + 1) W [])

  unfoldable pub subset_loading : State → (P N : List String) → ℕ → Loading
  subset_loading state P N W = record {
    loads = subset_loads state P N W;
    deletions = difference P N;
    coverage_start = state.coverage_start;
    coverage_end = maximum state.coverage_end W;
    reason =
        if not (is_nil (difference N P)) || not (is_nil (difference P N))
        then "reconcile"
        else if is_empty_loads (subset_loads state P N W)
        then "up-to-date"
        else "refresh";
  }

  -- The branches after the conflicts: a whole profile, or two subsets.
  abbrev pub forward_loading : State → (P N : Option (List String)) → ℕ → Option Loading
  forward_loading state none none W = some (profile_loading state W)
  forward_loading state (some P) (some N) W = some (subset_loading state P N W)
  forward_loading state _ _ W = none

  abbrev pub projection_from : State → Scope → ℕ → Option ℕ → Option Loading
  projection_from state scope W none = none
  projection_from state scope W (some start) = some (projection_loading state scope start W)

  unfoldable pub next_loading : Bool → State → Scope → ℕ → Option Loading
  unfolding projection_loading profile_loading subset_loading
  next_loading keeps_summary state scope W =
      if projection_is_current keeps_summary state
      then forward_loading state state.scope.subs scope.subs W
      else projection_from state scope W (days_before W 29)

pub record LoadPlan (Filter : Type 0) : Type 0 where
  pub reason : String
  pub deletions : List String
  pub work_units : List (WorkUnit Filter)
  pub streams : List Stream
  pub agreement : String
  pub new_state : State

pub data Plan (Filter : Type 0) : Type 0 where
  load : LoadPlan Filter → Plan Filter
  fail : (reason message : String) → Plan Filter

module _ (less : String → String → Bool) (print : Printer) (quote : String → String)
    {Filter : Type 0} (build_filter : Option (List String) → Filter) (keeps_summary : Bool) where
  -- `_new_state`, with the version that the store writes beside it.
  abbrev pub new_state : Scope → Loading → State
  new_state scope loading = record {
    scope = scope;
    coverage_start = loading.coverage_start;
    coverage_end = loading.coverage_end;
    projection_version = if keeps_summary then projection_version else 0;
  }

  abbrev pub plan_with :
      Scope → String → Loading → Option (List (WorkUnit Filter)) → Option (Plan Filter)
  plan_with scope agreement loading none = none
  plan_with scope agreement loading (some units) = some (
      load (record {
        reason = loading.reason;
        deletions = loading.deletions;
        work_units = units;
        streams = refresh_streams agreement;
        agreement = agreement;
        new_state = new_state scope loading;
      }))

  abbrev pub plan_of : Scope → String → Option Loading → Option (Plan Filter)
  plan_of scope agreement none = none
  plan_of scope agreement (some loading) =
      plan_with scope agreement loading (units_of_loads quote build_filter scope loading.loads)

  abbrev pub refused : State → Scope → Conflict → Option (Plan Filter)
  refused state scope conflict = some (
      fail (refuse_reason conflict)
        ("Refresh aborted — " ++ scope_change_message print state scope conflict))

  abbrev pub initial_from : Scope → ℕ → Option ℕ → Option Loading
  initial_from scope W none = none
  initial_from scope W (some start) = some (initial_loading scope.subs start W)

  abbrev pub unless_conflict : State → Scope → String → ℕ → Option Conflict → Option (Plan Filter)
  unless_conflict state scope agreement W (some conflict) = refused state scope conflict
  unless_conflict state scope agreement W none =
      plan_of scope agreement (next_loading less keeps_summary state scope W)

  unfoldable pub resolve_plan :
      Scope → (agreement : String) → (W historical_days : ℕ) → Option State → Option (Plan Filter)
  unfolding units_of_loads next_loading scope_conflict scope_change_message refresh_streams
  resolve_plan scope agreement W historical_days none =
      plan_of scope agreement (initial_from scope W (historical_start W historical_days))
  resolve_plan scope agreement W historical_days (some state) =
      unless_conflict state scope agreement W (scope_conflict state scope)
