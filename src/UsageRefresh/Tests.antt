-- ===== src/UsageRefresh/Tests.antt =====
-- The theorems on plans and records at concrete inputs.
use az_capa.Prelude.{
  ℕ, String, ◌≡◌, refl, Bool, true, false, not, ◌&&◌, Option, none, some, is_some, List, [], ◌∷◌,
  any, arith,
}
use az_capa.Json.{str}
use az_capa.UsageRefresh.Scope.{Scope, State, Printer, scope_conflict}
use az_capa.UsageRefresh.Units.{
  WorkUnit, build_scope, units_of_loads, work_units, subscription_units, refresh_streams,
}
use az_capa.UsageRefresh.Plan.{
  LoadPlan, load, resolve_plan, next_loading, projection_loading, profile_loading, subset_loading,
  days_before,
}
use az_capa.UsageRefresh.Coverage.{Dataset, Holds, covers, within, implies}
use az_capa.UsageRefresh.Coverage.Units.{IsReader}
use az_capa.UsageRefresh.Coverage.Kept.{executed, resolve_plan-Holds, resolve_plan-projection_gap}
use az_capa.UsageRefresh.Status.{status, is_refusal, status-resolve_plan}
use az_capa.UsageRefresh.Records.{
  Row, Reader, map_page_records, merge_all, map_page_records-merge_all,
}

abbrev unordered : String → String → Bool
unordered s t = false

abbrev plain : Printer
plain = record { list = λ ss. "[]"; count = λ n. "n"; day = λ d. "day"; optional = λ o. "None" }

abbrev same : String → String
same s = s

-- A filter is the subscriptions it names, and a query reads everything.
abbrev names : Option (List String) → Option (List String)
names subs = subs

abbrev reads_all : WorkUnit (Option (List String)) → String → Bool
reads_all u s = true

implies-true : (a : Bool) → implies a true ≡ true
implies-true a = ground arith

reads_all-IsReader : IsReader same names reads_all
reads_all-IsReader = record {
  per_sub = λ s scope start stop h. refl;
  per_billing = λ account profile subs scope start stop s h. implies-true (covers subs s);
}

abbrev scope_of : List String → Scope
scope_of subs = record {
  method = "per-sub";
  billing_account = none;
  billing_profile = none;
  subs = some subs;
  selectors = record { subscriptions = subs; management_groups = [] };
}

abbrev stored : ℕ → State
stored version = record {
  scope = scope_of ("a" ∷ "b" ∷ []);
  coverage_start = 100;
  coverage_end = 150;
  projection_version = version;
}

-- One subscription goes and one comes.
abbrev next : Scope
next = scope_of ("b" ∷ "c" ∷ [])

abbrev rows : Dataset
rows s d = covers (stored 1).scope.subs s && within 100 150 d

planned :
    (plan : LoadPlan (Option (List String))) × (resolve_plan unordered plain same names true next
        "ea" 160 30
        (some (stored 1))
      ≡ some (load plan))
unfolding resolve_plan scope_conflict next_loading profile_loading subset_loading projection_loading
    units_of_loads work_units subscription_units build_scope refresh_streams
planned = (_, refl)

implies_same : (a : Bool) → implies a a ≡ true
implies_same a = ground arith

resolve_plan-Holds_example :
    Holds planned.0.new_state (executed unordered plain same names true reads_all planned.0 rows)
resolve_plan-Holds_example =
    resolve_plan-Holds unordered plain same names true reads_all reads_all-IsReader next "ea" 160 30
      (some (stored 1)) rows planned.0 (refl, omega arith, λ s d. implies_same (rows s d)) planned.1

rebuilt :
    (plan : LoadPlan (Option (List String))) × (resolve_plan unordered plain same names true next
        "ea" 160 30
        (some (stored 0))
      ≡ some (load plan))
unfolding resolve_plan scope_conflict next_loading profile_loading subset_loading projection_loading
    units_of_loads work_units subscription_units build_scope refresh_streams days_before
rebuilt = (_, refl)

no_conflict : scope_conflict (stored 0) next ≡ none
unfolding scope_conflict
no_conflict = refl

resolve_plan-projection_gap_example :
    (rebuilt.0.deletions ≡ [])
    × ((covers rebuilt.0.new_state.scope.subs "c"
          && within rebuilt.0.new_state.coverage_start rebuilt.0.new_state.coverage_end 100)
        ≡ true)
    × (any (λ (u : WorkUnit (Option (List String))). within u.start u.stop 100) rebuilt.0.work_units
        ≡ false)
resolve_plan-projection_gap_example =
    resolve_plan-projection_gap unordered plain same names true reads_all next "ea" 160 30
      (stored 0) rebuilt.0 "c" 100 refl no_conflict rebuilt.1 refl (omega arith) (omega arith)

status-resolve_plan_example :
    ((status plain next 160 (some (stored 1))).is_refresh_enabled
      ≡ not (
          is_refusal unordered plain same names true
            (resolve_plan unordered plain same names true next "ea" 160 30 (some (stored 1)))))
    × (is_some (status plain next 160 (some (stored 1))).warning
        ≡ not (status plain next 160 (some (stored 1))).is_refresh_enabled)
status-resolve_plan_example =
    status-resolve_plan unordered plain same names true next "ea" 160 30 (some (stored 1))

abbrev reader : Reader ℕ
reader = record {
  lower = same;
  text_of = λ j. "20260101";
  text_of_int = λ j. "20260101";
  is_digits = λ s. true;
  float_or_zero = λ o. 1;
}

abbrev page : List (Row ℕ)
page =
    record {
      resource_id = some "/subscriptions/a/vm";
      usage_date = some (str "20260101");
      currency = none;
      usage_quantity = none;
      cost = none;
    }
    ∷ []

map_page_records-merge_all_example :
    merge_all (map_page_records reader "hours" page) (map_page_records reader "cost" page)
    ≡ map_page_records reader "both" page
map_page_records-merge_all_example = map_page_records-merge_all reader page
