-- ===== src/UsageRefresh/Status.antt =====
-- `status` of `RefreshPipeline`, services/usage_refresh.py, and how it agrees with `resolve_plan`.
use az_capa.Prelude.{
  ℕ, String, ◌≡◌, refl, Bool, true, false, not, List, Option, none, some, is_some, Option-cases,
  inl, inr,
}
use az_capa.Prelude.Int.{ℤ, pos, sub_ℕ, ltb_ℤ}
use az_capa.UsageRefresh.Scope.{
  Scope, State, Conflict, scope_conflict, Printer, describe_scope, scope_change_message,
}
use az_capa.UsageRefresh.Plan.{Plan, fail, Loading, plan_of, plan_with, next_loading, resolve_plan}
use az_capa.UsageRefresh.Units.{WorkUnit, units_of_loads}

pub record Status : Type 0 where
  pub has_data : Bool
  pub is_refresh_enabled : Bool
  pub warning : Option String
  pub finalized_through : ℕ
  pub coverage_start : Option ℕ
  pub coverage_end : Option ℕ
  pub staleness_days : Option ℤ
  pub is_stale : Option Bool
  pub current_scope : String
  pub last_loaded_scope : Option String

module _ (print : Printer) where
  abbrev pub warning_of : State → Scope → Option Conflict → Option String
  warning_of state scope none = none
  warning_of state scope (some conflict) = some (scope_change_message print state scope conflict)

  unfoldable pub status : Scope → (W : ℕ) → Option State → Status
  unfolding scope_conflict scope_change_message describe_scope
  status scope W none = record {
    has_data = false;
    is_refresh_enabled = true;
    warning = none;
    finalized_through = W;
    coverage_start = none;
    coverage_end = none;
    staleness_days = none;
    is_stale = none;
    current_scope = describe_scope print scope;
    last_loaded_scope = none;
  }
  status scope W (some state) = record {
    has_data = true;
    is_refresh_enabled = not (is_some (scope_conflict state scope));
    warning = warning_of state scope (scope_conflict state scope);
    finalized_through = W;
    coverage_start = some state.coverage_start;
    coverage_end = some state.coverage_end;
    staleness_days = some (sub_ℕ W state.coverage_end);
    is_stale = some (ltb_ℤ (pos 0) (sub_ℕ W state.coverage_end));
    current_scope = describe_scope print scope;
    last_loaded_scope = some (describe_scope print state.scope);
  }

module _ (less : String → String → Bool) (print : Printer) (quote : String → String)
    {Filter : Type 0} (build_filter : Option (List String) → Filter) (keeps_summary : Bool) where
  abbrev pub is_refusal : Option (Plan Filter) → Bool
  is_refusal (some (fail reason message)) = true
  is_refusal _ = false

  plan_with-is_refusal :
      (scope : Scope) (agreement : String) (loading : Loading) (o : Option (List (WorkUnit Filter)))
      → is_refusal (plan_with less print quote build_filter keeps_summary scope agreement loading o)
        ≡ false
  plan_with-is_refusal scope agreement loading none = refl
  plan_with-is_refusal scope agreement loading (some us) = refl

  plan_of-is_refusal :
      (scope : Scope) (agreement : String) (o : Option Loading)
      → is_refusal (plan_of less print quote build_filter keeps_summary scope agreement o) ≡ false
  plan_of-is_refusal scope agreement none = refl
  plan_of-is_refusal scope agreement (some loading) =
      plan_with-is_refusal scope agreement loading
        (units_of_loads quote build_filter scope loading.loads)

  -- The status says that a refresh is enabled exactly if the plan of this scope and day is no
  -- refusal, whatever is stored; and it shows a warning exactly if it is disabled.
  pub status-resolve_plan :
      (scope : Scope) (agreement : String) (W historical_days : ℕ) (stored : Option State)
      → ((status print scope W stored).is_refresh_enabled
          ≡ not (
              is_refusal (
                resolve_plan less print quote build_filter keeps_summary scope agreement W
                  historical_days stored)))
        × (is_some (status print scope W stored).warning
            ≡ not (status print scope W stored).is_refresh_enabled)
  unfolding status resolve_plan
  status-resolve_plan scope agreement W historical_days none =
      (rw (plan_of-is_refusal scope agreement _), refl)
  status-resolve_plan scope agreement W historical_days (some state) =
      elim (Option-cases (scope_conflict state scope)) [
        | inl fine ↦ (
          rw (
            fine,
            plan_of-is_refusal scope agreement (next_loading less keeps_summary state scope W),
          ),
          rw fine,
        )
        | inr (conflict, found) ↦ (rw found, rw found)
      ]
