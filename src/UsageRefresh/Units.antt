-- ===== src/UsageRefresh/Units.antt =====
-- `refresh_streams`, `_work_units` and `_plan` of services/usage_refresh.py, `build_scope` of
-- clients/cost_management.py. The URL quoting and the pipeline's filter are parameters; `none` is an
-- exception.
use Prim.Native.String.{◌++◌}
use az_capa.Prelude.{
  ℕ, String, Bool, true, false, Option, none, some, List, [], ◌∷◌, map, str_eq, ltb, if◌then◌else◌,
  truthy,
}
use az_capa.Prelude as Prelude
use az_capa.UsageRefresh.Scope.{Scope, method_per_sub, method_per_billing}

pub record Stream : Type 0 where
  pub export_type : String
  pub aggregations : List String
  pub kind : String

unfoldable pub refresh_streams : String → List Stream
refresh_streams agreement =
    if str_eq agreement "mca"
    then record {
      export_type = "AmortizedCost";
      aggregations = "UsageQuantity" ∷ "Cost" ∷ [];
      kind = "both";
    }
      ∷ []
    else record { export_type = "ActualCost"; aggregations = "UsageQuantity" ∷ []; kind = "hours" }
      ∷ record { export_type = "AmortizedCost"; aggregations = "Cost" ∷ []; kind = "cost" }
      ∷ []

-- What one load reads: some subscriptions, or the whole profile, from a day to a day.
pub record Load : Type 0 where
  pub subs : Option (List String)
  pub start : ℕ
  pub stop : ℕ

pub record WorkUnit (Filter : Type 0) : Type 0 where
  pub scope : String
  pub filter : Filter
  pub start : ℕ
  pub stop : ℕ

abbrev pub present : Option String → Option String
present none = none
present (some s) = if str_eq s "" then none else some s

module _ (quote : String → String) where
  abbrev profile_path : Option String → String
  profile_path none = ""
  profile_path (some profile) = "/billingProfiles/" ++ quote profile

  abbrev subscription_scope : Option String → Option String
  subscription_scope none = none
  subscription_scope (some s) = some ("/subscriptions/" ++ quote s)

  abbrev billing_scope : Option String → Option String → Option String
  billing_scope none profile = none
  billing_scope (some account) profile = some (
      "/providers/Microsoft.Billing/billingAccounts/"
      ++ (quote account ++ profile_path (present profile)))

  unfoldable pub build_scope :
      (method : String) (subscription_id billing_account_id billing_profile_id : Option String)
      → Option String
  build_scope method subscription_id billing_account_id billing_profile_id =
      if str_eq method method_per_sub
      then subscription_scope (present subscription_id)
      else if str_eq method method_per_billing
      then billing_scope (present billing_account_id) billing_profile_id
      else none

  module _ {Filter : Type 0} (build_filter : Option (List String) → Filter) where
    abbrev pub unit_at : ℕ → ℕ → Option (List String) → String → WorkUnit Filter
    unit_at start stop subs scope = record {
      scope = scope;
      filter = build_filter subs;
      start = start;
      stop = stop;
    }

    abbrev pub cons_unit :
        Option String → ℕ → ℕ → Option (List (WorkUnit Filter)) → Option (List (WorkUnit Filter))
    cons_unit (some scope) start stop (some units) = some (unit_at start stop none scope ∷ units)
    cons_unit _ start stop _ = none

    -- One unit for each subscription.
    unfoldable pub subscription_units : List String → ℕ → ℕ → Option (List (WorkUnit Filter))
    unfolding build_scope
    subscription_units [] start stop = some []
    subscription_units (s ∷ ss) start stop =
        cons_unit (build_scope method_per_sub (some s) none none) start stop
          (subscription_units ss start stop)

    abbrev pub one_unit :
        Option String → Option (List String) → ℕ → ℕ → Option (List (WorkUnit Filter))
    one_unit none subs start stop = none
    one_unit (some scope) subs start stop = some (unit_at start stop subs scope ∷ [])

    -- A list of None is a TypeError.
    abbrev pub units_per_sub : Option (List String) → ℕ → ℕ → Option (List (WorkUnit Filter))
    units_per_sub none start stop = none
    units_per_sub (some subs) start stop = subscription_units subs start stop

    unfoldable pub work_units : Scope → Load → Option (List (WorkUnit Filter))
    unfolding subscription_units
    work_units scope load =
        if ltb load.stop load.start
        then some []
        else if str_eq scope.method method_per_sub
        then units_per_sub load.subs load.start load.stop
        else one_unit
            (build_scope method_per_billing none scope.billing_account scope.billing_profile)
            load.subs load.start load.stop

    abbrev pub append_units :
        Option (List (WorkUnit Filter))
        → Option (List (WorkUnit Filter))
        → Option (List (WorkUnit Filter))
    append_units (some us) (some vs) = some (Prelude.◌++◌ us vs)
    append_units _ _ = none

    -- The loop of `_plan`.
    unfoldable pub units_of_loads : Scope → List Load → Option (List (WorkUnit Filter))
    unfolding work_units
    units_of_loads scope [] = some []
    units_of_loads scope (l ∷ ls) = append_units (work_units scope l) (units_of_loads scope ls)
