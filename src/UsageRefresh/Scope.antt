-- ===== src/UsageRefresh/Scope.antt =====
-- The scope of a refresh and the state that the last one stored, their description and their
-- conflicts: services/usage_refresh.py. A day is its ordinal. Python's printing of lists and dates
-- is a parameter.
use Prim.Native.String.{◌++◌}
use az_capa.Prelude.{
  ℕ, String, Bool, true, false, not, ◌&&◌, Option, none, some, List, [], ◌∷◌, str_eq, length,
  if◌then◌else◌,
}

abbrev pub method_per_sub : String
method_per_sub = "per-sub"

abbrev pub method_per_billing : String
method_per_billing = "per-billing"

-- `configSelectors`
pub record Selectors : Type 0 where
  pub subscriptions : List String
  pub management_groups : List String

-- `subs` is none for the whole profile.
pub record Scope : Type 0 where
  pub method : String
  pub billing_account : Option String
  pub billing_profile : Option String
  pub subs : Option (List String)
  pub selectors : Selectors

pub record State : Type 0 where
  pub scope : Scope
  pub coverage_start : ℕ
  pub coverage_end : ℕ
  pub projection_version : ℕ

abbrev pub opt_same : Option String → Option String → Bool
opt_same none none = true
opt_same (some s) (some t) = str_eq s t
opt_same _ _ = false

-- `_structural(state) != _structural(scope)`, negated
abbrev pub same_structure : Scope → Scope → Bool
same_structure a b =
    str_eq a.method b.method
    && (opt_same a.billing_account b.billing_account
        && opt_same a.billing_profile b.billing_profile)

pub data Conflict : Type 0 where
  structural : Conflict
  boundary : Conflict

abbrev pub same_boundary : Option (List String) → Option (List String) → Bool
same_boundary none none = true
same_boundary (some p) (some n) = true
same_boundary _ _ = false

unfoldable pub scope_conflict : State → Scope → Option Conflict
scope_conflict state scope =
    if not (same_structure state.scope scope)
    then some structural
    else if not (same_boundary state.scope.subs scope.subs)
    then some boundary
    else none

abbrev pub refuse_reason : Conflict → String
refuse_reason structural = "structural configuration change (method, or billing account/profile)"
refuse_reason boundary = "switching between the whole unfiltered profile and a subscription subset"

-- How Python prints a list of texts, a count, a day and an optional text.
pub record Printer : Type 0 where
  pub list : List String → String
  pub count : ℕ → String
  pub day : ℕ → String
  pub optional : Option String → String

module _ (print : Printer) where
  -- Of the management groups and the subscriptions that are configured, and those resolved.
  abbrev subset_description : (management_groups subscriptions subs : List String) → String
  subset_description (g ∷ gs) configured subs =
      "management group(s) "
      ++ (print.list (g ∷ gs) ++ (" (" ++ (print.count (length subs) ++ " subscriptions)")))
  subset_description [] (s ∷ ss) subs = print.count (length subs) ++ " configured subscription(s)"
  subset_description [] [] subs = print.count (length subs) ++ " subscription(s)"

  abbrev scope_description : Selectors → Option (List String) → String
  scope_description selectors none = "whole profile (unfiltered)"
  scope_description selectors (some subs) =
      subset_description selectors.management_groups selectors.subscriptions subs

  unfoldable pub describe_scope : Scope → String
  describe_scope scope =
      (if str_eq scope.method method_per_billing
        then "method=per-billing, billingProfile=" ++ print.optional scope.billing_profile
        else "method=per-sub")
      ++ (", scope=" ++ scope_description scope.selectors scope.subs)

  unfoldable pub scope_change_message : State → Scope → Conflict → String
  unfolding describe_scope
  scope_change_message state scope conflict =
      "this scope change requires a full rebuild (reason: "
      ++ (refuse_reason conflict
          ++ ("). Previously loaded: "
              ++ (describe_scope state.scope
                  ++ (", covered "
                      ++ (print.day state.coverage_start
                          ++ (" -> "
                              ++ (print.day state.coverage_end
                                  ++ (". Now configured: "
                                      ++ (describe_scope scope
                                          ++ ". If unintended, revert your SCOPE_* settings. Otherwise flush then refresh.")))))))))
