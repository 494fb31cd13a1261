-- ===== src/AppScope/Tests.antt =====
-- The bounds of a scope at a concrete request.
use az_capa.Prelude.{
  String, ◌≡◌, refl, Bool, true, false, ◌&&◌, none, some, List, [], ◌∷◌, contains,
}
use az_capa.AppScope.{
  ResolvedAppScope, ConfiguredAppScope, mode_subscriptions, mode_management_groups,
  intersect_filters,
}
use az_capa.AppScope.Resolution.{Entry, values_of, resolve_app_scope}
use az_capa.AppScope.Resolution.Resolved.{Outcome, resolve_app_scope-Outcome}
use az_capa.AppScope.Bounds.{admits, Located, intersect_filters-Bounded}

abbrev same : String → String
same s = s

abbrev unordered : String → String → Bool
unordered s t = false

abbrev scope : ResolvedAppScope
scope = record {
  configured = record {
    mode = mode_subscriptions;
    selectors = "s1" ∷ "s2" ∷ [];
    locations = "westeurope" ∷ [];
  };
  subscription_ids = "s1" ∷ "s2" ∷ [];
}

intersect_filters-Bounded_example :
    ((s : String)
      → contains
          (intersect_filters same unordered scope (some ("s2" ∷ "s3" ∷ [])) none).subscription_ids
          s
        ≡ (contains scope.subscription_ids s && admits same unordered (some ("s2" ∷ "s3" ∷ [])) s))
    × Located same unordered scope.configured.locations none
        (intersect_filters same unordered scope (some ("s2" ∷ "s3" ∷ [])) none).locations
intersect_filters-Bounded_example =
    intersect_filters-Bounded same unordered scope (some ("s2" ∷ "s3" ∷ [])) none

abbrev grouped : ConfiguredAppScope
grouped = record { mode = mode_management_groups; selectors = "g" ∷ []; locations = [] }

abbrev inventory : List Entry
inventory =
    record { id = "s1"; ancestors = some "g" ∷ none ∷ [] }
    ∷ record { id = "s2"; ancestors = some "h" ∷ [] }
    ∷ []

resolve_app_scope-Outcome_example :
    Outcome same unordered grouped
      (values_of same unordered none (some inventory) true)
      (resolve_app_scope same unordered grouped none (some inventory) true)
resolve_app_scope-Outcome_example =
    resolve_app_scope-Outcome same unordered grouped none (some inventory) true refl
