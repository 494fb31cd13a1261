-- ===== src/SubscriptionContext/Summary.antt =====
-- `build_preview` and `_population_summary` of services/subscription_context.py. The percentage is a
-- parameter, of the mapped ones and the total, and a set is an ordered list.
use az_capa.Prelude.{
  ℕ, suc, ◌-◌, String, Bool, not, Option, none, some, is_some, List, [], ◌∷◌, map, str_eq, contains,
  sorted_set, filter, length, get_or, if◌then◌else◌, ◌==◌,
}
use az_capa.SubscriptionContext.{get}

pub record PopulationSummary (F : Type 0) : Type 0 where
  pub total_subscriptions : ℕ
  pub mapped_subscriptions : ℕ
  pub unmapped_subscriptions : ℕ
  pub coverage_percent : F
  pub value_counts : List (String × ℕ)
  pub unmapped_by_reason : List (String × ℕ)

pub record Preview (F : Type 0) : Type 0 where
  pub values : List (String × Option String)
  pub in_scope : PopulationSummary F
  pub outside_scope : Option (PopulationSummary F)

-- `d[k] = d.get(k, 0) + 1`
abbrev pub increment : String → List (String × ℕ) → List (String × ℕ)
increment k [] = (k, 1) ∷ []
increment k ((j, n) ∷ rest) =
    let later = increment k rest in if str_eq j k then (j, suc n) ∷ rest else (j, n) ∷ later

abbrev pub count_value : Option String → List (String × ℕ) → List (String × ℕ)
count_value none counts = counts
count_value (some value) counts = increment value counts

unfoldable pub count_values :
    (mapping : List (String × String)) → List String → List (String × ℕ) → List (String × ℕ)
count_values mapping [] counts = counts
count_values mapping (id ∷ ids) counts =
    count_values mapping ids (count_value (get id mapping) counts)

unfoldable pub mapped_count : (mapping : List (String × String)) → List String → ℕ
mapped_count mapping [] = 0
mapped_count mapping (id ∷ ids) =
    let rest = mapped_count mapping ids in if is_some (get id mapping) then suc rest else rest

unfoldable pub count_reasons :
    (mapping missing_reasons : List (String × String))
    → List String
    → List (String × ℕ)
    → List (String × ℕ)
count_reasons mapping missing_reasons [] counts = counts
count_reasons mapping missing_reasons (id ∷ ids) counts =
    let kept = count_reasons mapping missing_reasons ids counts in
    let added =
      count_reasons mapping missing_reasons ids
        (increment (get_or (get id missing_reasons) "no_source_value") counts) in
    if is_some (get id mapping) then kept else added

module _ {F : Type 0} (percent : (mapped total : ℕ) → F) (zero_percent : F) where
  unfoldable pub population_summary :
      (mapping : List (String × String))
      → List String
      → (missing_reasons : List (String × String)) → PopulationSummary F
  unfolding count_values mapped_count count_reasons
  population_summary mapping ids missing_reasons = record {
    total_subscriptions = length ids;
    mapped_subscriptions = mapped_count mapping ids;
    unmapped_subscriptions = length ids - mapped_count mapping ids;
    coverage_percent =
        if length ids == 0 then zero_percent else percent (mapped_count mapping ids) (length ids);
    value_counts = count_values mapping ids [];
    unmapped_by_reason = count_reasons mapping missing_reasons ids [];
  }

  module _ (canonical : String → String) (less : String → String → Bool) where
    abbrev pub normalized : List String → List String
    normalized [] = []
    normalized (s ∷ ss) =
        if str_eq (canonical s) "" then normalized ss else canonical s ∷ normalized ss

    abbrev pub unless_empty : List String → PopulationSummary F → Option (PopulationSummary F)
    unless_empty [] summary = none
    unless_empty (x ∷ xs) summary = some summary

    unfoldable pub build_preview :
        (mapping : List (String × String))
        → (accessible_ids in_scope_ids : List String) → (missing_reasons : List (String × String))
        → Preview F
    unfolding population_summary
    build_preview mapping accessible_ids in_scope_ids missing_reasons =
        let accessible = sorted_set less (normalized accessible_ids) in
        let scope = sorted_set less (normalized in_scope_ids) in
        let outside = filter (λ s. not (contains scope s)) accessible in
        record {
          values = map (λ s. (s, get s mapping)) accessible;
          in_scope =
              population_summary mapping (filter (λ s. contains scope s) accessible)
                missing_reasons;
          outside_scope = unless_empty outside (population_summary mapping outside missing_reasons);
        }
