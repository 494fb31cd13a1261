-- ===== src/SubscriptionContext/Sums.antt =====
-- The numbers of a preview add up, services/subscription_context.py.
use az_capa.Prelude.{
  ℕ, suc, ◌+◌, String, ◌≡◌, refl, ap, sym, ◌∙◌, Bool, not, Option, none, some, is_some, List, [],
  ◌∷◌, map, str_eq, contains, sorted_set, filter, length, get_or, arith, Bool-cases, Option-cases,
  inl, inr,
}
use az_capa.SubscriptionContext.{get}
use az_capa.SubscriptionContext.Summary.{
  PopulationSummary, Preview, increment, count_values, mapped_count, count_reasons,
  population_summary, normalized, unless_empty, build_preview,
}

abbrev pub sum_of : List (String × ℕ) → ℕ
sum_of [] = 0
sum_of ((_, n) ∷ rest) = n + sum_of rest

sum_of-increment :
    (k : String) (counts : List (String × ℕ)) → sum_of (increment k counts) ≡ suc (sum_of counts)
sum_of-increment k [] = refl
sum_of-increment k ((j, n) ∷ rest) =
    let later = sum_of-increment k rest in
    elim (Bool-cases (str_eq j k)) [
      | inl same ↦ rw same (omega arith)
      | inr other ↦ rw other (omega (arith, later))
    ]

module _ (mapping : List (String × String)) where
  sum_of-count_values :
      (ids : List String) (counts : List (String × ℕ))
      → sum_of (count_values mapping ids counts) ≡ mapped_count mapping ids + sum_of counts
  unfolding count_values mapped_count
  sum_of-count_values [] counts = omega arith
  sum_of-count_values (id ∷ ids) counts = elim (Option-cases (get id mapping)) [
    | inl absent ↦ rw absent (sum_of-count_values ids counts)
    | inr (value, found) ↦
        let rest = sum_of-count_values ids (increment value counts) in
        let one = sum_of-increment value counts in rw found (omega (arith, rest, one))
  ]

  sum_of-count_reasons :
      (reasons : List (String × String)) (ids : List String) (counts : List (String × ℕ))
      → sum_of (count_reasons mapping reasons ids counts) + mapped_count mapping ids
        ≡ length ids + sum_of counts
  unfolding count_reasons mapped_count
  sum_of-count_reasons reasons [] counts = omega arith
  sum_of-count_reasons reasons (id ∷ ids) counts = elim (Bool-cases (is_some (get id mapping))) [
    | inl found ↦
        let rest = sum_of-count_reasons reasons ids counts in rw found (omega (arith, rest))
    | inr absent ↦
        let reason = get_or (get id reasons) "no_source_value" in
        let rest = sum_of-count_reasons reasons ids (increment reason counts) in
        let one = sum_of-increment reason counts in rw absent (omega (arith, rest, one))
  ]

length-filter :
    (p : String → Bool) (xs : List String)
    → length (filter p xs) + length (filter (λ s. not (p s)) xs) ≡ length xs
length-filter p [] = refl
length-filter p (x ∷ xs) =
    let rest = length-filter p xs in
    elim (Bool-cases (p x)) [
      | inl kept ↦ rw kept (omega (arith, rest))
      | inr dropped ↦ rw dropped (omega (arith, rest))
    ]

module _ {F : Type 0} where
  -- The counts of the values are of the mapped subscriptions, those of the reasons are of the others,
  -- and both together are all.
  abbrev pub IsBalanced : PopulationSummary F → Type 0
  IsBalanced summary =
      (sum_of summary.value_counts ≡ summary.mapped_subscriptions)
      × (sum_of summary.unmapped_by_reason ≡ summary.unmapped_subscriptions)
      × (summary.mapped_subscriptions + summary.unmapped_subscriptions
          ≡ summary.total_subscriptions)

  abbrev pub total_of : Option (PopulationSummary F) → ℕ
  total_of none = 0
  total_of (some summary) = summary.total_subscriptions

  abbrev pub IsBalancedIfGiven : Option (PopulationSummary F) → Type 0
  IsBalancedIfGiven none = Unit
  IsBalancedIfGiven (some summary) = IsBalanced summary

  abbrev pub IsBalancedPreview : Preview F → Type 0
  IsBalancedPreview preview =
      IsBalanced preview.in_scope
      × IsBalancedIfGiven preview.outside_scope
      × (preview.in_scope.total_subscriptions + total_of preview.outside_scope
          ≡ length preview.values)

  module _ (percent : ℕ → ℕ → F) (zero_percent : F) where
    population_summary-IsBalanced :
        (mapping : List (String × String)) (ids : List String) (reasons : List (String × String))
        → IsBalanced (population_summary percent zero_percent mapping ids reasons)
    unfolding population_summary
    population_summary-IsBalanced mapping ids reasons =
        let values = sum_of-count_values mapping ids [] in
        let others = sum_of-count_reasons mapping reasons ids [] in
        (omega (arith, values), omega (arith, others), omega (arith, others))

    outside-IsBalanced :
        (mapping : List (String × String)) (ids : List String) (reasons : List (String × String))
        (canonical : String → String) (less : String → String → Bool)
        → (total_of (
              unless_empty percent zero_percent canonical less ids
                (population_summary percent zero_percent mapping ids reasons))
            ≡ length ids)
          × IsBalancedIfGiven (
              unless_empty percent zero_percent canonical less ids
                (population_summary percent zero_percent mapping ids reasons))
    unfolding population_summary
    outside-IsBalanced mapping [] reasons canonical less = (refl, tt)
    outside-IsBalanced mapping (id ∷ ids) reasons canonical less =
        (refl, population_summary-IsBalanced mapping (id ∷ ids) reasons)

    -- In each part of a preview the counts of the values and of the reasons add up to the mapped and
    -- the unmapped subscriptions, and these to the total; and the totals of both parts add up to the
    -- accessible subscriptions.
    pub build_preview-IsBalanced :
        (canonical : String → String) (less : String → String → Bool)
        (mapping : List (String × String)) (accessible in_scope : List String)
        (reasons : List (String × String))
        → IsBalancedPreview
            (build_preview percent zero_percent canonical less mapping accessible in_scope reasons)
    unfolding build_preview population_summary
    build_preview-IsBalanced canonical less mapping accessible in_scope reasons =
        let ids = sorted_set less (normalized percent zero_percent canonical less accessible) in
        let scope = sorted_set less (normalized percent zero_percent canonical less in_scope) in
        let (total, outside) =
          outside-IsBalanced mapping (filter (λ s. not (contains scope s)) ids) reasons canonical
            less in
        (
          population_summary-IsBalanced mapping (filter (λ s. contains scope s) ids) reasons,
          outside,
          ap (λ n. length (filter (λ s. contains scope s) ids) + n) total
              ∙ (length-filter (λ s. contains scope s) ids
                  ∙ sym (length-map (λ s. (s, get s mapping)) ids)),
        )
      where
        length-map :
            (f : String → String × Option String) (xs : List String) → length (map f xs) ≡ length xs
        length-map f [] = refl
        length-map f (x ∷ xs) = ap suc (length-map f xs)
