-- ===== src/AppScope/Bounds.antt =====
-- A request never sees more than the app's scope.
use az_capa.Prelude.{
  String, ◌≡◌, ◌⊎◌, refl, sym, Bool, true, false, ◌&&◌, Option, none, some, List, [], ◌∷◌, contains,
  filter, contains-filter, false_and, arith, inl, inr,
}
use az_capa.AppScope.{
  ResolvedAppScope, wanted, or_none, canonical_values, effective_subs, effective_locs,
  intersect_filters,
}

or_none-cases : (xs : List String) → (or_none xs ≡ none) ⊎ (or_none xs ≡ some xs)
or_none-cases [] = inl refl
or_none-cases (x ∷ xs) = inr refl

module _ (canonical : String → String) (less : String → String → Bool) where
  -- The request's part of the test: no list, or a list that names the value or has no value but
  -- blank ones. An empty list admits nothing.
  abbrev pub admits : Option (List String) → String → Bool
  admits none s = true
  admits (some []) s = false
  admits (some (r ∷ rs)) s = wanted (canonical_values canonical less (r ∷ rs)) s

  effective_subs-contains :
      (allowed : List String) (requested : Option (List String)) (s : String)
      → contains (effective_subs canonical less allowed requested) s
        ≡ (contains allowed s && admits requested s)
  effective_subs-contains allowed none s = ground arith
  effective_subs-contains allowed (some []) s = ground arith
  effective_subs-contains allowed (some (r ∷ rs)) s =
      contains-filter (wanted (canonical_values canonical less (r ∷ rs))) allowed s

  abbrev pub names : Option (List String) → String → Bool
  names none s = false
  names (some rs) s = contains (canonical_values canonical less rs) s

  -- Without configured locations: no restriction, or exactly what the request names.
  abbrev pub Located : List String → Option (List String) → Option (List String) → Type 0
  Located [] requested locations =
      (locations ≡ none)
      ⊎ ((ls : List String) × (locations ≡ some ls)
          × ((s : String) → contains ls s ≡ names requested s))
  Located (a ∷ allowed) requested locations =
      (ls : List String) × (locations ≡ some ls)
      × ((s : String) → contains ls s ≡ (contains (a ∷ allowed) s && admits requested s))

  effective_locs-Located :
      (allowed : List String) (requested : Option (List String))
      → Located allowed requested (effective_locs canonical less allowed requested)
  unfolding canonical_values
  effective_locs-Located [] none = inl refl
  effective_locs-Located [] (some []) = inr ([], refl, λ s. refl)
  effective_locs-Located [] (some (r ∷ rs)) =
      elim (or_none-cases (canonical_values canonical less (r ∷ rs))) [
        | inl nothing ↦ inl nothing
        | inr named ↦ inr (canonical_values canonical less (r ∷ rs), named, λ s. refl)
      ]
  effective_locs-Located (a ∷ allowed) none =
      (filter (wanted []) (a ∷ allowed), refl, contains-filter (wanted []) (a ∷ allowed))
  effective_locs-Located (a ∷ allowed) (some []) =
      ([], refl, λ s. sym (false_and (contains (a ∷ allowed) s)))
  effective_locs-Located (a ∷ allowed) (some (r ∷ rs)) = (
    filter (wanted (canonical_values canonical less (r ∷ rs))) (a ∷ allowed),
    refl,
    contains-filter (wanted (canonical_values canonical less (r ∷ rs))) (a ∷ allowed),
  )

  pub intersect_filters-Bounded :
      (scope : ResolvedAppScope) (subs locs : Option (List String))
      → ((s : String)
          → contains (intersect_filters canonical less scope subs locs).subscription_ids s
            ≡ (contains scope.subscription_ids s && admits subs s))
        × Located scope.configured.locations locs
            (intersect_filters canonical less scope subs locs).locations
  unfolding intersect_filters
  intersect_filters-Bounded scope subs locs = (
    effective_subs-contains scope.subscription_ids subs,
    effective_locs-Located scope.configured.locations locs,
  )
