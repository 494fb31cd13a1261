-- ===== src/ActivityLog/Recipes/Pushed.antt =====
-- The operations that the plan asks the server for cover every event that a recipe matches.
use az_capa.Prelude.{
  String, ◌≡◌, refl, Bool, true, none, Option, some, List, [], ◌∷◌, map, ◌∙◌, contains, All,
  contains-append, or-left, or-right, contains-sorted_set, and-true_iff, arith, Bool-cases, inl,
  inr, truthy,
}
use mathlib.Core.List.{Memᴰ}
use mathlib.Core.List.Memᴰ.{head, tail}
use az_capa.ActivityLog.Recipes.Declared.{Recipe, nonempty_list}
use az_capa.ActivityLog.Recipes.Table.{recipes}
use az_capa.ActivityLog.Recipes.{
  server_operations, operations_of, event_matches, folds_into, kept, matching_recipes,
}

every_recipe_named : All (λ r. nonempty_list r.operation_names ≡ true) recipes
every_recipe_named = (refl, (refl, (refl, (refl, (refl, (refl, tt))))))

named_of :
    (rs : List Recipe) (r : Recipe)
    → All (λ r'. nonempty_list r'.operation_names ≡ true) rs
    → Memᴰ r rs
    → nonempty_list r.operation_names ≡ true
named_of [] r all m = elim m [ ]
named_of (x ∷ rs) r (h, all) (head e) = rw e h
named_of (x ∷ rs) r (h, all) (tail m) = named_of rs r all m

module _ (lower : String → String) (less : String → String → Bool) where
  folds_into-some :
      (names : List String) (o : Option String)
      → folds_into lower less names o ≡ true
      → (v : String) × (o ≡ some v) × (contains (map lower names) (lower v) ≡ true)
  folds_into-some names none h = absurd (cc h)
  folds_into-some names (some v) h =
      (v, refl, ((and-true_iff (truthy (some v)) (contains (map lower names) (lower v))).0 h).1)

  operations_of-contains :
      (rs : List Recipe) (r : Recipe) (s : String)
      → Memᴰ r rs
      → contains (map lower r.operation_names) s ≡ true
      → contains (operations_of lower less rs) s ≡ true
  operations_of-contains [] r s m h = elim m [ ]
  operations_of-contains (x ∷ rs) r s (head e) h =
      contains-append (map lower x.operation_names) (operations_of lower less rs) s
      ∙ or-left (contains (map lower x.operation_names) s) _ (rw e at h)
  operations_of-contains (x ∷ rs) r s (tail m) h =
      contains-append (map lower x.operation_names) (operations_of lower less rs) s
      ∙ or-right (contains (map lower x.operation_names) s) _ (operations_of-contains rs r s m h)

  kept-Memᴰ :
      (p : Recipe → Bool) (rs : List Recipe) (r : Recipe)
      → Memᴰ r (kept lower less p rs)
      → Memᴰ r rs × (p r ≡ true)
  kept-Memᴰ p [] r m = elim m [ ]
  kept-Memᴰ p (x ∷ rs) r m = elim (Bool-cases (p x)) [
    | inl passes ↦ kept_head (kept-Memᴰ p rs r) passes (rw passes at m)
    | inr fails ↦ let (m', h) = kept-Memᴰ p rs r (rw fails at m) in (tail m', h)
  ]
    where
      kept_head :
          (Memᴰ r (kept lower less p rs) → Memᴰ r rs × (p r ≡ true))
          → p x ≡ true
          → Memᴰ r (x ∷ kept lower less p rs)
          → Memᴰ r (x ∷ rs) × (p r ≡ true)
      kept_head rest passes (head e) = (head e, rw e passes)
      kept_head rest passes (tail m') = let (m'', h) = rest m' in (tail m'', h)

  event_matches-named :
      (r : Recipe) (resource_type operation_name status : Option String)
      → event_matches lower less r resource_type operation_name status ≡ true
      → nonempty_list r.operation_names ≡ true
      → folds_into lower less r.operation_names operation_name ≡ true
  unfolding event_matches
  event_matches-named r resource_type operation_name status h named = ground arith

  -- For every event and every registered recipe that matches it: the event has an operation, and
  -- its folded name is among the operations that the plan asks the server for.
  pub matching_recipes-server_operations :
      (resource_type operation_name status : Option String) (r : Recipe)
      → Memᴰ r (matching_recipes lower less resource_type operation_name status)
      → (o : String) × (operation_name ≡ some o)
        × (contains (server_operations lower less recipes) (lower o) ≡ true)
  unfolding matching_recipes server_operations
  matching_recipes-server_operations resource_type operation_name status r matched =
      let (m, h) =
        kept-Memᴰ (λ x. event_matches lower less x resource_type operation_name status) recipes r
          matched in
      let named = named_of recipes r every_recipe_named m in
      let (o, e, c) =
        folds_into-some r.operation_names operation_name
          (event_matches-named r resource_type operation_name status h named) in
      (
        o,
        e,
        contains-sorted_set less (lower o) (operations_of lower less recipes)
            ∙ operations_of-contains recipes r (lower o) m c,
      )
