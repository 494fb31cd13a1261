-- ===== src/ActivityLog/Recipes.antt =====
-- services/activity_log/recipes.py: the look-ups, the filters that are pushed to the server, and
-- the filter of the client. Python's `str.lower` and its order of texts are parameters.
pub mod Declared
pub mod Table
pub mod Pushed
use az_capa.Prelude.{
  ℕ, String, Bool, true, false, not, ◌&&◌, ◌||◌, Option, none, some, List, [], ◌∷◌, ◌++◌, map,
  str_eq, truthy, contains, sorted_set, before, if◌then◌else◌,
}
use az_capa.ActivityLog.Recipes.Declared.{Recipe, nonempty_list}
use az_capa.ActivityLog.Recipes.Table.{recipes}

unfoldable pub ids : List String
ids = map (λ r. r.id) recipes

abbrev pub find_recipe : String → List Recipe → Option Recipe
find_recipe recipe_id [] = none
find_recipe recipe_id (r ∷ rs) =
    let rest = find_recipe recipe_id rs in if str_eq r.id recipe_id then some r else rest

-- `none` is also the KeyError of `get`.
unfoldable pub try_get : String → Option Recipe
try_get recipe_id = find_recipe recipe_id recipes

abbrev resource_provider_of : String → String
resource_provider_of resource_type = before b'/' resource_type

module _ (lower : String → String) (less : String → String → Bool) where
  abbrev pub operations_of : List Recipe → List String
  operations_of [] = []
  operations_of (r ∷ rs) = map lower r.operation_names ++ operations_of rs

  unfoldable pub server_operations : List Recipe → List String
  server_operations rs = sorted_set less (operations_of rs)

  abbrev providers_of : List Recipe → List String
  providers_of [] = []
  providers_of (r ∷ rs) =
      (if nonempty_list r.operation_names then [] else map resource_provider_of r.resource_types)
      ++ providers_of rs

  -- Code outside the tests of the repository does not call it: the plan asks for operations only.
  unfoldable server_resource_providers : List Recipe → List String
  server_resource_providers rs = sorted_set less (providers_of rs)

  -- `value and value.lower() in {name.lower() for name in names}`
  abbrev pub folds_into : List String → Option String → Bool
  folds_into names none = false
  folds_into names (some value) = truthy (some value) && contains (map lower names) (lower value)

  abbrev pub status_allowed : Option (List String) → Option String → Bool
  status_allowed none status = true
  status_allowed (some statuses) status = folds_into statuses status

  unfoldable pub event_matches : Recipe → Option String → Option String → Option String → Bool
  event_matches recipe resource_type operation_name status =
      (not (nonempty_list recipe.operation_names)
        || folds_into recipe.operation_names operation_name)
      && ((not (nonempty_list recipe.resource_types)
            || folds_into recipe.resource_types resource_type)
          && status_allowed recipe.statuses status)

  abbrev pub kept : (Recipe → Bool) → List Recipe → List Recipe
  kept p [] = []
  kept p (r ∷ rs) = if p r then r ∷ kept p rs else kept p rs

  unfoldable pub matching_recipes : Option String → Option String → Option String → List Recipe
  unfolding event_matches
  matching_recipes resource_type operation_name status =
      kept (λ r. event_matches r resource_type operation_name status) recipes
