-- ===== src/AppScope.antt =====
-- core/app_scope.py: the subscriptions and
-- locations that a request may see. `strip().lower()` on a text and the order of texts are
-- parameters; the settings and the fingerprint, a SHA-256, are left out.
pub mod Bounds
pub mod Resolution
mod Tests
use az_capa.Prelude.{
  String, Bool, true, false, not, ◌&&◌, ◌||◌, Option, none, some, List, [], ◌∷◌, str_eq, contains,
  sorted_set, filter, if◌then◌else◌,
}

pub data Mode : Type 0 where
  mode_all : Mode
  mode_subscriptions : Mode
  mode_management_groups : Mode

pub record ConfiguredAppScope : Type 0 where
  pub mode : Mode
  pub selectors : List String
  pub locations : List String

pub record ResolvedAppScope : Type 0 where
  pub configured : ConfiguredAppScope
  pub subscription_ids : List String

pub record EffectiveFilters : Type 0 where
  pub subscription_ids : List String
  pub locations : Option (List String)
  pub is_empty : Bool

abbrev pub is_nil : List String → Bool
is_nil [] = true
is_nil (x ∷ xs) = false

-- `not requested or value in requested`
abbrev pub wanted : List String → String → Bool
wanted requested value = is_nil requested || contains requested value

-- `requested or None`
abbrev pub or_none : List String → Option (List String)
or_none [] = none
or_none (x ∷ xs) = some (x ∷ xs)

abbrev pub is_empty_tuple : Option (List String) → Bool
is_empty_tuple none = false
is_empty_tuple (some xs) = is_nil xs

-- `validate_scope_exclusivity` of core/settings.py raises exactly if this is false.
abbrev pub validate_scope_exclusivity : List String → List String → Bool
validate_scope_exclusivity subscription_ids management_group_ids =
    is_nil subscription_ids || is_nil management_group_ids

module _ (canonical : String → String) (less : String → String → Bool) where
  abbrev pub kept_values : List String → List String
  kept_values [] = []
  kept_values (value ∷ values) =
      if str_eq (canonical value) ""
      then kept_values values
      else canonical value ∷ kept_values values

  -- A value is blank exactly if its canonical form is empty; `None` gives no values.
  unfoldable pub canonical_values : List String → List String
  canonical_values values = sorted_set less (kept_values values)

  -- The mode and the selectors, from the canonical ids; two lists are refused before.
  abbrev pub scope_of : List String → List String → List String → ConfiguredAppScope
  scope_of (s ∷ ss) groups locations = record {
    mode = mode_subscriptions;
    selectors = s ∷ ss;
    locations = locations;
  }
  scope_of [] (g ∷ gs) locations = record {
    mode = mode_management_groups;
    selectors = g ∷ gs;
    locations = locations;
  }
  scope_of [] [] locations = record { mode = mode_all; selectors = []; locations = locations }

  -- The scope of three settings; `none` is the ValueError of `validate_scope_exclusivity`.
  unfoldable pub configured_scope :
      List String → List String → List String → Option ConfiguredAppScope
  unfolding canonical_values
  configured_scope subscription_ids management_group_ids locations =
      if validate_scope_exclusivity (canonical_values subscription_ids)
        (canonical_values management_group_ids)
      then some (
          scope_of (canonical_values subscription_ids) (canonical_values management_group_ids)
            (canonical_values locations))
      else none

  abbrev pub effective_subs : List String → Option (List String) → List String
  effective_subs allowed none = allowed
  effective_subs allowed (some []) = []
  effective_subs allowed (some (r ∷ rs)) = filter (wanted (canonical_values (r ∷ rs))) allowed

  abbrev pub within : List String → List String → Option (List String)
  within [] requested = or_none requested
  within (a ∷ allowed) requested = some (filter (wanted requested) (a ∷ allowed))

  abbrev pub effective_locs : List String → Option (List String) → Option (List String)
  effective_locs allowed none = within allowed []
  effective_locs allowed (some []) = some []
  effective_locs allowed (some (r ∷ rs)) = within allowed (canonical_values (r ∷ rs))

  unfoldable pub intersect_filters :
      ResolvedAppScope → Option (List String) → Option (List String) → EffectiveFilters
  unfolding canonical_values
  intersect_filters scope requested_subscription_ids requested_locations =
      let subs = effective_subs scope.subscription_ids requested_subscription_ids in
      let locs = effective_locs scope.configured.locations requested_locations in
      record {
        subscription_ids = subs;
        locations = locs;
        is_empty = is_nil subs || is_empty_tuple locs;
      }
