-- ===== src/AppScope/Resolution.antt =====
-- `resolve_app_scope` of services/app_scope.py: the subscriptions of the configured scope. The
-- published snapshot and the live inventory are arguments; a failing query of either is left out.
pub mod Resolved
use az_capa.Prelude.{
  String, Bool, true, false, not, ◌&&◌, Option, none, some, List, [], ◌∷◌, map, str_eq, contains,
  any, get_or, if◌then◌else◌,
}
use az_capa.AppScope.{
  ConfiguredAppScope, ResolvedAppScope, Mode, mode_all, mode_subscriptions, mode_management_groups,
  canonical_values, is_nil,
}

-- A subscription of the inventory with the ids of its management groups.
pub record Entry : Type 0 where
  pub id : String
  pub ancestors : List (Option String)

-- The answer, or one of the two exceptions.
pub data Resolution : Type 0 where
  resolved : ResolvedAppScope → Resolution
  initializing : Resolution
  nothing : Resolution

module _ (canonical : String → String) (less : String → String → Bool) where
  -- Whether one of the groups is an ancestor.
  abbrev pub is_below : (selectors : List String) → Entry → Bool
  is_below selectors entry =
      any (λ ancestor. contains selectors (canonical (get_or ancestor ""))) entry.ancestors

  abbrev pub ids_below : (selectors : List String) → List Entry → List String
  ids_below selectors [] = []
  ids_below selectors (entry ∷ values) =
      if is_below selectors entry
      then entry.id ∷ ids_below selectors values
      else ids_below selectors values

  unfoldable pub match_management_groups : List Entry → (selectors : List String) → List String
  unfolding canonical_values
  match_management_groups values selectors =
      canonical_values canonical less (ids_below selectors values)

  abbrev pub unless_nothing : ConfiguredAppScope → List String → Resolution
  unless_nothing configured [] = nothing
  unless_nothing configured (id ∷ ids) =
      resolved record { configured = configured; subscription_ids = id ∷ ids }

  unfoldable pub ids_of : Mode → (selectors : List String) → List Entry → List String
  unfolding match_management_groups canonical_values
  ids_of mode_management_groups selectors values = match_management_groups values selectors
  ids_of _ selectors values =
      canonical_values canonical less (map (λ (entry : Entry). entry.id) values)

  abbrev pub from_values : ConfiguredAppScope → Option (List Entry) → Resolution
  from_values configured none = initializing
  from_values configured (some values) =
      unless_nothing configured (ids_of configured.mode configured.selectors values)

  -- The values of the snapshot, or those of the live inventory where this is allowed.
  abbrev pub values_of :
      (snapshot live : Option (List Entry)) → (allow_live_fallback : Bool) → Option (List Entry)
  values_of (some values) live allow_live_fallback = some values
  values_of none live allow_live_fallback = if allow_live_fallback then live else none

  abbrev pub is_selected : Mode → Bool
  is_selected mode_subscriptions = true
  is_selected _ = false

  -- `live` is `none` where the caller has no identity.
  unfoldable pub resolve_app_scope :
      ConfiguredAppScope
      → (snapshot live : Option (List Entry)) → (allow_live_fallback : Bool) → Resolution
  unfolding ids_of
  resolve_app_scope configured snapshot live allow_live_fallback =
      if is_selected configured.mode
      then resolved record { configured = configured; subscription_ids = configured.selectors }
      else from_values configured (values_of snapshot live allow_live_fallback)
