-- ===== src/VmCoverage/Zones.antt =====
-- `zone_mapping_pairs` and `apply_physical_zones` of services/odcr_coverage.py. `strip`,
-- `strip().lower()` and the mapping of the zones are parameters.
use az_capa.Prelude.{
  String, Bool, true, ◌||◌, Option, none, some, List, [], ◌∷◌, str_eq, truthy, if◌then◌else◌,
  get_or,
}

-- `str(value or "")`
abbrev pub text_of : Option String → String
text_of o = get_or o ""

-- A physical zone and whether it is resolved, `_physicalZoneResolved`.
pub record Zone : Type 0 where
  pub physical_zone : Option String
  pub resolved : Bool

module _ (strip canonical : String → String) where
  -- The pair of a row, unless one of its parts is empty.
  abbrev pub pair_of : (subscription location : Option String) → Option (String × String)
  pair_of subscription location =
      let s = canonical (text_of subscription) in
      let l = canonical (text_of location) in
      if str_eq s "" || str_eq l "" then none else some (s, l)

  abbrev pub cons_pair : Option (String × String) → List (String × String) → List (String × String)
  cons_pair none ps = ps
  cons_pair (some p) ps = p ∷ ps

  -- The set of the pairs, as a list.
  unfoldable pub zone_mapping_pairs : List (Option String × Option String) → List (String × String)
  zone_mapping_pairs [] = []
  zone_mapping_pairs ((subscription, location) ∷ rows) =
      cons_pair (pair_of subscription location) (zone_mapping_pairs rows)

  -- The nested `apply` on the three columns of a row; a location without zone is resolved.
  unfoldable pub apply_zone :
      (mappings : String → String → String → Option String)
      → (subscription location zone : Option String) → Zone
  apply_zone mappings subscription location zone =
      let logical_zone = strip (text_of zone) in
      let found =
        mappings (canonical (text_of subscription)) (canonical (text_of location)) logical_zone in
      if str_eq logical_zone ""
      then record { physical_zone = none; resolved = true }
      else record { physical_zone = found; resolved = truthy found }
