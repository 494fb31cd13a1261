-- ===== src/VmCoverage/Candidates.antt =====
-- `reconcile_vm_reservations` of services/odcr_coverage.py: the reservations that may serve a VM. A
-- dict of sets is a function from the key to the list of its ids. `strip().lower()` and the order of
-- texts are parameters.
pub mod Exact
use az_capa.Prelude.{
  String, ◌≡◌, ◌⊎◌, refl, ap, sym, ◌∙◌, Bool, true, false, not, ◌&&◌, ◌||◌, Option, none, some,
  List, [], ◌∷◌, str_eq, truthy, contains, sorted_set, contains-sorted_set, arith, Bool-cases, inl,
  inr, if◌then◌else◌,
}
use az_capa.VmCoverage.Zones.{text_of, Zone}

pub record ReservationRow : Type 0 where
  pub group_id : Option String
  pub group_name : Option String
  pub reservation_id : Option String
  pub vm_size : Option String
  pub zone : Zone

pub record VmGroup : Type 0 where
  pub group_id : Option String
  pub vm_size : Option String
  pub zone : Zone

abbrev pub same_zone : Option String → Option String → Bool
same_zone none none = true
same_zone (some a) (some b) = str_eq a b
same_zone _ _ = false

abbrev pub or_none : List String → Option (List String)
or_none [] = none
or_none (x ∷ xs) = some (x ∷ xs)

module _ (canonical : String → String) (less : String → String → Bool) where
  abbrev pub group_of : Option String → String
  group_of o = canonical (text_of o)

  -- A row with a group, an id and a size, for a group and a size.
  abbrev pub is_entry : (group size : String) → ReservationRow → Bool
  is_entry group size row =
      not (str_eq (group_of row.group_id) "")
      && (not (str_eq (group_of row.reservation_id) "")
          && (not (str_eq (group_of row.vm_size) "")
              && (str_eq (group_of row.group_id) group && str_eq (group_of row.vm_size) size)))

  abbrev pub ids_where : (ReservationRow → Bool) → List ReservationRow → List String
  ids_where p [] = []
  ids_where p (row ∷ rows) =
      if p row then group_of row.reservation_id ∷ ids_where p rows else ids_where p rows

  abbrev pub any_where : (ReservationRow → Bool) → List ReservationRow → Bool
  any_where p [] = false
  any_where p (row ∷ rows) = p row || any_where p rows

  -- `broad_candidates`, `unresolved_keys` and `strict_candidates` at a key
  unfoldable pub broad_candidates : (group size : String) → List ReservationRow → List String
  broad_candidates group size rows = ids_where (is_entry group size) rows

  abbrev pub is_unresolved : (group size : String) → ReservationRow → Bool
  is_unresolved group size row = is_entry group size row && not row.zone.resolved

  unfoldable pub unresolved_keys : (group size : String) → List ReservationRow → Bool
  unresolved_keys group size rows = any_where (is_unresolved group size) rows

  abbrev pub is_strict : (group size : String) → Option String → ReservationRow → Bool
  is_strict group size zone row =
      is_entry group size row && (row.zone.resolved && same_zone row.zone.physical_zone zone)

  unfoldable pub strict_candidates :
      (group size : String) → Option String → List ReservationRow → List String
  strict_candidates group size zone rows = ids_where (is_strict group size zone) rows

  -- The last name of the group that is not empty.
  abbrev pub last_name : String → Option String → List ReservationRow → Option String
  last_name group found [] = found
  last_name group found (row ∷ rows) =
      last_name group
        (if not (str_eq (group_of row.group_id) "")
            && (str_eq (group_of row.group_id) group && truthy row.group_name)
          then row.group_name
          else found)
        rows

  unfoldable pub group_name_of : VmGroup → List ReservationRow → Option String
  group_name_of vm rows =
      if str_eq (group_of vm.group_id) "" then none else last_name (group_of vm.group_id) none rows

  abbrev pub uses_broad : VmGroup → List ReservationRow → Bool
  uses_broad vm rows =
      not vm.zone.resolved || unresolved_keys (group_of vm.group_id) (group_of vm.vm_size) rows

  unfoldable pub matching_reservations : VmGroup → List ReservationRow → Option (List String)
  unfolding broad_candidates unresolved_keys strict_candidates
  matching_reservations vm rows =
      let group = group_of vm.group_id in
      let size = group_of vm.vm_size in
      if str_eq group "" || str_eq size ""
      then none
      else or_none (
          sorted_set less (
            if uses_broad vm rows
            then broad_candidates group size rows
            else strict_candidates group size vm.zone.physical_zone rows))
