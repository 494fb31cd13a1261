-- ===== src/VmCoverage/Lifecycle.antt =====
-- `enrich_vm_reservation_lifecycle` and `filter_vm_reservation_statuses` of services/odcr_coverage.py.
-- What the instance views of the reservations say is a parameter, as are `str.lower` and the order of
-- texts.
pub mod Unique
use az_capa.Prelude.{
  ℕ, String, Bool, true, false, not, ◌&&◌, ◌||◌, Option, none, some, List, [], ◌∷◌, str_eq, truthy,
  contains, sorted_set, length, split_at, get_last?, get_or, if◌then◌else◌,
}
use az_capa.Prelude.Int.{ℤ, pos, leb_ℤ, ltb_ℤ}

-- An instance view: the ids of the VMs that are associated and allocated.
pub record InstanceView : Type 0 where
  pub name : Option String
  pub capacity : ℤ
  pub associated : List (Option String)
  pub allocated : List (Option String)

pub record Lifecycle : Type 0 where
  pub status : String
  pub reservation_id : Option String
  pub reservation_name : Option String
  pub capacity : Option ℤ
  pub associated_count : Option ℕ
  pub allocated_count : Option ℕ
  pub is_allocated : Option Bool

pub record VmCandidates : Type 0 where
  pub id : Option String
  pub group_id : Option String
  pub candidates : Option (List String)

-- `_RESERVATION_STATUS_VALUES`
abbrev pub reservation_status_values : List String
reservation_status_values =
    "Not associated" ∷ "Associated, no capacity" ∷ "Associated, capacity available"
    ∷ "Associated, capacity fully used" ∷ "Allocated, within capacity" ∷ "Allocated, overallocated"
    ∷ "Configuration issue" ∷ []

abbrev pub without_match : String → Lifecycle
without_match status = record {
  status = status;
  reservation_id = none;
  reservation_name = none;
  capacity = none;
  associated_count = none;
  allocated_count = none;
  is_allocated = none;
}

unfoldable pub match_status : (capacity : ℤ) (allocated_count : ℕ) (is_allocated : Bool) → String
match_status capacity allocated_count is_allocated =
    if leb_ℤ capacity (pos 0)
    then "Associated, no capacity"
    else if is_allocated && leb_ℤ (pos allocated_count) capacity
    then "Allocated, within capacity"
    else if is_allocated
    then "Allocated, overallocated"
    else if ltb_ℤ (pos allocated_count) capacity
    then "Associated, capacity available"
    else "Associated, capacity fully used"

module _ (lower : String → String) (less : String → String → Bool)
    (reservations : String → Option InstanceView) where
  abbrev ids_of : List (Option String) → List String
  ids_of [] = []
  ids_of (o ∷ os) = if truthy o then lower (get_or o "") ∷ ids_of os else ids_of os

  -- The set, as an ordered list.
  unfoldable pub resource_ids : List (Option String) → List String
  resource_ids items = sorted_set less (ids_of items)

  abbrev pub with_match :
      (vm_id id : String)
      → Option InstanceView
      → List (String × InstanceView)
      → List (String × InstanceView)
  with_match vm_id id none rest = rest
  with_match vm_id id (some view) rest =
      if contains (resource_ids view.associated) vm_id then (id, view) ∷ rest else rest

  -- The candidates that the VM is associated with.
  unfoldable pub matches_of : (vm_id : String) → List String → List (String × InstanceView)
  unfolding resource_ids
  matches_of vm_id [] = []
  matches_of vm_id (id ∷ ids) = with_match vm_id id (reservations id) (matches_of vm_id ids)

  abbrev pub last_segment : String → String
  last_segment id = get_or (get_last? (split_at b'/' id)) ""

  abbrev pub name_of : String → Option String → String
  name_of id none = last_segment id
  name_of id (some name) = if str_eq name "" then last_segment id else name

  abbrev pub matched : (vm_id : String) → String → InstanceView → Lifecycle
  matched vm_id id view =
      let allocated = resource_ids view.allocated in
      record {
        status = match_status view.capacity (length allocated) (contains allocated vm_id);
        reservation_id = some id;
        reservation_name = some (name_of id view.name);
        capacity = some view.capacity;
        associated_count = some (length (resource_ids view.associated));
        allocated_count = some (length allocated);
        is_allocated = some (contains allocated vm_id);
      }

  abbrev pub of_matches : (vm_id : String) → List (String × InstanceView) → Lifecycle
  of_matches vm_id ((id, view) ∷ []) = matched vm_id id view
  of_matches vm_id _ = without_match "Configuration issue"

  unfoldable pub lifecycle_of : VmCandidates → Lifecycle
  unfolding matches_of match_status resource_ids
  lifecycle_of vm =
      if not (truthy vm.group_id)
      then without_match "Not associated"
      else of_matches (lower (get_or vm.id ""))
          (matches_of (lower (get_or vm.id "")) (get_or vm.candidates []))

-- `normalized` are the values that the caller asks for; `none` is the ValueError of an unknown one.
abbrev pub unknown_statuses : List String → List String
unknown_statuses [] = []
unknown_statuses (s ∷ ss) =
    if contains reservation_status_values s then unknown_statuses ss else s ∷ unknown_statuses ss

abbrev pub keep_statuses : List String → List Lifecycle → List Lifecycle
keep_statuses selected [] = []
keep_statuses selected (r ∷ rs) =
    if contains selected r.status then r ∷ keep_statuses selected rs else keep_statuses selected rs

abbrev pub selected_rows : List String → List Lifecycle → List Lifecycle
selected_rows [] rows = rows
selected_rows (s ∷ ss) rows = keep_statuses (s ∷ ss) rows

abbrev pub unless_unknown : List String → List Lifecycle → Option (List Lifecycle)
unless_unknown [] rows = some rows
unless_unknown (s ∷ ss) rows = none

unfoldable pub filter_vm_reservation_statuses :
    (normalized : List String) → List Lifecycle → Option (List Lifecycle)
filter_vm_reservation_statuses normalized rows =
    unless_unknown (unknown_statuses normalized) (selected_rows normalized rows)
