-- ===== src/RequestDimensions.antt =====
-- services/request_dimensions.py: `parse_context_filters`. `_canonical`, which is
-- `str(value or "").strip().lower()`, and the test for blank texts are parameters; the request's
-- view on the snapshots is left out.
pub mod Parsed
mod Tests
use az_capa.Prelude.{
  String, Bool, true, false, not, ◌&&◌, ◌||◌, Option, none, some, List, [], ◌∷◌, str_eq, contains,
  sorted_set, if◌then◌else◌,
}
use az_capa.Json.{
  Json, null, bool, int, float, str, arr, obj, Items, nil, cons, Fields, lookup, nonempty_items,
}

-- A parsed criterion.
pub record ContextFilter (F : Type 0) : Type 0 where
  pub field_key : String
  pub values : Items F

-- The ValueErrors, in the order of their checks.
pub data FilterError : Type 0 where
  no_array : FilterError
  no_object : FilterError
  no_field_key : FilterError
  repeated_field_key : FilterError
  no_values : FilterError
  blank_value : FilterError

pub data Filters (F : Type 0) : Type 0 where
  parsed : List (ContextFilter F) → Filters F
  refused : FilterError → Filters F

abbrev pub guarded : {F : Type 0} → Bool → FilterError → Filters F → Filters F
guarded true e rest = refused e
guarded false e rest = rest

abbrev pub with_filter : {F : Type 0} → ContextFilter F → Filters F → Filters F
with_filter c (parsed cs) = parsed (c ∷ cs)
with_filter c (refused e) = refused e

-- `blank` is `not item.strip()`.
abbrev pub is_bad_value : {F : Type 0} → (String → Bool) → Json F → Bool
is_bad_value blank null = false
is_bad_value blank (str s) = blank s
is_bad_value blank _ = true

abbrev pub any_bad : {F : Type 0} → (String → Bool) → Items F → Bool
any_bad blank nil = false
any_bad blank (cons v rest) = is_bad_value blank v || any_bad blank rest

abbrev pub items_of : {F : Type 0} → Option (Json F) → Items F
items_of (some (arr xs)) = xs
items_of _ = nil

module _ {F : Type 0} (blank : String → Bool) (canonical : Option (Json F) → String) where
  -- One criterion, before the rest of the list; a value that is no list gives the error of an
  -- empty one.
  abbrev pub parse_criterion : List String → Json F → (List String → Filters F) → Filters F
  parse_criterion seen (obj criterion) next =
      let key = canonical (lookup "fieldKey" criterion) in
      let values = items_of (lookup "values" criterion) in
      guarded (str_eq key "") no_field_key (
        guarded (contains seen key) repeated_field_key (
          guarded (not (nonempty_items values)) no_values (
            guarded (any_bad blank values) blank_value
              (with_filter (record { field_key = key; values = values }) (next (key ∷ seen))))))
  parse_criterion seen _ next = refused no_object

  unfoldable pub parse_criteria : List String → Items F → Filters F
  parse_criteria seen nil = parsed []
  parse_criteria seen (cons criterion rest) =
      parse_criterion seen criterion (λ more. parse_criteria more rest)

  unfoldable pub parse_context_filters : Json F → Filters F
  unfolding parse_criteria
  parse_context_filters null = parsed []
  parse_context_filters (arr criteria) = parse_criteria [] criteria
  parse_context_filters _ = refused no_array
