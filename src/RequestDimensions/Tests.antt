-- ===== src/RequestDimensions/Tests.antt =====
-- Parsed context filters at a concrete value.
use az_capa.Prelude.{ℕ, String, ◌≡◌, refl, Bool, Option, some, List, [], str_eq}
use az_capa.Json.{Json, null, str, arr, obj, field, end, cons, nil}
use az_capa.RequestDimensions.{ContextFilter, parsed, parse_criteria, parse_context_filters}
use az_capa.RequestDimensions.Parsed.{WellFormed, parse_context_filters-WellFormed}

abbrev blank : String → Bool
blank s = str_eq s ""

abbrev text : Option (Json ℕ) → String
text (some (str s)) = s
text _ = ""

abbrev filters : Json ℕ
filters = arr (
    cons
      (obj (
        field "fieldKey" (str "team")
          (field "values" (arr (cons (str "core") (cons null nil))) end)))
      nil)

team_filter : (cs : List (ContextFilter ℕ)) × (parse_context_filters blank text filters ≡ parsed cs)
unfolding parse_context_filters parse_criteria
team_filter = (_, refl)

parse_context_filters-WellFormed_example : WellFormed blank text [] team_filter.0
parse_context_filters-WellFormed_example =
    parse_context_filters-WellFormed blank text filters team_filter.0 team_filter.1
