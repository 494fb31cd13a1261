-- ===== src/ZoneMapping/Tests.antt =====
-- The theorem on refreshes of zone mappings at a concrete input.
use az_capa.Prelude.{ℕ, String, ◌≡◌, refl, Bool, false, some, [], ◌∷◌}
use az_capa.ZoneMapping.{
  State, Listing, ok, load, RefreshPlan, resolve_plan, plan_of, new_regions, targets, deletions,
  plan_reason,
}
use az_capa.ZoneMapping.Complete.{IsComplete, resolve_plan-IsComplete}

abbrev unordered : String → String → Bool
unordered s t = false

-- A region appears, one subscription goes and one comes.
abbrev north_and_south : String → Listing ℕ
north_and_south s = ok (("north", 0) ∷ ("south", 0) ∷ [])

abbrev known : State
known = record { subs = "a" ∷ "b" ∷ []; known_regions = "north" ∷ [] }

planned :
    (plan : RefreshPlan) × (resolve_plan unordered 4 north_and_south (some known) ("b" ∷ "c" ∷ [])
      ≡ some (load plan))
unfolding resolve_plan plan_of new_regions targets deletions plan_reason
planned = (_, refl)

resolve_plan-IsComplete_example :
    IsComplete unordered 4 north_and_south (some known) ("b" ∷ "c" ∷ []) planned.0
resolve_plan-IsComplete_example =
    resolve_plan-IsComplete unordered 4 north_and_south (some known) ("b" ∷ "c" ∷ []) planned.0
      planned.1
