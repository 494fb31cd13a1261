-- ===== src/CoverageDecision/Tests.antt =====
-- An accepted change at a concrete payload.
use az_capa.Prelude.{ℕ, String, ◌≡◌, refl, str_eq}
use az_capa.Json.{Json, str, arr, obj, field, end, cons, nil}
use az_capa.CoverageDecision.{
  CoverageDecisionChange, ok, normalize_vm_resource_id, normalize_all, parse_ids, parse_choice,
  parse_note, parse_decision_change,
}
use az_capa.CoverageDecision.Accepted.{IsAccepted, parse_decision_change-IsAccepted}

abbrev same : String → String
same s = s

abbrev change : Json ℕ
change = obj (
    field "resourceIds"
      (arr (
        cons
          (str "/subscriptions/s/resourcegroups/g/providers/microsoft.compute/virtualmachines/v/")
          nil))
      (field "decision" (str "required") (field "priority" (str "high") end)))

accepted_change :
    (c : CoverageDecisionChange) × (parse_decision_change same same str_eq change ≡ ok c)
unfolding parse_decision_change parse_ids normalize_all normalize_vm_resource_id parse_choice
    parse_note
accepted_change = (_, refl)

parse_decision_change-IsAccepted_example : IsAccepted str_eq accepted_change.0
parse_decision_change-IsAccepted_example =
    parse_decision_change-IsAccepted same same str_eq change accepted_change.0 accepted_change.1
