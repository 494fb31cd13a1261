-- ===== src/SubscriptionContext/Tests.antt =====
-- The theorems on context fields at concrete inputs.
use az_capa.Prelude.{ℕ, String, ◌≡◌, refl, Bool, false, Option, some, List, [], ◌∷◌, get_or}
use az_capa.SubscriptionContext.{mapping_from_rows, map_rows, with_columns, is_subscription_id}
use az_capa.SubscriptionContext.Accepted.{IsMapping, mapping_from_rows-IsMapping}
use az_capa.SubscriptionContext.Summary.{build_preview}
use az_capa.SubscriptionContext.Sums.{IsBalancedPreview, build_preview-IsBalanced}

abbrev same : String → String
same s = s

abbrev unordered : String → String → Bool
unordered s t = false

abbrev three : String → ℕ
three s = 3

abbrev cell : Option String → String
cell o = get_or o ""

abbrev file : List (List (String × String))
file =
    (("subscriptionid", "11111111-2222-3333-4444-555555555555") ∷ ("value", "Red") ∷ [])
    ∷ (("subscriptionid", "") ∷ ("value", "Blue") ∷ [])
    ∷ []

accepted :
    (mapping : List (String × String)) × (mapping_from_rows same same three cell file
      ≡ some mapping)
unfolding mapping_from_rows with_columns map_rows is_subscription_id
accepted = (_, refl)

mapping_from_rows-IsMapping_example : IsMapping same same three cell accepted.0
mapping_from_rows-IsMapping_example =
    mapping_from_rows-IsMapping same same three cell file accepted.0 accepted.1

abbrev first_of : ℕ → ℕ → ℕ
first_of m n = m

build_preview-IsBalanced_example : IsBalancedPreview (
    build_preview first_of 0 same unordered
      (("a", "Red") ∷ [])
      ("a" ∷ "b" ∷ "c" ∷ [])
      ("a" ∷ "b" ∷ [])
      (("b", "tag_not_present") ∷ []))
build_preview-IsBalanced_example =
    build_preview-IsBalanced first_of 0 same unordered (("a", "Red") ∷ []) ("a" ∷ "b" ∷ "c" ∷ [])
      ("a" ∷ "b" ∷ []) (("b", "tag_not_present") ∷ [])
