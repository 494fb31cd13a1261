-- ===== src/ActivityLog/Recipes/Declared.antt =====
-- `ProjectedField` and `Recipe` of services/activity_log/recipes.py, with what their
-- `__post_init__` accepts.
use Prim.Native.Char.{code}
use az_capa.Prelude.{
  ℕ, String, Bool, true, false, not, ◌&&◌, ◌||◌, Option, List, [], ◌∷◌, map, leb, all, length, ◌==◌,
  str_eq, distinct,
}

pub record ProjectedField : Type 0 where
  pub column : String
  pub path : String
  pub on_status : Option String

pub record Recipe : Type 0 where
  pub id : String
  pub version : ℕ
  pub resource_types : List String
  pub operation_names : List String
  pub statuses : Option (List String)
  pub projected_fields : List ProjectedField
  pub retain_payload : Bool

abbrev codes : String → List ℕ
codes String.[] = []
codes (String.◌∷◌ c s) = code c ∷ codes s

abbrev is_lower : ℕ → Bool
is_lower c = leb b'a' c && leb c b'z'

abbrev is_id_char : ℕ → Bool
is_id_char c = is_lower c || ((leb b'0' c && leb c b'9') || c == b'-')

-- `^[a-z][a-z0-9-]{0,63}$`; `$` also matches before a line feed at the end, which no id of the
-- table has.
abbrev pub is_recipe_id : List ℕ → Bool
is_recipe_id [] = false
is_recipe_id (c ∷ cs) = is_lower c && (all is_id_char cs && leb (length cs) 63)

abbrev pub nonempty_list {ℓ} : {A : Type ℓ} → List A → Bool
nonempty_list [] = false
nonempty_list (x ∷ xs) = true

unfoldable pub is_valid_field : ProjectedField → Bool
is_valid_field f = not (str_eq f.column "") && not (str_eq f.path "")

-- `__post_init__` raises ValueError exactly if this is false.
unfoldable pub is_valid_recipe : Recipe → Bool
unfolding is_valid_field
is_valid_recipe r =
    is_recipe_id (codes r.id)
    && (leb 1 r.version
        && ((nonempty_list r.resource_types || nonempty_list r.operation_names)
            && (distinct (map (λ f. f.column) r.projected_fields)
                && all is_valid_field r.projected_fields)))
