-- ===== src/SubscriptionContext.antt =====
-- services/subscription_context.py: the value of a context field for each subscription, from an
-- uploaded file, the management groups or a tag. `strip`, `lower`, `casefold` and the length of a
-- text are parameters; a dict is an association list, and `none` is a ValueError.
pub mod Summary
pub mod Accepted
pub mod Sums
mod Tests
use Prim.Native.Char.{code}
use Prim.Native.String
use az_capa.Prelude.{
  ℕ, zero, suc, ◌-◌, String, Bool, true, false, not, ◌&&◌, ◌||◌, Option, none, some, List, [], ◌∷◌,
  str_eq, contains, length, get_or, leb, ltb, all, if◌then◌else◌, ◌==◌,
}

-- `d[k] = v`, `d.get(k)` and the keys, for a dict of texts
abbrev pub put {ℓ} : {A : Type ℓ} → String → A → List (String × A) → List (String × A)
put k v [] = (k, v) ∷ []
put k v ((j, u) ∷ rest) =
    let later = put k v rest in if str_eq j k then (j, v) ∷ rest else (j, u) ∷ later

abbrev pub get {ℓ} : {A : Type ℓ} → String → List (String × A) → Option A
get k [] = none
get k ((j, u) ∷ rest) = if str_eq j k then some u else get k rest

abbrev is_hex : ℕ → Bool
is_hex c = (leb b'0' c && leb c b'9') || (leb b'a' c && leb c b'f')

abbrev codes : String → List ℕ
codes String.[] = []
codes (String.◌∷◌ c s) = code c ∷ codes s

-- So many hexadecimal digits, and what follows.
abbrev hex_then : ℕ → (List ℕ → Bool) → List ℕ → Bool
hex_then zero next cs = next cs
hex_then (suc n) next [] = false
hex_then (suc n) next (c ∷ cs) = is_hex c && hex_then n next cs

abbrev dash_then : (List ℕ → Bool) → List ℕ → Bool
dash_then next [] = false
dash_then next (c ∷ cs) = c == b'-' && next cs

abbrev is_end : List ℕ → Bool
is_end [] = true
is_end (c ∷ cs) = false

-- `[0-9a-f]{8}-[0-9a-f]{4}-[0-9a-f]{4}-[0-9a-f]{4}-[0-9a-f]{12}`, all of the text
unfoldable pub is_subscription_id : String → Bool
is_subscription_id value =
    hex_then 8
      (dash_then (
        hex_then 4
          (dash_then (hex_then 4 (dash_then (hex_then 4 (dash_then (hex_then 12 is_end))))))))
      (codes value)

abbrev pub zero_subscription_id : String
zero_subscription_id = "00000000-0000-0000-0000-000000000000"

module _ (strip lower : String → String) (size : String → ℕ) {Cell : Type 0}
    (text_of : Option Cell → String) where
  -- `str(row.get(column) or "").strip()`
  abbrev pub cell_text : String → List (String × Cell) → String
  cell_text column row = strip (text_of (get column row))

  -- `available`, from the columns of the first row
  abbrev pub available : List (String × Cell) → List (String × String) → List (String × String)
  available [] found = found
  available ((column, _) ∷ row) found = available row (put (lower (strip column)) column found)

  -- `mapping` and `seen` after the remaining rows.
  unfoldable pub map_rows :
      (subscription_column value_column : String)
      → List (List (String × Cell))
      → (mapping : List (String × String)) → (seen : List String) → Option (List (String × String))
  unfolding is_subscription_id
  map_rows subscription_column value_column [] mapping seen = some mapping
  map_rows subscription_column value_column (row ∷ rows) mapping seen =
      let id = lower (cell_text subscription_column row) in
      let value = cell_text value_column row in
      let skipped = map_rows subscription_column value_column rows mapping seen in
      let unmapped = map_rows subscription_column value_column rows mapping (id ∷ seen) in
      let mapped =
        map_rows subscription_column value_column rows (put id value mapping) (id ∷ seen) in
      if str_eq id ""
      then skipped
      else if not (is_subscription_id id) || str_eq id zero_subscription_id
      then none
      else if contains seen id
      then none
      else if ltb 256 (size value)
      then none
      else if str_eq value ""
      then unmapped
      else mapped

  unfoldable pub with_columns :
      Option String → Option String → List (List (String × Cell)) → Option (List (String × String))
  unfolding map_rows
  with_columns (some subscription_column) (some value_column) rows =
      map_rows subscription_column value_column rows [] []
  with_columns _ _ rows = none

  unfoldable pub mapping_from_rows : List (List (String × Cell)) → Option (List (String × String))
  unfolding with_columns
  mapping_from_rows [] = none
  mapping_from_rows (row ∷ rows) =
      let columns = available row [] in
      with_columns (get "subscriptionid" columns) (get "value" columns) (row ∷ rows)
