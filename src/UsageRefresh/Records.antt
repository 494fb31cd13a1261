-- ===== src/UsageRefresh/Records.antt =====
-- `map_page_records` of services/usage_refresh.py: the records of a page of usage rows. Python's
-- `str`, `float`, `lower` and `isdigit` are parameters.
use Prim.Native.String
use az_capa.Prelude.{
  ℕ, zero, suc, String, ◌≡◌, refl, ap, Bool, true, false, ◌&&◌, ◌||◌, Option, none, some, List, [],
  ◌∷◌, str_eq, split_at, or_else, if◌then◌else◌, ◌==◌, Bool-cases, inl, inr,
}
use az_capa.Json.{Json, null, bool, int, float}

-- The columns of a row that are read.
pub record Row (F : Type 0) : Type 0 where
  pub resource_id : Option String
  pub usage_date : Option (Json F)
  pub currency : Option (Json F)
  pub usage_quantity : Option (Json F)
  pub cost : Option (Json F)

-- A record; without a metric it leaves the stored one as it is.
pub record Record (F : Type 0) : Type 0 where
  pub resource_id : String
  pub subscription_id : Option String
  pub date : String
  pub currency : Option (Json F)
  pub uptime_hours : Option F
  pub cost : Option F

abbrev pub text_length : String → ℕ
text_length String.[] = 0
text_length (String.◌∷◌ c s) = suc (text_length s)

abbrev pub take_text : ℕ → String → String
take_text zero s = ""
take_text (suc n) String.[] = ""
take_text (suc n) (String.◌∷◌ c s) = String.◌∷◌ c (take_text n s)

abbrev pub drop_text : ℕ → String → String
drop_text zero s = s
drop_text (suc n) String.[] = ""
drop_text (suc n) (String.◌∷◌ c s) = drop_text n s

-- The part after the first "subscriptions".
abbrev pub part_after : List String → Option String
part_after [] = none
part_after (p ∷ []) = none
part_after (p ∷ q ∷ rest) =
    let later = part_after (q ∷ rest) in if str_eq p "subscriptions" then some q else later

-- How Python reads and prints values.
pub record Reader (F : Type 0) : Type 0 where
  pub lower : String → String
  pub text_of : Json F → String
  pub text_of_int : Json F → String
  pub is_digits : String → Bool
  pub float_or_zero : Option (Json F) → F

module _ {F : Type 0} (reader : Reader F) where
  abbrev pub is_number : Json F → Bool
  is_number (bool b) = true
  is_number (int i) = true
  is_number (float x) = true
  is_number _ = false

  abbrev pub dashed : String → String
  dashed text =
      if text_length text == 8 && reader.is_digits text
      then String.◌++◌ (take_text 4 text) (
          String.◌++◌ "-"
            (String.◌++◌ (take_text 2 (drop_text 4 text)) (String.◌++◌ "-" (drop_text 6 text))))
      else text

  unfoldable pub fmt_usage_date : Option (Json F) → Option String
  fmt_usage_date none = none
  fmt_usage_date (some null) = none
  fmt_usage_date (some value) =
      some (dashed (if is_number value then reader.text_of_int value else reader.text_of value))

  unfoldable pub subscription_from_resource_id : String → Option String
  subscription_from_resource_id resource_id = part_after (split_at b'/' (reader.lower resource_id))

  abbrev pub metric_if : Bool → Option (Json F) → Option F
  metric_if true value = some (reader.float_or_zero value)
  metric_if false value = none

  abbrev pub record_of : String → Row F → String → String → Record F
  record_of kind row resource_id date = record {
    resource_id = resource_id;
    subscription_id = subscription_from_resource_id resource_id;
    date = date;
    currency = row.currency;
    uptime_hours = metric_if (str_eq kind "both" || str_eq kind "hours") row.usage_quantity;
    cost = metric_if (str_eq kind "both" || str_eq kind "cost") row.cost;
  }

  abbrev pub cons_record :
      String → Row F → Option String → Option String → List (Record F) → List (Record F)
  cons_record kind row (some resource_id) (some date) rest =
      if str_eq resource_id "" || str_eq date ""
      then rest
      else record_of kind row resource_id date ∷ rest
  cons_record kind row _ _ rest = rest

  unfoldable pub map_page_records : String → List (Row F) → List (Record F)
  unfolding fmt_usage_date subscription_from_resource_id
  map_page_records kind [] = []
  map_page_records kind (row ∷ rows) =
      cons_record kind row row.resource_id (fmt_usage_date row.usage_date)
        (map_page_records kind rows)

-- What the store's MERGE leaves of a record under a later one of the same resource and day.
abbrev pub merged : {F : Type 0} → Record F → Record F → Record F
merged a b = record b {
  uptime_hours = or_else b.uptime_hours a.uptime_hours;
  cost = or_else b.cost a.cost;
}

abbrev pub merge_all : {F : Type 0} → List (Record F) → List (Record F) → List (Record F)
merge_all (a ∷ xs) (b ∷ ys) = merged a b ∷ merge_all xs ys
merge_all _ _ = []

module _ {F : Type 0} (reader : Reader F) where
  cons_record-merge_all :
      (row : Row F) (id date : Option String) (xs ys zs : List (Record F))
      → merge_all xs ys ≡ zs
      → merge_all
          (cons_record reader "hours" row id date xs)
          (cons_record reader "cost" row id date ys)
        ≡ cons_record reader "both" row id date zs
  cons_record-merge_all row none date xs ys zs h = h
  cons_record-merge_all row (some id) none xs ys zs h = h
  cons_record-merge_all row (some id) (some date) xs ys zs h =
      elim (Bool-cases (str_eq id "" || str_eq date "")) [
        | inl skipped ↦ rw skipped h
        | inr listed ↦ rw listed (ap (λ rest. record_of reader "both" row id date ∷ rest) h)
      ]

  -- For rows of one page, merging the records of the cost query over those of the hours query gives
  -- the records of the single query for both metrics, in the same order.
  pub map_page_records-merge_all :
      (rows : List (Row F))
      → merge_all (map_page_records reader "hours" rows) (map_page_records reader "cost" rows)
        ≡ map_page_records reader "both" rows
  unfolding map_page_records
  map_page_records-merge_all [] = refl
  map_page_records-merge_all (row ∷ rows) =
      cons_record-merge_all row row.resource_id (fmt_usage_date reader row.usage_date)
        (map_page_records reader "hours" rows) (map_page_records reader "cost" rows)
        (map_page_records reader "both" rows) (map_page_records-merge_all rows)
