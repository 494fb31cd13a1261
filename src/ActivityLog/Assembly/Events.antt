-- ===== src/ActivityLog/Assembly/Events.antt =====
-- Events and what an operation takes from them, services/activity_log/assembly.py. `str.lower`, the
-- order of texts, SHA-1 and the reading of a timestamp are parameters.

use Prim.Native.String
use az_capa.Prelude.{
  ℕ, zero, suc, String, Bool, not, ◌&&◌, ◌||◌, Option, none, some, List, [], ◌∷◌, str_eq, truthy,
  contains, get_or, ltb, is_some, if◌then◌else◌,
}
use az_capa.Json.{Fields, end, field}
use az_capa.ActivityLog.Projection.{put_field}

pub record PreparedEvent (F Payload : Type 0) : Type 0 where
  pub event_data_id : String
  pub event_timestamp : String
  pub subscription_id : String
  pub resource_id : Option String
  pub operation_name : String
  pub status : Option String
  pub resource_type : Option String
  pub submission_timestamp : Option String
  pub operation_id : Option String
  pub correlation_id : Option String
  pub columns : Fields F
  pub payload_gz : Option Payload
  pub payload_encoding : Option String
  pub reprojection_pending : Bool

-- The functions of Python on texts; a moment is a number, the greatest of which is `max_moment`.
pub record Texts : Type 0 where
  pub lower : String → String
  pub less : String → String → Bool
  pub from_iso : String → Option ℕ
  -- Whether the moment that is read names no time zone: Python does not compare it with others.
  pub is_naive : String → Bool
  pub max_moment : ℕ
  pub sha1 : String → String

-- `TERMINAL_STATUSES` of services/activity_log/recipes.py
abbrev pub terminal_statuses : List String
terminal_statuses = "succeeded" ∷ "failed" ∷ "canceled" ∷ "cancelled" ∷ []

-- `_OUTCOME_BY_STATUS.get(…, OUTCOME_UNKNOWN)`
abbrev pub outcome_by_status : String → String
outcome_by_status s =
    if str_eq s "succeeded"
    then "succeeded"
    else if str_eq s "failed"
    then "failed"
    else if str_eq s "canceled" || str_eq s "cancelled"
    then "cancelled"
    else "unknown"

abbrev pub take_text : ℕ → String → String
take_text zero s = ""
take_text (suc n) String.[] = ""
take_text (suc n) (String.◌∷◌ c s) = String.◌∷◌ c (take_text n s)

-- `d.update(…)`
abbrev pub update_fields : {F : Type 0} → Fields F → Fields F → Fields F
update_fields base end = base
update_fields base (field k v fs) = update_fields (put_field k v base) fs

abbrev pub select {ℓ} : {A : Type ℓ} → (A → Bool) → List A → List A
select p [] = []
select p (x ∷ xs) = if p x then x ∷ select p xs else select p xs

-- `xs or ys`
abbrev pub or_list {ℓ} : {A : Type ℓ} → List A → List A → List A
or_list [] ys = ys
or_list (x ∷ xs) ys = x ∷ xs

-- `max(…, key=…)`, the first of the greatest, and `none` for the default
abbrev pub greater {ℓ} : {A : Type ℓ} → (A → ℕ) → A → List A → A
greater key best [] = best
greater key best (x ∷ xs) = greater key (if ltb (key best) (key x) then x else best) xs

abbrev pub max_by {ℓ} : {A : Type ℓ} → (A → ℕ) → List A → Option A
max_by key [] = none
max_by key (x ∷ xs) = some (greater key x xs)

-- `sorted(…, key=…)`, which keeps the order of equal keys
abbrev pub insert_by {ℓ} : {A : Type ℓ} → (A → ℕ) → A → List A → List A
insert_by key x [] = x ∷ []
insert_by key x (y ∷ ys) =
    let rest = insert_by key x ys in if ltb (key y) (key x) then y ∷ rest else x ∷ y ∷ ys

abbrev pub sort_by {ℓ} : {A : Type ℓ} → (A → ℕ) → List A → List A
sort_by key [] = []
sort_by key (x ∷ xs) = insert_by key x (sort_by key xs)

abbrev pub head_or {ℓ} : {A : Type ℓ} → List A → Option A
head_or [] = none
head_or (x ∷ xs) = some x

module _ (texts : Texts) {F Payload : Type 0} where
  unfoldable pub identity_string : PreparedEvent F Payload → String
  identity_string event =
      let subscription = texts.lower event.subscription_id in
      let resource = texts.lower (get_or event.resource_id "") in
      let operation = texts.lower event.operation_name in
      if truthy event.correlation_id
      then String.◌++◌ subscription (
          String.◌++◌ "|" (
            String.◌++◌ resource (
              String.◌++◌ "|"
                (String.◌++◌ (get_or event.correlation_id "") (String.◌++◌ "|" operation)))))
      else String.◌++◌ subscription (
          String.◌++◌ "|" (
            String.◌++◌ resource (
              String.◌++◌ "|unpaired|"
                (String.◌++◌ operation (String.◌++◌ "|" event.event_data_id)))))

  unfoldable pub parse_timestamp : PreparedEvent F Payload → ℕ
  parse_timestamp event =
      if str_eq event.event_timestamp ""
      then texts.max_moment
      else get_or (texts.from_iso event.event_timestamp) texts.max_moment

  abbrev pub has_naive_moment : PreparedEvent F Payload → Bool
  has_naive_moment event =
      not (str_eq event.event_timestamp "")
      && (is_some (texts.from_iso event.event_timestamp) && texts.is_naive event.event_timestamp)

  -- `(event.status or "").lower()`
  abbrev pub status_of : PreparedEvent F Payload → String
  status_of event = texts.lower (get_or event.status "")

  abbrev pub is_terminal : PreparedEvent F Payload → Bool
  is_terminal event = contains terminal_statuses (status_of event)

  abbrev pub is_accepted : PreparedEvent F Payload → Bool
  is_accepted event = str_eq (status_of event) "accepted"

  abbrev pub outcome_of : Option (PreparedEvent F Payload) → String
  outcome_of none = "pending"
  outcome_of (some latest) = outcome_by_status (status_of latest)

  unfoldable pub outcome : List (PreparedEvent F Payload) → String
  unfolding parse_timestamp
  outcome events = outcome_of (max_by parse_timestamp (select is_terminal events))

  abbrev pub has_payload : PreparedEvent F Payload → Bool
  has_payload event = is_some event.payload_gz

  unfoldable pub select_applied : List (PreparedEvent F Payload) → Option (PreparedEvent F Payload)
  unfolding parse_timestamp
  select_applied events =
      let pool = or_list (select is_accepted events) (or_list (select has_payload events) events) in
      max_by parse_timestamp (or_list (select has_payload pool) pool)

  abbrev pub update_all : Fields F → List (PreparedEvent F Payload) → Fields F
  update_all merged [] = merged
  update_all merged (event ∷ events) = update_all (update_fields merged event.columns) events

  unfoldable pub merge_columns : List (PreparedEvent F Payload) → Fields F
  merge_columns events =
      update_all end (sort_by (λ event. if is_accepted event then 1 else 0) events)

  abbrev pub id_of : Option (PreparedEvent F Payload) → Option String
  id_of none = none
  id_of (some event) = some event.event_data_id

  unfoldable pub first_id :
      List (PreparedEvent F Payload) → (statuses : List String) → Option String
  unfolding parse_timestamp
  first_id events statuses = id_of (
      head_or
        (select (λ event. contains statuses (status_of event)) (sort_by parse_timestamp events)))

  unfoldable pub terminal_id : List (PreparedEvent F Payload) → Option String
  unfolding parse_timestamp
  terminal_id events = id_of (max_by parse_timestamp (select is_terminal events))
