-- ===== src/ActivityLog/Assembly/Operations.antt =====
-- `assemble_operation` and `assemble` of services/activity_log/assembly.py. A dict is an association
-- list in insertion order; `none` is the IndexError of `assemble_operation` on no events, and the
-- TypeError of a sort that compares moments with and without a time zone.
use Prim.Native.String
use az_capa.Prelude.{
  ℕ, String, Bool, true, false, not, ◌&&◌, ◌||◌, Option, none, some, List, [], ◌∷◌, str_eq, truthy,
  contains, sorted_set, any, get_or, get_last?, if◌then◌else◌,
}
use az_capa.Prelude as Prelude
use az_capa.Json.{Fields}
use az_capa.ActivityLog.Assembly.Events.{
  PreparedEvent, Texts, take_text, sort_by, identity_string, parse_timestamp, has_naive_moment,
  outcome, select_applied, merge_columns, first_id, terminal_id, id_of, head_or,
}

pub record Operation (F Payload : Type 0) : Type 0 where
  pub operation_identity : String
  pub operation_identity_hash : String
  pub partition_key : String
  pub row_key : String
  pub subscription_id : String
  pub resource_id : Option String
  pub resource_type : Option String
  pub operation_name : String
  pub operation_id : Option String
  pub correlation_id : Option String
  pub first_event_time : String
  pub last_event_time : String
  pub request_event_id : Option String
  pub terminal_event_id : Option String
  pub all_event_ids : List String
  pub columns : Fields F
  pub applied_event_id : Option String
  pub applied_payload_gz : Option Payload
  pub payload_encoding : Option String
  pub outcome : String
  pub pairing_status : String
  pub reprojection_pending : Bool

abbrev pub applied_payload :
    {F Payload : Type 0} → Option (PreparedEvent F Payload) → Option Payload
applied_payload none = none
applied_payload (some event) = event.payload_gz

abbrev pub applied_encoding :
    {F Payload : Type 0} → Option (PreparedEvent F Payload) → Option String
applied_encoding none = none
applied_encoding (some event) = event.payload_encoding

-- The ids that are not empty.
abbrev pub event_ids : {F Payload : Type 0} → List (PreparedEvent F Payload) → List String
event_ids [] = []
event_ids (event ∷ events) =
    if str_eq event.event_data_id ""
    then event_ids events
    else event.event_data_id ∷ event_ids events

unfoldable pub partition_key : Texts → (subscription_id operation_identity_hash : String) → String
partition_key texts subscription_id operation_identity_hash =
    String.◌++◌ (texts.lower subscription_id)
      (String.◌++◌ "|" (take_text 2 operation_identity_hash))

module _ (texts : Texts) {F Payload : Type 0} where
  -- The operation of the sorted events, with its first and its last one.
  unfoldable pub operation_of :
      (first representative : PreparedEvent F Payload)
      → List (PreparedEvent F Payload)
      → Operation F Payload
  unfolding identity_string select_applied merge_columns first_id terminal_id outcome partition_key
  operation_of first representative ordered =
      let identity = identity_string texts representative in
      let identity_digest = texts.sha1 identity in
      let applied = select_applied texts ordered in
      record {
        operation_identity = identity;
        operation_identity_hash = identity_digest;
        partition_key = partition_key texts representative.subscription_id identity_digest;
        row_key = identity_digest;
        subscription_id = texts.lower representative.subscription_id;
        resource_id = representative.resource_id;
        resource_type = representative.resource_type;
        operation_name = representative.operation_name;
        operation_id = representative.operation_id;
        correlation_id = representative.correlation_id;
        first_event_time = first.event_timestamp;
        last_event_time = representative.event_timestamp;
        request_event_id = first_id texts ordered ("accepted" ∷ "started" ∷ []);
        terminal_event_id = terminal_id texts ordered;
        all_event_ids = sorted_set texts.less (event_ids ordered);
        columns = merge_columns texts ordered;
        applied_event_id = id_of texts applied;
        applied_payload_gz = applied_payload applied;
        payload_encoding = applied_encoding applied;
        outcome = outcome texts ordered;
        pairing_status = if truthy representative.correlation_id then "paired" else "unpaired";
        reprojection_pending =
            any (λ (event : PreparedEvent F Payload). event.reprojection_pending) ordered;
      }

  abbrev pub from_ends :
      Option (PreparedEvent F Payload)
      → Option (PreparedEvent F Payload)
      → List (PreparedEvent F Payload)
      → Option (Operation F Payload)
  unfolding operation_of
  from_ends (some first) (some last) ordered = some (operation_of first last ordered)
  from_ends _ _ ordered = none

  -- Sorting moments of which some name a time zone and others do not is a TypeError.
  abbrev pub mixes_moments : List (PreparedEvent F Payload) → Bool
  mixes_moments events =
      any (has_naive_moment texts) events
      && any (λ event. not (has_naive_moment texts event)) events

  unfoldable pub assemble_operation : List (PreparedEvent F Payload) → Option (Operation F Payload)
  unfolding parse_timestamp operation_of
  assemble_operation events =
      let ordered = sort_by (parse_timestamp texts) events in
      if mixes_moments events then none else from_ends (head_or ordered) (get_last? ordered) ordered

  -- The key under which repeated events collapse.
  abbrev pub event_key : PreparedEvent F Payload → String
  event_key event =
      String.◌++◌ (texts.lower event.subscription_id) (String.◌++◌ "|" event.event_data_id)

  -- `deduped[key] = event`
  abbrev pub put_event :
      String
      → PreparedEvent F Payload
      → List (String × PreparedEvent F Payload)
      → List (String × PreparedEvent F Payload)
  put_event key event [] = (key, event) ∷ []
  put_event key event ((k, e) ∷ rest) =
      let later = put_event key event rest in
      if str_eq k key then (k, event) ∷ rest else (k, e) ∷ later

  unfoldable pub dedupe :
      List (PreparedEvent F Payload)
      → List (String × PreparedEvent F Payload)
      → List (String × PreparedEvent F Payload)
  dedupe [] deduped = deduped
  dedupe (event ∷ events) deduped = dedupe events (put_event (event_key event) event deduped)

  -- `grouped.setdefault(identity, []).append(event)`
  abbrev pub append_event :
      String
      → PreparedEvent F Payload
      → List (String × List (PreparedEvent F Payload))
      → List (String × List (PreparedEvent F Payload))
  append_event identity event [] = (identity, event ∷ []) ∷ []
  append_event identity event ((i, es) ∷ rest) =
      let later = append_event identity event rest in
      if str_eq i identity then (i, Prelude.◌++◌ es (event ∷ [])) ∷ rest else (i, es) ∷ later

  unfoldable pub group_events :
      List (String × PreparedEvent F Payload)
      → List (String × List (PreparedEvent F Payload))
      → List (String × List (PreparedEvent F Payload))
  unfolding identity_string
  group_events [] grouped = grouped
  group_events ((_, event) ∷ deduped) grouped =
      group_events deduped (append_event (identity_string texts event) event grouped)

  abbrev pub cons_operation :
      Option (Operation F Payload)
      → Option (List (Operation F Payload))
      → Option (List (Operation F Payload))
  cons_operation (some operation) (some operations) = some (operation ∷ operations)
  cons_operation _ _ = none

  unfoldable pub assemble_groups :
      List (String × List (PreparedEvent F Payload)) → Option (List (Operation F Payload))
  unfolding assemble_operation
  assemble_groups [] = some []
  assemble_groups ((_, group) ∷ groups) =
      cons_operation (assemble_operation group) (assemble_groups groups)

  unfoldable pub assemble : List (PreparedEvent F Payload) → Option (List (Operation F Payload))
  unfolding dedupe group_events assemble_groups
  assemble events = assemble_groups (group_events (dedupe events []) [])
