-- ===== src/CoverageDecision.antt =====
-- services/odcr_coverage_decisions.py: the parsing of a change of coverage decisions. Python's
-- `strip`, `lower` and the comparison of letters under `re.IGNORECASE` are parameters. What reads
-- and writes the store, and the query text, are left out.
pub mod Accepted
mod Tests
use Prim.Native.Nat.{suc}
use Prim.Native.Char.{Char, code}
use Prim.Native.String
use az_capa.Prelude.{
  ℕ, String, Bool, true, false, not, ◌&&◌, ◌||◌, Option, none, some, List, [], ◌∷◌, str_eq, truthy,
  contains, is_some, opt_eq, split_at, leb, length, if◌then◌else◌, ◌==◌,
}
use az_capa.Json.{Json, null, bool, int, float, str, arr, obj, Items, nil, cons, Fields, lookup}

abbrev pub required : String
required = "required"

abbrev pub valid_decisions : List String
valid_decisions = required ∷ "not_required" ∷ []

abbrev pub valid_priorities : List String
valid_priorities = "low" ∷ "medium" ∷ "high" ∷ []

abbrev pub max_note_length : ℕ
max_note_length = 500

abbrev pub max_resource_ids : ℕ
max_resource_ids = 500

pub record CoverageDecisionChange : Type 0 where
  pub resource_ids : List String
  pub decision : Option String
  pub priority : Option String
  pub note : Option String

-- The ValueErrors, in the order of their checks.
pub data Refusal : Type 0 where
  body_no_object : Refusal
  ids_no_array : Refusal
  too_many_ids : Refusal
  id_no_text : Refusal
  id_invalid : Refusal
  decision_invalid : Refusal
  priority_invalid : Refusal
  priority_missing : Refusal
  priority_unexpected : Refusal
  note_no_text : Refusal
  note_too_long : Refusal
  note_unexpected : Refusal

pub data Checked (A : Type 0) : Type 0 where
  ok : A → Checked A
  refused : Refusal → Checked A

abbrev pub then_check : {A B : Type 0} → Checked A → (A → Checked B) → Checked B
then_check (ok a) next = next a
then_check (refused e) next = refused e

abbrev pub guarded : {A : Type 0} → Bool → Refusal → Checked A → Checked A
guarded true e rest = refused e
guarded false e rest = rest

abbrev pub text_length : String → ℕ
text_length String.[] = 0
text_length (String.◌∷◌ c s) = suc (text_length s)

abbrev push_unless_end : Char → String → String
push_unless_end c String.[] = if code c == b'/' then "" else String.◌∷◌ c String.[]
push_unless_end c (String.◌∷◌ d s) = String.◌∷◌ c (String.◌∷◌ d s)

-- `s.rstrip("/")`
abbrev pub rstrip_slash : String → String
rstrip_slash String.[] = ""
rstrip_slash (String.◌∷◌ c s) = push_unless_end c (rstrip_slash s)

abbrev pub item_count : {F : Type 0} → Items F → ℕ
item_count nil = 0
item_count (cons v rest) = suc (item_count rest)

abbrev pub remove : String → List String → List String
remove s [] = []
remove s (x ∷ xs) = let rest = remove s xs in if str_eq x s then rest else x ∷ rest

-- `tuple(dict.fromkeys(xs))`: the first of equal texts stays.
abbrev pub from_keys : List String → List String
from_keys [] = []
from_keys (x ∷ xs) = x ∷ remove x (from_keys xs)

module _ (like : String → String → Bool) where
  -- `_VM_ID_RE.fullmatch(s).group(1)` from the segments between the slashes of `s`
  abbrev pub subscription_segment : List String → Option String
  subscription_segment
        (root ∷ subscriptions ∷ id ∷ groups ∷ group ∷ providers ∷ provider ∷ kind ∷ vm ∷ []) =
      if str_eq root ""
        && (like subscriptions "subscriptions"
            && (truthy (some id)
                && (like groups "resourcegroups"
                    && (truthy (some group)
                        && (like providers "providers"
                            && (like provider "microsoft.compute"
                                && (like kind "virtualmachines" && truthy (some vm))))))))
      then some id
      else none
  subscription_segment _ = none

  abbrev pub vm_id_match : String → Option String
  vm_id_match s = subscription_segment (split_at b'/' s)

abbrev pub assemble :
    List String → Option String → Option String → Option String → Checked CoverageDecisionChange
assemble ids decision priority note =
    guarded (not (is_some decision) && is_some note) note_unexpected
      (ok (record { resource_ids = ids; decision = decision; priority = priority; note = note }))

abbrev pub lowered : (String → String) → Option String → Checked String
lowered lower none = refused id_invalid
lowered lower (some id) = ok (lower id)

unfoldable pub subscription_id_from_resource_id :
    (String → String) → (String → String → Bool) → String → Checked String
subscription_id_from_resource_id lower like s = lowered lower (vm_id_match like s)

abbrev pub stripped : (String → String) → String → Option String
stripped strip s = if str_eq s "" then none else some (strip s)

module _ (strip lower : String → String) (like : String → String → Bool) {F : Type 0} where
  unfoldable pub normalize_vm_resource_id : Json F → Checked String
  normalize_vm_resource_id (str s) =
      let normalized = lower (rstrip_slash (strip s)) in
      if is_some (vm_id_match like normalized) then ok normalized else refused id_invalid
  normalize_vm_resource_id _ = refused id_no_text

  unfoldable pub normalize_all : Items F → Checked (List String)
  unfolding normalize_vm_resource_id
  normalize_all nil = ok []
  normalize_all (cons v rest) =
      then_check (normalize_vm_resource_id v)
        (λ id. then_check (normalize_all rest) (λ ids. ok (id ∷ ids)))

  unfoldable pub parse_ids : Option (Json F) → Checked (List String)
  unfolding normalize_all
  parse_ids (some (arr nil)) = refused ids_no_array
  parse_ids (some (arr (cons v rest))) =
      guarded (not (leb (item_count (cons v rest)) max_resource_ids)) too_many_ids
        (then_check (normalize_all (cons v rest)) (λ ids. ok (from_keys ids)))
  parse_ids _ = refused ids_no_array

  -- A value of a list of lower-case words, or None; an absent key is None.
  unfoldable pub parse_choice : List String → Refusal → Option (Json F) → Checked (Option String)
  parse_choice valid e none = ok none
  parse_choice valid e (some null) = ok none
  parse_choice valid e (some (str s)) =
      if contains valid (lower s) then ok (some (lower s)) else refused e
  parse_choice valid e (some _) = refused e

  unfoldable pub parse_note : Option (Json F) → Checked (Option String)
  parse_note none = ok none
  parse_note (some null) = ok none
  parse_note (some (str s)) =
      guarded (not (leb (text_length (strip s)) max_note_length) && not (str_eq s "")) note_too_long
        (ok (stripped strip s))
  parse_note (some _) = refused note_no_text

  abbrev pub parse_fields : Fields F → Checked CoverageDecisionChange
  parse_fields payload = then_check (parse_ids (lookup "resourceIds" payload)) (λ ids.
      then_check (parse_choice valid_decisions decision_invalid (lookup "decision" payload))
        (λ decision.
          then_check (parse_choice valid_priorities priority_invalid (lookup "priority" payload))
            (λ priority.
              guarded (opt_eq decision required && not (is_some priority)) priority_missing (
                guarded (not (opt_eq decision required) && is_some priority) priority_unexpected (
                  then_check (parse_note (lookup "note" payload))
                    (λ note. assemble ids decision priority note))))))

  unfoldable pub parse_decision_change : Json F → Checked CoverageDecisionChange
  unfolding parse_ids parse_choice parse_note
  parse_decision_change (obj payload) = parse_fields payload
  parse_decision_change _ = refused body_no_object
