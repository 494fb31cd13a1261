-- ===== src/VmCoverage/Compact.antt =====
-- The compact prerequisites of `project_vm_list_row`, services/odcr_coverage.py, and what a reader
-- gets back from them.
use az_capa.Prelude.{
  String, ◌≡◌, refl, sym, ◌∙◌, Bool, true, false, ◌||◌, Option, none, some, List, [], ◌∷◌, str_eq,
  str_eq_iff, contains, distinct, map, arith, Bool-cases, inl, inr, if◌then◌else◌, opt_eq,
}
use az_capa.VmCoverage.Requirements.{
  Definition, definitions, Requirement, present, VmRow, requirements_of,
}

pub record SparseRequirement : Type 0 where
  pub key : String
  pub status : String
  pub reason : Option String
  pub observed_value : Option String
  pub resource_id : Option String

-- `definition.get("failureReason")` of `_ODCR_REQUIREMENT_DEFINITIONS.get(key, {})`
abbrev pub failure_reason_of : String → List Definition → Option String
failure_reason_of key [] = none
failure_reason_of key (d ∷ ds) =
    if str_eq d.key key then d.failure_reason else failure_reason_of key ds

abbrev pub new_reason : Option String → Option String → Option String
new_reason none known = none
new_reason (some reason) known =
    if str_eq reason "" || opt_eq known reason then none else some reason

abbrev pub shown_if : Bool → Option String → Option String
shown_if true value = present value
shown_if false value = none

unfoldable pub sparse : Requirement → SparseRequirement
sparse r =
    let detailed = str_eq r.status "Failed" || str_eq r.status "Unknown" in
    record {
      key = r.key;
      status = r.status;
      reason = new_reason r.reason (failure_reason_of r.key definitions);
      observed_value = shown_if detailed (some r.observed_value);
      resource_id = shown_if detailed r.resource_id;
    }

unfoldable pub compact : List Requirement → List SparseRequirement
unfolding sparse
compact [] = []
compact (r ∷ rs) = if str_eq r.status "Passed" then compact rs else sparse r ∷ compact rs

-- The status that a reader finds for a prerequisite: that of its entry, and `defaultStatus`, which
-- is Passed, where there is none.
abbrev pub status_in : String → List SparseRequirement → String
status_in key [] = "Passed"
status_in key (s ∷ ss) = if str_eq s.key key then s.status else status_in key ss

abbrev pub status_of : String → List Requirement → String
status_of key [] = "Passed"
status_of key (r ∷ rs) = if str_eq r.key key then r.status else status_of key rs

abbrev pub keys : List Requirement → List String
keys rs = map (λ (r : Requirement). r.key) rs

absent-status_in :
    (key : String) (rs : List Requirement)
    → contains (keys rs) key ≡ false
    → status_in key (compact rs) ≡ "Passed"
unfolding compact sparse
absent-status_in key [] h = refl
absent-status_in key (r ∷ rs) h =
    let other : str_eq r.key key ≡ false = ground arith in
    let rest = absent-status_in key rs (ground arith) in
    elim (Bool-cases (str_eq r.status "Passed")) [
      | inl passed ↦ rw passed rest
      | inr shown ↦ rw (shown, other) rest
    ]

status_in-compact :
    (key : String) (rs : List Requirement)
    → distinct (keys rs) ≡ true
    → status_in key (compact rs) ≡ status_of key rs
unfolding compact sparse
status_in-compact key [] h = refl
status_in-compact key (r ∷ rs) h =
    let rest = status_in-compact key rs (ground arith) in
    elim (Bool-cases (str_eq r.key key)) [
      | inl same ↦
          let fresh : contains (keys rs) key ≡ false =
            rw (← (str_eq_iff r.key key).0 same) (first_absent r rs h) in
          elim (Bool-cases (str_eq r.status "Passed")) [
            | inl passed ↦
                rw (passed, same)
                  (absent-status_in key rs fresh ∙ sym ((str_eq_iff r.status "Passed").0 passed))
            | inr shown ↦ rw (shown, same)
          ]
      | inr other ↦ elim (Bool-cases (str_eq r.status "Passed")) [
        | inl passed ↦ rw (passed, other) rest
        | inr shown ↦ rw (shown, other) rest
      ]
    ]
  where
    first_absent :
        (r : Requirement) (rs : List Requirement)
        → distinct (keys (r ∷ rs)) ≡ true
        → contains (keys rs) r.key ≡ false
    first_absent r rs h = ground arith

-- The compact list of a VM's prerequisites gives back the status of every prerequisite: an entry
-- has it, and a missing entry means Passed.
pub compact-status_in :
    {F : Type 0} (canonical : String → String) (is_zero : F → Bool) (row : VmRow F) (key : String)
    → status_in key (compact (requirements_of canonical is_zero row))
      ≡ status_of key (requirements_of canonical is_zero row)
unfolding requirements_of
compact-status_in canonical is_zero row key =
    status_in-compact key (requirements_of canonical is_zero row) refl
