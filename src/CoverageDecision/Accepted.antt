-- ===== src/CoverageDecision/Accepted.antt =====
-- What an accepted change of coverage decisions guarantees.
use mathlib.Core.Path.{subst}
use az_capa.Prelude.{
  ℕ, suc, length, distinct, ◌≤◌, String, ◌≡◌, ◌⊎◌, refl, ap, sym, ◌∙◌, Bool, true, false, not, ◌&&◌,
  Option, none, some, List, [], ◌∷◌, str_eq, contains, is_some, opt_eq, leb, leb→le, all, or-left,
  str_eq_refl, arith, Bool-cases, inl, inr,
}
use az_capa.Json.{Json, null, bool, int, float, str, arr, obj, Items, nil, cons, lookup}
use az_capa.CoverageDecision.{
  required, valid_decisions, valid_priorities, max_note_length, CoverageDecisionChange, Refusal,
  decision_invalid, priority_invalid, note_too_long, stripped, Checked, ok, refused, then_check,
  guarded, text_length, remove, from_keys, rstrip_slash, vm_id_match, normalize_vm_resource_id,
  normalize_all, item_count, parse_ids, parse_choice, parse_note, parse_decision_change,
}

ok_inj : {A : Type 0} {a b : A} → ok a ≡ ok b → a ≡ b
ok_inj h = cc

then_check-ok :
    {A B : Type 0} (c : Checked A) (next : A → Checked B) (b : B)
    → then_check c next ≡ ok b
    → (a : A) × (c ≡ ok a) × (next a ≡ ok b)
then_check-ok (ok a) next b h = (a, refl, h)
then_check-ok (refused e) next b h = absurd (cc h)

guarded-ok :
    {A : Type 0} (t : Bool) (e : Refusal) (rest : Checked A) (a : A)
    → guarded t e rest ≡ ok a
    → (t ≡ false) × (rest ≡ ok a)
guarded-ok true e rest a h = absurd (cc h)
guarded-ok false e rest a h = (refl, h)

and-intro : (a b : Bool) → a ≡ true → b ≡ true → (a && b) ≡ true
and-intro a b h k = ground arith

all-remove :
    (p : String → Bool) (s : String) (xs : List String)
    → all p xs ≡ true
    → all p (remove s xs) ≡ true
all-remove p s [] h = refl
all-remove p s (x ∷ xs) h = elim (Bool-cases (str_eq x s)) [
  | inl same ↦ rw same (all-remove p s xs (ground arith))
  | inr other ↦
      rw other
        (and-intro (p x) (all p (remove s xs)) (ground arith) (all-remove p s xs (ground arith)))
]

all-from_keys :
    (p : String → Bool) (xs : List String) → all p xs ≡ true → all p (from_keys xs) ≡ true
all-from_keys p [] h = refl
all-from_keys p (x ∷ xs) h =
    and-intro (p x) (all p (remove x (from_keys xs))) (ground arith)
      (all-remove p x (from_keys xs) (all-from_keys p xs (ground arith)))

contains-remove : (s : String) (xs : List String) → contains (remove s xs) s ≡ false
contains-remove s [] = refl
contains-remove s (x ∷ xs) = elim (Bool-cases (str_eq x s)) [
  | inl same ↦ rw same (contains-remove s xs)
  | inr other ↦ rw (other, other) (contains-remove s xs)
]

contains-remove-other :
    (s t : String) (xs : List String) → contains xs t ≡ false → contains (remove s xs) t ≡ false
contains-remove-other s t [] h = refl
contains-remove-other s t (x ∷ xs) h =
    let rest = contains-remove-other s t xs (ground arith) in
    let head_other : str_eq x t ≡ false = ground arith in
    elim (Bool-cases (str_eq x s)) [
      | inl same ↦ rw same rest
      | inr other ↦ rw (other, head_other) rest
    ]

distinct-remove :
    (s : String) (xs : List String) → distinct xs ≡ true → distinct (remove s xs) ≡ true
distinct-remove s [] h = refl
distinct-remove s (x ∷ xs) h =
    let rest = distinct-remove s xs (ground arith) in
    elim (Bool-cases (str_eq x s)) [
      | inl same ↦ rw same rest
      | inr other ↦ rw (other, contains-remove-other s x xs (ground arith)) rest
    ]

distinct-from_keys : (xs : List String) → distinct (from_keys xs) ≡ true
distinct-from_keys [] = refl
distinct-from_keys (x ∷ xs) =
    rw (contains-remove x (from_keys xs)) (distinct-remove x (from_keys xs) (distinct-from_keys xs))

length-remove : (s : String) (xs : List String) → length (remove s xs) ≤ length xs
length-remove s [] = omega arith
length-remove s (x ∷ xs) =
    let rest = length-remove s xs in
    elim (Bool-cases (str_eq x s)) [
      | inl same ↦ rw same (omega (arith, rest))
      | inr other ↦ rw other (omega (arith, rest))
    ]

length-from_keys : (xs : List String) → length (from_keys xs) ≤ length xs
length-from_keys [] = omega arith
length-from_keys (x ∷ xs) =
    let removed = length-remove x (from_keys xs) in
    let rest = length-from_keys xs in omega (arith, removed, rest)

at_most_500 :
    (items found kept : ℕ) → not (leb items 500) ≡ false → found ≡ items → kept ≤ found → kept ≤ 500
at_most_500 items found kept few same less = ground arith

abbrev pub is_vm_id : (String → String → Bool) → String → Bool
is_vm_id like s = is_some (vm_id_match like s)

-- Some ids, each of a VM, each once, at most 500.
abbrev IdsAccepted : (String → String → Bool) → List String → Type 0
IdsAccepted like ids =
    ((s : String) × (contains ids s ≡ true))
    × (all (is_vm_id like) ids ≡ true)
    × (distinct ids ≡ true)
    × (length ids ≤ 500)

-- What an accepted change satisfies.
pub record IsAccepted (like : String → String → Bool) (c : CoverageDecisionChange) : Type 0 where
  pub some_id : (s : String) × (contains c.resource_ids s ≡ true)
  pub ids_valid : all (is_vm_id like) c.resource_ids ≡ true
  pub ids_distinct : distinct c.resource_ids ≡ true
  pub ids_bounded : length c.resource_ids ≤ 500
  pub decision_known :
      (c.decision ≡ none)
      ⊎ ((d : String) × (c.decision ≡ some d)
          × (contains ("required" ∷ "not_required" ∷ []) d ≡ true))
  pub priority_known :
      (c.priority ≡ none)
      ⊎ ((p : String) × (c.priority ≡ some p)
          × (contains ("low" ∷ "medium" ∷ "high" ∷ []) p ≡ true))
  pub priority_if_required : is_some c.priority ≡ opt_eq c.decision "required"
  pub note_short : (c.note ≡ none) ⊎ ((n : String) × (c.note ≡ some n) × (text_length n ≤ 500))
  pub note_of_decision : (is_some c.decision ≡ true) ⊎ (c.note ≡ none)

not_and-false : (a b : Bool) → b ≡ false → (not a && not b) ≡ false → a ≡ true
not_and-false a b h k = ground arith

same_test : (p d : Bool) → (d && not p) ≡ false → (not d && p) ≡ false → p ≡ d
same_test p d h k = ground arith

unnoted :
    (d n : Option String) → (not (is_some d) && is_some n) ≡ false → (is_some d ≡ true) ⊎ (n ≡ none)
unnoted d none h = inr refl
unnoted (some x) (some n) h = inl refl
unnoted none (some n) h = absurd (cc h)

-- The parts of an accepted change.
accepted :
    {like : String → String → Bool} (ids : List String) (decision priority remark : Option String)
    (c : CoverageDecisionChange)
    → (record { resource_ids = ids; decision = decision; priority = priority; note = remark }) ≡ c
    → IdsAccepted like ids
    → (decision ≡ none) ⊎ ((d : String) × (decision ≡ some d) × (contains valid_decisions d ≡ true))
    → (priority ≡ none)
      ⊎ ((p : String) × (priority ≡ some p) × (contains valid_priorities p ≡ true))
    → is_some priority ≡ opt_eq decision required
    → (remark ≡ none) ⊎ ((n : String) × (remark ≡ some n) × (text_length n ≤ max_note_length))
    → (is_some decision ≡ true) ⊎ (remark ≡ none)
    → IsAccepted like c
accepted {like = like} ids decision priority remark c e (one, valid, once, few) d p q n m =
    rw (← e) (record {
      some_id = one;
      ids_valid = valid;
      ids_distinct = once;
      ids_bounded = few;
      decision_known = d;
      priority_known = p;
      priority_if_required = q;
      note_short = n;
      note_of_decision = m;
    })

module _ (strip lower : String → String) (like : String → String → Bool) {F : Type 0} where
  normalize_vm_resource_id-Valid :
      (v : Json F) (s : String)
      → normalize_vm_resource_id strip lower like v ≡ ok s
      → is_vm_id like s ≡ true
  unfolding normalize_vm_resource_id
  normalize_vm_resource_id-Valid null s h = absurd (cc h)
  normalize_vm_resource_id-Valid (bool b) s h = absurd (cc h)
  normalize_vm_resource_id-Valid (int i) s h = absurd (cc h)
  normalize_vm_resource_id-Valid (float x) s h = absurd (cc h)
  normalize_vm_resource_id-Valid (arr xs) s h = absurd (cc h)
  normalize_vm_resource_id-Valid (obj fs) s h = absurd (cc h)
  normalize_vm_resource_id-Valid (str t) s h =
      elim (Bool-cases (is_vm_id like (lower (rstrip_slash (strip t))))) [
        | inl valid ↦ ap (is_vm_id like) (sym (ok_inj (rw valid at h))) ∙ valid
        | inr other ↦ absurd (cc (rw other at h))
      ]

  length-normalize_all :
      (items : Items F) (ids : List String)
      → normalize_all strip lower like items ≡ ok ids
      → length ids ≡ item_count items
  unfolding normalize_all
  length-normalize_all nil ids h = ap length (sym (ok_inj h))
  length-normalize_all (cons v rest) ids h =
      let (s, first, h₁) = then_check-ok (normalize_vm_resource_id strip lower like v) _ ids h in
      let (more, others, h₂) = then_check-ok (normalize_all strip lower like rest) _ ids h₁ in
      ap length (sym (ok_inj h₂)) ∙ ap suc (length-normalize_all rest more others)

  normalize_all-Valid :
      (items : Items F) (ids : List String)
      → normalize_all strip lower like items ≡ ok ids
      → all (is_vm_id like) ids ≡ true
  unfolding normalize_all
  normalize_all-Valid nil ids h = ap (all (is_vm_id like)) (sym (ok_inj h))
  normalize_all-Valid (cons v rest) ids h =
      let (s, first, h₁) = then_check-ok _ _ ids h in
      let (more, others, h₂) = then_check-ok (normalize_all strip lower like rest) _ ids h₁ in
      ap (all (is_vm_id like)) (sym (ok_inj h₂))
      ∙ and-intro (is_vm_id like s) (all (is_vm_id like) more)
          (normalize_vm_resource_id-Valid v s first) (normalize_all-Valid rest more others)

  parse_ids-Valid :
      (o : Option (Json F)) (ids : List String)
      → parse_ids strip lower like o ≡ ok ids
      → IdsAccepted like ids
  unfolding parse_ids normalize_all
  parse_ids-Valid none ids h = absurd (cc h)
  parse_ids-Valid (some null) ids h = absurd (cc h)
  parse_ids-Valid (some (bool b)) ids h = absurd (cc h)
  parse_ids-Valid (some (int i)) ids h = absurd (cc h)
  parse_ids-Valid (some (float x)) ids h = absurd (cc h)
  parse_ids-Valid (some (str s)) ids h = absurd (cc h)
  parse_ids-Valid (some (obj fs)) ids h = absurd (cc h)
  parse_ids-Valid (some (arr nil)) ids h = absurd (cc h)
  parse_ids-Valid (some (arr (cons v rest))) ids h =
      let (few, h₁) = guarded-ok _ _ _ ids h in
      let (found, all_found, h₂) =
        then_check-ok (normalize_all strip lower like (cons v rest)) _ ids h₁ in
      let (s, first, h₃) =
        then_check-ok (normalize_vm_resource_id strip lower like v) _ found all_found in
      let (more, others, h₄) = then_check-ok (normalize_all strip lower like rest) _ found h₃ in
      (
        (
          s,
          ap (λ xs. contains xs s) (sym (ok_inj h₂) ∙ ap from_keys (sym (ok_inj h₄)))
              ∙ or-left (str_eq s s) _ (str_eq_refl s),
        ),
        ap (all (is_vm_id like)) (sym (ok_inj h₂))
            ∙ all-from_keys (is_vm_id like) found
                (normalize_all-Valid (cons v rest) found all_found),
        ap distinct (sym (ok_inj h₂)) ∙ distinct-from_keys found,
        subst (λ l. length l ≤ 500) (ok_inj h₂)
            (at_most_500 (item_count (cons v rest)) (length found) (length (from_keys found)) few
              (length-normalize_all (cons v rest) found all_found) (length-from_keys found)),
      )

  parse_choice-Known :
      (valid : List String) (e : Refusal) (o : Option (Json F)) (c : Option String)
      → parse_choice strip lower like valid e o ≡ ok c
      → (c ≡ none) ⊎ ((d : String) × (c ≡ some d) × (contains valid d ≡ true))
  unfolding parse_choice
  parse_choice-Known valid e none c h = inl (sym (ok_inj h))
  parse_choice-Known valid e (some null) c h = inl (sym (ok_inj h))
  parse_choice-Known valid e (some (bool b)) c h = absurd (cc h)
  parse_choice-Known valid e (some (int i)) c h = absurd (cc h)
  parse_choice-Known valid e (some (float x)) c h = absurd (cc h)
  parse_choice-Known valid e (some (arr xs)) c h = absurd (cc h)
  parse_choice-Known valid e (some (obj fs)) c h = absurd (cc h)
  parse_choice-Known valid e (some (str s)) c h = elim (Bool-cases (contains valid (lower s))) [
    | inl known ↦ inr (lower s, sym (ok_inj (rw known at h)), known)
    | inr other ↦ absurd (cc (rw other at h))
  ]

  parse_note-Short :
      (o : Option (Json F)) (n : Option String)
      → parse_note strip lower like o ≡ ok n
      → (n ≡ none) ⊎ ((t : String) × (n ≡ some t) × (text_length t ≤ max_note_length))
  unfolding parse_note
  parse_note-Short none n h = inl (sym (ok_inj h))
  parse_note-Short (some null) n h = inl (sym (ok_inj h))
  parse_note-Short (some (bool b)) n h = absurd (cc h)
  parse_note-Short (some (int i)) n h = absurd (cc h)
  parse_note-Short (some (float x)) n h = absurd (cc h)
  parse_note-Short (some (arr xs)) n h = absurd (cc h)
  parse_note-Short (some (obj fs)) n h = absurd (cc h)
  parse_note-Short (some (str s)) n h =
      let (fits, e) =
        guarded-ok (not (leb (text_length (strip s)) max_note_length) && not (str_eq s ""))
          note_too_long (ok (stripped strip s)) n h in
      elim (Bool-cases (str_eq s "")) [
        | inl blank ↦ inl (sym (ok_inj (rw blank at e)))
        | inr text ↦ inr (
          strip s,
          sym (ok_inj (rw text at e)),
          leb→le (text_length (strip s)) max_note_length
              (not_and-false (leb (text_length (strip s)) max_note_length) (str_eq s "") text fits),
        )
      ]

  pub parse_decision_change-IsAccepted :
      (payload : Json F) (c : CoverageDecisionChange)
      → parse_decision_change strip lower like payload ≡ ok c
      → IsAccepted like c
  unfolding parse_decision_change
  parse_decision_change-IsAccepted null c h = absurd (cc h)
  parse_decision_change-IsAccepted (bool b) c h = absurd (cc h)
  parse_decision_change-IsAccepted (int i) c h = absurd (cc h)
  parse_decision_change-IsAccepted (float x) c h = absurd (cc h)
  parse_decision_change-IsAccepted (str s) c h = absurd (cc h)
  parse_decision_change-IsAccepted (arr xs) c h = absurd (cc h)
  parse_decision_change-IsAccepted (obj fs) c h =
      let (ids, ids_ok, h₁) =
        then_check-ok (parse_ids strip lower like (lookup "resourceIds" fs)) _ c h in
      let (decision, decision_ok, h₂) =
        then_check-ok
          (parse_choice strip lower like valid_decisions decision_invalid (lookup "decision" fs)) _
          c h₁ in
      let (priority, priority_ok, h₃) =
        then_check-ok
          (parse_choice strip lower like valid_priorities priority_invalid (lookup "priority" fs)) _
          c h₂ in
      let (there, h₄) = guarded-ok _ _ _ c h₃ in
      let (absent, h₅) = guarded-ok _ _ _ c h₄ in
      let (note, note_ok, h₆) =
        then_check-ok (parse_note strip lower like (lookup "note" fs)) _ c h₅ in
      let (noted, h₇) = guarded-ok _ _ _ c h₆ in
      accepted ids decision priority note c (ok_inj h₇)
        (parse_ids-Valid (lookup "resourceIds" fs) ids ids_ok)
        (parse_choice-Known valid_decisions decision_invalid (lookup "decision" fs) decision
          decision_ok)
        (parse_choice-Known valid_priorities priority_invalid (lookup "priority" fs) priority
          priority_ok)
        (same_test (is_some priority) (opt_eq decision required) there absent)
        (parse_note-Short (lookup "note" fs) note note_ok) (unnoted decision note noted)
