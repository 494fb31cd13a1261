-- ===== src/ActivityLog/Assembly/Groups.antt =====
-- What sorting, deduplication and grouping keep of the events.
use Prim.Native.Char.{code}
use Prim.Native.String
use text.Mathlib.TextLemmas.{nil-append, cons-append}
use az_capa.Prelude.{
  ℕ, String, ◌≡◌, refl, ap, ◌∙◌, Bool, true, false, not, ◌&&◌, ◌||◌, List, [], ◌∷◌, ◌++◌, str_eq,
  str_eq_iff, contains, any, All, arith, Bool-cases, inl, inr, ltb, if◌then◌else◌, ◌==◌,
}
use az_capa.ActivityLog.Assembly.Events.{PreparedEvent, Texts, insert_by, sort_by}
use az_capa.ActivityLog.Assembly.Operations.{event_ids}

-- The text after the first bar.
abbrev pub after_bar : String → String
after_bar String.[] = ""
after_bar (String.◌∷◌ c s) = let rest = after_bar s in if code c == b'|' then s else rest

abbrev pub has_bar : String → Bool
has_bar String.[] = false
has_bar (String.◌∷◌ c s) = code c == b'|' || has_bar s

pub bar-append : (t : String) → String.◌++◌ "|" t ≡ String.◌∷◌ "|" t
bar-append t = cons-append "|" String.[] t ∙ ap (String.◌∷◌ "|") (nil-append t)

pub after_bar-append :
    (s t : String) → has_bar s ≡ false → after_bar (String.◌++◌ s (String.◌++◌ "|" t)) ≡ t
after_bar-append String.[] t h = rw (nil-append (String.◌++◌ "|" t), bar-append t)
after_bar-append (String.◌∷◌ c s) t h =
    let no : (code c == b'|') ≡ false = ground arith in
    rw (cons-append c s (String.◌++◌ "|" t), no) (after_bar-append s t (ground arith))

pub or_swap : (a b c : Bool) → (a || (b || c)) ≡ (b || (a || c))
or_swap a b c = ground arith

pub or_rotate : (a b c : Bool) → (a || (b || c)) ≡ ((b || a) || c)
or_rotate a b c = ground arith

pub or_move : (a b c : Bool) → ((a || (b || false)) || c) ≡ (b || (a || c))
or_move a b c = ground arith

pub or_right_false : (a : Bool) → ((a || false) || false) ≡ (a || false)
or_right_false a = ground arith

pub or_true : (a : Bool) → (a || (true || false)) ≡ true
or_true a = ground arith

pub absorb : (a b c : Bool) → a ≡ b → (a || c) ≡ (a || (b || c))
absorb a b c h = ground arith

module _ {A : Type 0} where
  pub any-insert_by :
      (p : A → Bool) (key : A → ℕ) (x : A) (xs : List A)
      → any p (insert_by key x xs) ≡ (p x || any p xs)
  any-insert_by p key x [] = refl
  any-insert_by p key x (y ∷ ys) = elim (Bool-cases (ltb (key y) (key x))) [
    | inl later ↦ rw (later, any-insert_by p key x ys) (or_swap (p y) (p x) (any p ys))
    | inr first ↦ rw first
  ]

  pub any-sort_by : (p : A → Bool) (key : A → ℕ) (xs : List A) → any p (sort_by key xs) ≡ any p xs
  any-sort_by p key [] = refl
  any-sort_by p key (x ∷ xs) = rw (any-insert_by p key x (sort_by key xs), any-sort_by p key xs)

  All-insert_by :
      (P : A → Type 0) (key : A → ℕ) (x : A) (xs : List A)
      → P x
      → All P xs
      → All P (insert_by key x xs)
  All-insert_by P key x [] px h = (px, tt)
  All-insert_by P key x (y ∷ ys) px (py, h) = elim (Bool-cases (ltb (key y) (key x))) [
    | inl later ↦ rw later (py, All-insert_by P key x ys px h)
    | inr first ↦ rw first (px, (py, h))
  ]

  pub All-sort_by : (P : A → Type 0) (key : A → ℕ) (xs : List A) → All P xs → All P (sort_by key xs)
  All-sort_by P key [] h = tt
  All-sort_by P key (x ∷ xs) (px, h) =
      All-insert_by P key x (sort_by key xs) px (All-sort_by P key xs h)

  pub any-append : (p : A → Bool) (xs ys : List A) → any p (xs ++ ys) ≡ (any p xs || any p ys)
  any-append p [] ys = refl
  any-append p (x ∷ xs) ys = ground (arith, any-append p xs ys)

  pub All-append : (P : A → Type 0) (xs ys : List A) → All P xs → All P ys → All P (xs ++ ys)
  All-append P [] ys h k = k
  All-append P (x ∷ xs) ys (px, h) k = (px, All-append P xs ys h k)

module _ (texts : Texts) {F Payload : Type 0} where
  -- The event has this id, which is not empty.
  abbrev pub names : String → PreparedEvent F Payload → Bool
  names id event = not (str_eq id "") && str_eq event.event_data_id id

  pub contains-event_ids :
      (events : List (PreparedEvent F Payload)) (id : String)
      → contains (event_ids events) id ≡ any (names id) events
  contains-event_ids [] id = refl
  contains-event_ids (event ∷ events) id =
      let rest = contains-event_ids events id in
      elim (Bool-cases (str_eq event.event_data_id id)) [
        | inl same ↦
            let e : str_eq event.event_data_id "" ≡ str_eq id "" =
              ap (λ s. str_eq s "") ((str_eq_iff event.event_data_id id).0 same) in
            ground (arith, rest, e, same)
        | inr other ↦ ground (arith, rest, other)
      ]
