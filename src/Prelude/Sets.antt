-- ===== src/Prelude/Sets.antt =====
-- `sorted(set(…))` on texts, for an order of texts: insertion that keeps one of equal texts; and
-- `split` at a character.
use Prim.Native.Nat.{ℕ}
use Prim.Native.Char.{Char, code}
use Prim.Native.String.{String}
use mathlib.Core.Path.{◌≡◌, refl, ap}
use mathlib.Core.Bool.{Bool, true, false, not, ◌||◌, ◌&&◌}
use mathlib.Core.Logic.{inl, inr}
use mathlib.Core.List.{List, [], ◌∷◌, ◌++◌}
use native.Mathlib.Omega.{arith}
use az_capa.Prelude.Tests.{if◌then◌else◌, ◌==◌, Bool-cases}
use az_capa.Prelude.Text.{str_eq, str_eq_iff, contains}

pub contains-append :
    (xs ys : List String) (s : String) → contains (xs ++ ys) s ≡ (contains xs s || contains ys s)
contains-append [] ys s = refl
contains-append (x ∷ xs) ys s = ground (arith, contains-append xs ys s)

pub or-left : (a b : Bool) → a ≡ true → (a || b) ≡ true
or-left a b h = ground arith

pub or-right : (a b : Bool) → b ≡ true → (a || b) ≡ true
or-right a b h = ground arith

or_same : (a b : Bool) → (a || b) ≡ (a || (a || b))
or_same a b = ground arith

or_swap : (a b c : Bool) → (a || (b || c)) ≡ (b || (a || c))
or_swap a b c = ground arith

pub or_false : (a : Bool) → (a || false) ≡ a
or_false a = ground arith

pub false_and : (a : Bool) → (a && false) ≡ false
false_and a = ground arith

abbrev pub filter : (String → Bool) → List String → List String
filter p [] = []
filter p (x ∷ xs) = if p x then x ∷ filter p xs else filter p xs

-- What a filter keeps of a list, for a test that reads the text.
pub contains-filter :
    (p : String → Bool) (xs : List String) (s : String)
    → contains (filter p xs) s ≡ (contains xs s && p s)
contains-filter p [] s = refl
contains-filter p (x ∷ xs) s = elim (Bool-cases (str_eq x s)) [
  | inl same ↦
      let e : p x ≡ p s = ap p ((str_eq_iff x s).0 same) in
      elim (Bool-cases (p s)) [
        | inl holds ↦ rw (e, holds, same)
        | inr fails ↦ rw (e, fails, same, contains-filter p xs s, fails) (false_and (contains xs s))
      ]
  | inr other ↦ elim (Bool-cases (p x)) [
    | inl holds ↦ rw (holds, other, contains-filter p xs s)
    | inr fails ↦ rw (fails, other, contains-filter p xs s)
  ]
]

module _ (less : String → String → Bool) where
  abbrev pub insert_unique : String → List String → List String
  insert_unique s [] = s ∷ []
  insert_unique s (x ∷ xs) =
      let rest = insert_unique s xs in
      if str_eq s x then x ∷ xs else if less s x then s ∷ (x ∷ xs) else x ∷ rest

  abbrev pub sorted_set : List String → List String
  sorted_set [] = []
  sorted_set (x ∷ xs) = insert_unique x (sorted_set xs)

  contains-insert_unique :
      (s t : String) (xs : List String)
      → contains (insert_unique s xs) t ≡ (str_eq s t || contains xs t)
  contains-insert_unique s t [] = refl
  contains-insert_unique s t (x ∷ xs) = elim (Bool-cases (str_eq s x)) [
    | inl same ↦
        let e : str_eq s t ≡ str_eq x t = ap (λ z. str_eq z t) ((str_eq_iff s x).0 same) in
        rw (same, e) (or_same (str_eq x t) (contains xs t))
    | inr other ↦ elim (Bool-cases (less s x)) [
      | inl first ↦ rw (other, first)
      | inr later ↦
          rw (other, later, contains-insert_unique s t xs)
            (or_swap (str_eq x t) (str_eq s t) (contains xs t))
    ]
  ]

  pub contains-sorted_set :
      (t : String) (xs : List String) → contains (sorted_set xs) t ≡ contains xs t
  contains-sorted_set t [] = refl
  contains-sorted_set t (x ∷ xs) =
      rw (contains-insert_unique x t (sorted_set xs), contains-sorted_set t xs)

abbrev pub distinct : List String → Bool
distinct [] = true
distinct (x ∷ xs) = not (contains xs x) && distinct xs

abbrev push_head : Char → List String → List String
push_head c [] = String.◌∷◌ c String.[] ∷ []
push_head c (w ∷ ws) = String.◌∷◌ c w ∷ ws

-- `s.split(c)` for the character of a code
abbrev pub split_at : ℕ → String → List String
split_at c String.[] = "" ∷ []
split_at c (String.◌∷◌ d s) =
    let rest = split_at c s in if code d == c then "" ∷ rest else push_head d rest

-- `s.split(c, 1)[0]`
abbrev pub before : ℕ → String → String
before c String.[] = ""
before c (String.◌∷◌ d s) = let rest = before c s in if code d == c then "" else String.◌∷◌ d rest
