-- ===== src/Prelude/Int.antt =====
-- Signed integers over the native numbers, and Python's floor division.
use Prim.Native.Nat.{ℕ, zero, suc, ◌+◌, ◌-◌, ◌*◌, ◌/◌, ◌≤◌, ◌<◌}
use mathlib.Core.Path.{◌≡◌, refl}
use mathlib.Core.Bool.{Bool}
use mathlib.Core.Option.{Option, none, some}
use native.Mathlib.Omega.{arith}
use az_capa.Prelude.Tests.{ltb, leb, if◌then◌else◌}

-- `negsuc n` is -(n + 1).
pub data ℤ : Type 0 where
  pos : ℕ → ℤ
  negsuc : ℕ → ℤ

abbrev pub pos_part : ℤ → ℕ
pos_part (pos n) = n
pos_part (negsuc n) = 0

abbrev pub neg_part : ℤ → ℕ
neg_part (pos n) = 0
neg_part (negsuc n) = suc n

-- a - b, as an integer.
abbrev pub sub_ℕ : ℕ → ℕ → ℤ
sub_ℕ a b = if leb b a then pos (a - b) else negsuc (b - a - 1)

infixl 65 ◌+ℤ◌ ◌-ℤ◌
infixl 70 ◌*ℤ◌
infix 50 ◌≤ℤ◌ ◌<ℤ◌
unfoldable pub ◌+ℤ◌ : ℤ → ℤ → ℤ
a +ℤ b = sub_ℕ (pos_part a + pos_part b) (neg_part a + neg_part b)

unfoldable pub ◌-ℤ◌ : ℤ → ℤ → ℤ
a -ℤ b = sub_ℕ (pos_part a + neg_part b) (neg_part a + pos_part b)

unfoldable pub ◌*ℤ◌ : ℤ → ℤ → ℤ
a *ℤ b =
    sub_ℕ (pos_part a * pos_part b + neg_part a * neg_part b)
      (pos_part a * neg_part b + neg_part a * pos_part b)

abbrev pub ◌≤ℤ◌ : ℤ → ℤ → Type 0
a ≤ℤ b = pos_part a + neg_part b ≤ pos_part b + neg_part a

abbrev pub ◌<ℤ◌ : ℤ → ℤ → Type 0
a <ℤ b = pos_part a + neg_part b < pos_part b + neg_part a

abbrev pub ltb_ℤ : ℤ → ℤ → Bool
ltb_ℤ a b = ltb (pos_part a + neg_part b) (pos_part b + neg_part a)

abbrev pub leb_ℤ : ℤ → ℤ → Bool
leb_ℤ a b = leb (pos_part a + neg_part b) (pos_part b + neg_part a)

-- One lemma for each operation lets `omega` work with the operations shut, at any depth.
pub +ℤ_parts :
    (a b : ℤ)
    → pos_part (a +ℤ b) + neg_part a + neg_part b ≡ neg_part (a +ℤ b) + pos_part a + pos_part b
unfolding ◌+ℤ◌
+ℤ_parts a b = ground arith

pub -ℤ_parts :
    (a b : ℤ)
    → pos_part (a -ℤ b) + neg_part a + pos_part b ≡ neg_part (a -ℤ b) + pos_part a + neg_part b
unfolding ◌-ℤ◌
-ℤ_parts a b = ground arith

pub ruleset int_laws = (arith, +ℤ_parts, -ℤ_parts)

-- `-(n + 1) // f` is `-(n // f + 1)` for positive `f`.
abbrev floor_pos : ℤ → ℕ → ℤ
floor_pos (pos n) f = pos (n / f)
floor_pos (negsuc n) f = negsuc (n / f)

abbrev negate : ℤ → ℤ
negate a = sub_ℕ (neg_part a) (pos_part a)

-- `a // b`; `none` is ZeroDivisionError.
unfoldable pub floor_div : ℤ → ℤ → Option ℤ
floor_div a (pos zero) = none
floor_div a (pos (suc n)) = some (floor_pos a (suc n))
floor_div a (negsuc n) = some (floor_pos (negate a) (suc n))

pub *ℤ-pos :
    (q : ℤ) (n : ℕ)
    → (pos_part (q *ℤ pos n) ≡ pos_part q * n) × (neg_part (q *ℤ pos n) ≡ neg_part q * n)
unfolding ◌*ℤ◌
*ℤ-pos (pos m) n = ground arith
*ℤ-pos (negsuc m) n = ground arith

-- The quotient by a positive number is the greatest whose product is not above the dividend.
pub floor_div_bounds :
    (a : ℤ) (n : ℕ)
    → (q : ℤ) × (floor_div a (pos (suc n)) ≡ some q)
      × (q *ℤ pos (suc n) ≤ℤ a)
      × (a <ℤ q *ℤ pos (suc n) +ℤ pos (suc n))
unfolding floor_div
floor_div_bounds (pos m) n = (
  pos (m / suc n),
  refl,
  omega (int_laws, *ℤ-pos (pos (m / suc n)) (suc n)),
  omega (int_laws, *ℤ-pos (pos (m / suc n)) (suc n)),
)
floor_div_bounds (negsuc m) n = (
  negsuc (m / suc n),
  refl,
  omega (int_laws, *ℤ-pos (negsuc (m / suc n)) (suc n)),
  omega (int_laws, *ℤ-pos (negsuc (m / suc n)) (suc n)),
)
