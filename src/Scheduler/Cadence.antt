-- ===== src/Scheduler/Cadence.antt =====
-- services/data_collection/cadence.py. A moment is its number of microseconds since the Unix epoch,
-- the resolution of `datetime`; `int(now.timestamp())` is the whole number of seconds.
pub mod Grid
mod Tests
use az_capa.Prelude.{ℕ, ◌/◌, Bool, true, false, Option, none, some, if◌then◌else◌}
use az_capa.Prelude.Int.{ℤ, pos, ltb_ℤ, leb_ℤ, ◌+ℤ◌, ◌-ℤ◌, ◌*ℤ◌, floor_div}

abbrev pub second : ℕ
second = 1000000

abbrev pub whole_seconds : ℕ → ℕ
whole_seconds t = t / second

infixl 5 ◌>>=◌
abbrev ◌>>=◌ : {A B : Type 0} → Option A → (A → Option B) → Option B
none >>= f = none
some a >>= f = f a

-- `none` is the ZeroDivisionError of a frequency of zero.
unfoldable pub slot_start_epoch : (now : ℕ) (anchor_seconds frequency_seconds : ℤ) → Option ℤ
slot_start_epoch now anchor_seconds frequency_seconds = do
  q ← floor_div (pos (whole_seconds now) -ℤ anchor_seconds) frequency_seconds
  some (q *ℤ frequency_seconds +ℤ anchor_seconds)

-- `last_dispatched_at.timestamp() < slot`
abbrev pub before_slot : ℕ → ℤ → Bool
before_slot last slot = ltb_ℤ (pos last) (slot *ℤ pos second)

unfoldable pub is_due :
    (now : ℕ) (last_dispatched_at : Option ℕ) (anchor_seconds frequency_seconds : ℤ) → Option Bool
is_due now last_dispatched_at anchor_seconds frequency_seconds =
    if leb_ℤ frequency_seconds (pos 0) then some false else elim last_dispatched_at [
      | none ↦ some true
      | some last ↦ do
        slot ← slot_start_epoch now anchor_seconds frequency_seconds
        some (before_slot last slot)
    ]
