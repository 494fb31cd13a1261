-- ===== src/Scheduler/Cadence/Tests.antt =====
-- Runs of services/data_collection/cadence.py at concrete moments, and its theorems at them.
use az_capa.Prelude.{◌≡◌, refl, ◌↔◌, some, true, ◌*◌}
use az_capa.Prelude.Int.{ℤ, pos, negsuc, ◌<ℤ◌, ◌+ℤ◌, ◌-ℤ◌, ◌*ℤ◌, floor_div}
use az_capa.Scheduler.Cadence.{second, slot_start_epoch, is_due}
use az_capa.Scheduler.Cadence.Grid.{IsSlot, slot_start_epoch-IsSlot, is_due_once_per_slot}

-- Hourly slots anchored at 06:30: 10:00 lies in the slot of 09:30.
slot_of_morning : slot_start_epoch (36000 * second) (pos 23400) (pos 3600) ≡ some (pos 34200)
unfolding slot_start_epoch floor_div ◌+ℤ◌ ◌-ℤ◌ ◌*ℤ◌
slot_of_morning = refl

slot_before_anchor : slot_start_epoch 0 (pos 23400) (pos 86400) ≡ some (negsuc 62999)
unfolding slot_start_epoch floor_div ◌+ℤ◌ ◌-ℤ◌ ◌*ℤ◌
slot_before_anchor = refl

slot_of_night : slot_start_epoch (34199 * second) (pos 23400) (pos 3600) ≡ some (pos 30600)
unfolding slot_start_epoch floor_div ◌+ℤ◌ ◌-ℤ◌ ◌*ℤ◌
slot_of_night = refl

slot_start_epoch-IsSlot_example :
    (slot : ℤ) × (slot_start_epoch (36000 * second) (pos 23400) (pos 3600) ≡ some slot)
    × IsSlot (36000 * second) (pos 23400) 3600 slot
slot_start_epoch-IsSlot_example = slot_start_epoch-IsSlot (36000 * second) (pos 23400) 3599

is_due_once_per_slot_example :
    (is_due (36000 * second) (some (34199 * second)) (pos 23400) (pos 3600) ≡ some true)
    ↔ (pos 30600 <ℤ pos 34200)
is_due_once_per_slot_example =
    is_due_once_per_slot (36000 * second) (34199 * second) (pos 23400) 3599 (pos 34200) (pos 30600)
      slot_of_morning slot_of_night
