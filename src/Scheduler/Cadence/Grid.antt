-- ===== src/Scheduler/Cadence/Grid.antt =====
-- The slots of services/data_collection/cadence.py form a fixed grid, and a pipeline is due once
-- in each of them.
use mathlib.Core.Path.{subst}
use az_capa.Prelude.{
  ℕ, suc, ◌+◌, ◌*◌, ◌≤◌, ◌<◌, ◌≡◌, refl, ◌↔◌, ◌⊎◌, inl, inr, true, false, Option, none, some, arith,
  ltb-cases, ltb→lt, some_inj, lt→ltb, ap, sym, ◌∙◌, zero,
}
use az_capa.Prelude.Int.{
  ℤ, pos, negsuc, pos_part, neg_part, ◌+ℤ◌, ◌-ℤ◌, ◌*ℤ◌, ◌≤ℤ◌, ◌<ℤ◌, int_laws, *ℤ-pos,
  floor_div_bounds,
}
use az_capa.Scheduler.Cadence.{second, whole_seconds, slot_start_epoch, is_due, before_slot}

-- The slot that a moment falls in: a point of the grid that starts at the anchor.
pub record IsSlot (now : ℕ) (anchor : ℤ) (frequency : ℕ) (slot : ℤ) : Type 0 where
  pub index : ℤ
  pub on_grid : slot ≡ index *ℤ pos frequency +ℤ anchor
  pub started : slot ≤ℤ pos (whole_seconds now)
  pub not_over : pos (whole_seconds now) <ℤ slot +ℤ pos frequency

-- For a positive frequency the code computes a slot: it does not raise, the slot's start lies on
-- the grid of the anchor, and the moment lies in the slot, from its start to before the next one.
pub slot_start_epoch-IsSlot :
    (now : ℕ) (anchor : ℤ) (n : ℕ)
    → (slot : ℤ) × (slot_start_epoch now anchor (pos (suc n)) ≡ some slot)
      × IsSlot now anchor (suc n) slot
unfolding slot_start_epoch
slot_start_epoch-IsSlot now anchor n =
    let now_ts : ℤ = pos (whole_seconds now) in
    let (q, computed, low, high) = floor_div_bounds (now_ts -ℤ anchor) n in
    (
      q *ℤ pos (suc n) +ℤ anchor,
      rw computed,
      record { index = q; on_grid = refl; started = omega int_laws; not_over = omega int_laws },
    )

multiple_gap : (a b f : ℕ) → a * f < b * f → a * f + f ≤ b * f
multiple_gap a b f h = elim (ltb-cases a b) [
  | inl (_, lt) ↦ grind arith
  | inr (_, le) ↦ absurd (grind arith)
]

-- Grid points of one anchor that differ are at least a frequency apart.
grid_gap : (i j : ℤ) (f : ℕ) → i *ℤ pos f <ℤ j *ℤ pos f → i *ℤ pos f +ℤ pos f ≤ℤ j *ℤ pos f
grid_gap i j f h = omega (
  int_laws,
  *ℤ-pos i f,
  *ℤ-pos j f,
  multiple_gap (pos_part i + neg_part j) (pos_part j + neg_part i) f
      (omega (arith, *ℤ-pos i f, *ℤ-pos j f)),
)

before_slot_iff :
    (last : ℕ) (slot : ℤ) → (before_slot last slot ≡ true) ↔ (pos (whole_seconds last) <ℤ slot)
before_slot_iff last slot = (
  λ h. omega (*ℤ-pos slot second, arith, ltb→lt _ _ h),
  λ h. lt→ltb _ _ (omega (arith, *ℤ-pos slot second)),
)

module _ (now last : ℕ) (anchor : ℤ) (n : ℕ) {slot_now slot_last : ℤ}
    (at_now : IsSlot now anchor (suc n) slot_now)
    (at_last : IsSlot last anchor (suc n) slot_last) where
  -- Within one grid a moment is before a slot exactly if its own slot is.
  earlier_slot_iff : (pos (whole_seconds last) <ℤ slot_now) ↔ (slot_last <ℤ slot_now)
  earlier_slot_iff = (
    λ h. omega (arith, at_last.started),
    λ h.
        let p = at_last.on_grid in
        let q = at_now.on_grid in
        omega (
          int_laws,
          ap pos_part p,
          ap neg_part p,
          ap pos_part q,
          ap neg_part q,
          at_last.not_over,
          grid_gap at_last.index at_now.index (suc n)
              (omega (int_laws, ap pos_part p, ap neg_part p, ap pos_part q, ap neg_part q)),
        ),
  )

IsSlot-of_computed :
    (now : ℕ) (anchor : ℤ) (n : ℕ) {slot : ℤ}
    → slot_start_epoch now anchor (pos (suc n)) ≡ some slot
    → IsSlot now anchor (suc n) slot
IsSlot-of_computed now anchor n {slot} e =
    let (slot', computed, is_slot) = slot_start_epoch-IsSlot now anchor n in
    subst (IsSlot now anchor (suc n)) (some_inj (sym computed ∙ e)) is_slot

is_due-eq-before_slot :
    (now last : ℕ) (anchor : ℤ) (n : ℕ) {slot : ℤ}
    → slot_start_epoch now anchor (pos (suc n)) ≡ some slot
    → is_due now (some last) anchor (pos (suc n)) ≡ some (before_slot last slot)
unfolding is_due
is_due-eq-before_slot now last anchor n e = rw e (ground arith)

-- With a positive frequency a pipeline that was dispatched before is due exactly if the slot of
-- its last dispatch starts before the slot of this moment. So it is due once in a slot, however
-- late in its slot a dispatch was.
pub is_due_once_per_slot :
    (now last : ℕ) (anchor : ℤ) (n : ℕ) (slot_now slot_last : ℤ)
    → slot_start_epoch now anchor (pos (suc n)) ≡ some slot_now
    → slot_start_epoch last anchor (pos (suc n)) ≡ some slot_last
    → (is_due now (some last) anchor (pos (suc n)) ≡ some true) ↔ (slot_last <ℤ slot_now)
is_due_once_per_slot now last anchor n slot_now slot_last e_now e_last =
    let computed = is_due-eq-before_slot now last anchor n e_now in
    let iff =
      earlier_slot_iff now last anchor n (IsSlot-of_computed now anchor n e_now)
        (IsSlot-of_computed last anchor n e_last) in
    (
      λ due. iff.0 ((before_slot_iff last slot_now).0 (some_inj (sym computed ∙ due))),
      λ earlier. computed ∙ ap some ((before_slot_iff last slot_now).1 (iff.1 earlier)),
    )

-- `is_due` returns for every input, and never divides by zero: with a frequency that is not
-- positive the answer is no; with a positive one it is yes for a pipeline that was never
-- dispatched, and else whether the last dispatch lies before the start of the slot of this moment.
pub is_due_cases :
    (now : ℕ) (last : Option ℕ) (anchor frequency : ℤ)
    → ((frequency ≤ℤ pos 0) × (is_due now last anchor frequency ≡ some false))
      ⊎ (((pos 0 <ℤ frequency) × (last ≡ none) × (is_due now last anchor frequency ≡ some true))
          ⊎ ((pos 0 <ℤ frequency)
              × (moment : ℕ) × (slot : ℤ) × (last ≡ some moment)
              × (slot_start_epoch now anchor frequency ≡ some slot)
              × (is_due now last anchor frequency ≡ some (before_slot moment slot))))
unfolding is_due
is_due_cases now last anchor (pos zero) = inl (omega arith, refl)
is_due_cases now last anchor (negsuc n) = inl (omega arith, ground arith)
is_due_cases now none anchor (pos (suc n)) = inr (inl (omega arith, refl, ground arith))
is_due_cases now (some last) anchor (pos (suc n)) =
    let (slot, computed, _) = slot_start_epoch-IsSlot now anchor n in
    inr (
      inr
        (omega arith, last, slot, refl, computed, is_due-eq-before_slot now last anchor n computed))
