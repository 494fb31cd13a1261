-- ===== src/Scheduler/StateStore/Rows.antt =====
-- What each operation of storage/scheduler_state_store.py does to every row of its table.
use az_capa.Prelude.{
  ℕ, String, ◌≡◌, ◌⊎◌, refl, ap, Bool, true, false, Option, none, some, arith, truthy,
  if◌then◌else◌, Option-cases, inl, inr, Bool-cases,
}
use az_capa.Table.{Key, key_eq, key_eq_iff, key_eq_refl, Table, row, entity_of, IsTable, merged}
use az_capa.Scheduler.StateStore.{
  StateRow, empty_row, merge_state, state_key, cleared, Claim, claimed, refused, claim_columns,
  claim_read, try_claim, set_active_instance, clear_active, close_run,
}

-- `{…} or {}`: the columns that a claim starts from.
abbrev pub row_or_empty : Option StateRow → StateRow
row_or_empty none = empty_row
row_or_empty (some e) = e

abbrev pub is_busy : Option StateRow → Bool
is_busy none = false
is_busy (some e) = truthy e.active_instance_id

abbrev pub cleared_row : Option String → Option ℕ → Option StateRow → Option StateRow
cleared_row outcome at none = none
cleared_row outcome at (some e) = some (cleared e outcome at)

module _ (t : Table StateRow) (laws : IsTable merge_state t) where
  pub row-set_active_instance :
      (p id : String) (j : Key) (s : t.Store)
      → row t j (set_active_instance t p id s) ≡ (
          if key_eq (state_key p) j
          then some (
              merged merge_state
                (row t (state_key p) s)
                (record empty_row { active_instance_id = some id }))
          else row t j s)
  unfolding set_active_instance
  row-set_active_instance p id j s = laws.row-merge (state_key p) j _ s

  pub row-clear_active :
      (p : String) (outcome : Option String) (at : Option ℕ) (j : Key) (s : t.Store)
      → row t j (clear_active t p outcome at s) ≡ (
          if key_eq (state_key p) j
          then cleared_row outcome at (row t (state_key p) s)
          else row t j s)
  unfolding clear_active
  row-clear_active p outcome at j s = elim (Option-cases (row t (state_key p) s)) [
    | inl absent ↦ ground (arith, key_eq_iff (state_key p) j)
    | inr (e, present) ↦
        rw (present, clear_active) (laws.row-replace (state_key p) j (cleared e outcome at) s)
  ]

  is_busy-cleared_row :
      (outcome : Option String) (at : Option ℕ) (r : Option StateRow)
      → is_busy (cleared_row outcome at r) ≡ false
  is_busy-cleared_row outcome at none = refl
  is_busy-cleared_row outcome at (some e) = refl

  pub is_busy-clear_active :
      (p : String) (outcome : Option String) (at : Option ℕ) (s : t.Store)
      → is_busy (row t (state_key p) (clear_active t p outcome at s)) ≡ false
  is_busy-clear_active p outcome at s =
      rw (row-clear_active p outcome at (state_key p) s, key_eq_refl (state_key p))
        (is_busy-cleared_row outcome at (row t (state_key p) s))

  module _ (p scope uuid action trigger : String) (at : ℕ) (s : t.Store) where
    -- The row of the pipeline after a claim, and the others as they were.
    abbrev pub Claims : Option StateRow → t.Store → Type 0
    Claims r s' =
        (j : Key)
        → row t j s' ≡ (
            if key_eq (state_key p) j
            then some (claim_columns (row_or_empty r) scope uuid action trigger at)
            else row t j s)

    abbrev pub Answers : Option StateRow → Claim t.Store → Type 0
    Answers r answer =
        ((is_busy r ≡ true) × (answer ≡ refused))
        ⊎ ((is_busy r ≡ false) × (s' : t.Store) × (answer ≡ claimed s') × Claims r s')

    claim_read_cases :
        (o : Option (StateRow × ℕ))
        → t.get_entity (state_key p) s ≡ o
        → Answers (entity_of o) (claim_read t p scope uuid action trigger at o s)
    unfolding claim_read
    claim_read_cases none absent =
        let new = claim_columns empty_row scope uuid action trigger at in
        let (s', made) = laws.create_new (state_key p) new s (ap entity_of absent) in
        inr (refl, s', rw made, λ j. laws.row-create (state_key p) j new s s' made)
    claim_read_cases (some (e, tag)) present = elim (Bool-cases (truthy e.active_instance_id)) [
      | inl busy ↦ inl (busy, rw busy)
      | inr idle ↦
          let new = claim_columns e scope uuid action trigger at in
          let (s', written) = laws.update_ready (state_key p) new s present in
          inr (
            idle,
            s',
            rw (idle, written),
            λ j. laws.row-update (state_key p) j new tag s s' written,
          )
    ]

    -- A claim is refused exactly when the row is busy. Otherwise it is won: the row then holds the
    -- placeholder, the action, the trigger and the moment, and the other rows stay.
    pub try_claim_cases :
        Answers (row t (state_key p) s) (try_claim t p scope uuid action trigger at s)
    unfolding try_claim
    try_claim_cases = claim_read_cases (t.get_entity (state_key p) s) refl

  -- Closing a run frees the scope whichever instance holds it, also one that was claimed since: the
  -- next claim is won.
  pub close_run-try_claim :
      (p outcome scope uuid action trigger : String) (done at : ℕ) (s : t.Store)
      → (s' : t.Store) × (try_claim t p scope uuid action trigger at (close_run t p outcome done s)
          ≡ claimed s')
  unfolding close_run
  close_run-try_claim p outcome scope uuid action trigger done at s =
      let closed = close_run t p outcome done s in
      elim (try_claim_cases p scope uuid action trigger at closed) [
        | inl (busy, _) ↦ cc (is_busy-clear_active p (some outcome) (some done) s)
        | inr (_, s', won, _) ↦ (s', won)
      ]
