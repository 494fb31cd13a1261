-- ===== src/Scheduler/ConfigStore/Revisions.antt =====
-- Optimistic concurrency of storage/scheduler_config_store.py.
use az_capa.Prelude.{
  ℕ, ◌+◌, String, ◌≡◌, ◌⊎◌, refl, ap, Bool, true, false, not, Option, none, some, get_or, arith,
  if◌then◌else◌, Bool-cases, inl, inr,
}
use az_capa.Json.{Runtime}
use az_capa.Table.{Key, key_eq, Table, row, entity_of, IsTable}
use az_capa.Scheduler.ConfigStore.{
  ConfigRow, Config, Edit, replace_config, config_key, build_entity, row_to_config, names_revision,
  is_stale, Patched, patched, conflict, patch, patch_read,
}

-- Whether the expected revision fits the row: none or 0 where there is no row.
abbrev pub fits : Option ℕ → Option ConfigRow → Bool
fits expected none = not (names_revision expected)
fits expected (some e) = not (is_stale expected (get_or e.revision 0))

abbrev pub next_revision : Option ConfigRow → ℕ
next_revision none = 1
next_revision (some e) = get_or e.revision 0 + 1

patched_inj : {S C : Type 0} {s s' : S} {c c' : C} → patched s c ≡ patched s' c' → s ≡ s'
patched_inj h = cc

module _ (rt : Runtime) (t : Table ConfigRow) (laws : IsTable replace_config t) where
  module _ (p : String) (edit : Edit rt.Float) (expected : Option ℕ) (s : t.Store) where
    -- The row after an edit that was let through, and the others as they were.
    abbrev pub Writes : Option ConfigRow → t.Store → Type 0
    Writes r s' =
        (j : Key)
        → row t j s' ≡ (
            if key_eq (config_key p) j
            then some (build_entity rt edit (next_revision r))
            else row t j s)

    abbrev pub Answers : Option ConfigRow → Patched t.Store (Config rt.Float) → Type 0
    Answers r answer =
        ((fits expected r ≡ false) × (answer ≡ conflict))
        ⊎ ((fits expected r ≡ true)
            × (s' : t.Store) × (answer
                ≡ patched s' (row_to_config rt p (build_entity rt edit (next_revision r))))
            × Writes r s')

    patch_read_cases :
        (o : Option (ConfigRow × ℕ))
        → t.get_entity (config_key p) s ≡ o
        → Answers (entity_of o) (patch_read rt t p edit expected o s)
    unfolding patch_read
    patch_read_cases none absent = elim (Bool-cases (names_revision expected)) [
      | inl named ↦ inl (rw named, rw named)
      | inr unnamed ↦
          let new = build_entity rt edit 1 in
          let (s', made) = laws.create_new (config_key p) new s (ap entity_of absent) in
          inr (
            rw unnamed,
            s',
            rw (unnamed, made),
            λ j. laws.row-create (config_key p) j new s s' made,
          )
    ]
    patch_read_cases (some (e, tag)) present =
        elim (Bool-cases (is_stale expected (get_or e.revision 0))) [
          | inl stale ↦ inl (rw stale, rw stale)
          | inr current ↦
              let new = build_entity rt edit (get_or e.revision 0 + 1) in
              let (s', written) = laws.update_ready (config_key p) new s present in
              inr (
                rw current,
                s',
                rw (current, written),
                λ j. laws.row-update (config_key p) j new tag s s' written,
              )
        ]

    -- An edit is a conflict exactly when the expected revision does not fit the row. Otherwise the
    -- row holds the edit under the next revision, which the answer shows, and the other rows stay.
    pub patch_cases : Answers (row t (config_key p) s) (patch rt t p edit expected s)
    unfolding patch
    patch_cases = patch_read_cases (t.get_entity (config_key p) s) refl

  pub fits-next_revision :
      (expected : Option ℕ) (edit : Edit rt.Float) (r : Option ConfigRow)
      → fits expected r ≡ true
      → fits expected (some (build_entity rt edit (next_revision r))) ≡ false
  fits-next_revision none edit r h = refl
  fits-next_revision (some n) edit none h = ground arith
  fits-next_revision (some n) edit (some e) h = ground arith
