-- ===== src/Scheduler/ConfigStore/Editors.antt =====
-- Callers of `patch` (storage/scheduler_config_store.py) that edit one pipeline at the same time and
-- expect the same revision: each reads the row, and later writes with what it has read, in any
-- interleaving.
use mathlib.Core.Path.{subst}
use az_capa.Prelude.{
  ◌≢◌, ◌+◌, ℕ, ◌≤◌, ◌<◌, String, ◌≡◌, refl, sym, ap, ◌∙◌, true, false, Option, none, some, get_or,
  arith, ◌==◌, if◌then◌else◌, some_inj, Option-cases, inl, inr, Bool-cases,
}
use az_capa.Json.{Runtime}
use az_capa.Table.{Key, key_eq_refl, updated, Table, row, entity_of, IsTable}
use az_capa.Scheduler.ConfigStore.{
  ConfigRow, Config, Edit, replace_config, config_key, build_entity, names_revision, is_stale,
  patched, conflict, raised, patch_read,
}
use az_capa.Scheduler.ConfigStore.Revisions.{fits, fits-next_revision}

module _ (rt : Runtime) (t : Table ConfigRow) (p : String) (expected : Option ℕ) where
  pub data Turn : Type 0 where
    idle : Turn
    has_read : Option (ConfigRow × ℕ) → Turn
    stored : Edit rt.Float → Turn
    ended : Turn

  abbrev pub set_turn : ℕ → Turn → (ℕ → Turn) → ℕ → Turn
  set_turn i p f j = if i == j then p else f j

  pub record Editors : Type 0 where
    pub store : t.Store
    pub turn : ℕ → Turn

  abbrev pub held : Editors → Option (ConfigRow × ℕ)
  held sys = t.get_entity (config_key p) sys.store

  -- One atomic call of one caller: its read, or its write with what it has read.
  pub data EditStep (sys : Editors) : Editors → Type 0 where
    look :
        (i : ℕ)
        → sys.turn i ≡ idle
        → EditStep sys (record sys { turn = set_turn i (has_read (held sys)) sys.turn })
    write :
        (i : ℕ) (o : Option (ConfigRow × ℕ)) (edit : Edit rt.Float) (s' : t.Store)
        (config : Config rt.Float)
        → sys.turn i ≡ has_read o
        → patch_read rt t p edit expected o sys.store ≡ patched s' config
        → EditStep sys (record { store = s'; turn = set_turn i (stored edit) sys.turn })
    give_way :
        (i : ℕ) (o : Option (ConfigRow × ℕ)) (edit : Edit rt.Float)
        → sys.turn i ≡ has_read o
        → patch_read rt t p edit expected o sys.store ≡ conflict
        → EditStep sys (record sys { turn = set_turn i ended sys.turn })
    break_off :
        (i : ℕ) (o : Option (ConfigRow × ℕ)) (edit : Edit rt.Float) (code : ℕ)
        → sys.turn i ≡ has_read o
        → patch_read rt t p edit expected o sys.store ≡ raised code
        → EditStep sys (record sys { turn = set_turn i ended sys.turn })

  pub data Edited (start : Editors) : Editors → Type 0 where
    begun : Edited start start
    after : {sys sys' : Editors} → Edited start sys → EditStep sys sys' → Edited start sys'

  -- The row has the edit, under a revision that no caller expects any more.
  abbrev Settled : Editors → Edit rt.Float → Type 0
  Settled sys edit =
      (revision : ℕ) × (tag : ℕ) × (held sys ≡ some (build_entity rt edit revision, tag))
      × (fits expected (some (build_entity rt edit revision)) ≡ false)

  -- What a caller has read is an earlier version of the row, or the row as it is.
  abbrev Seen : Editors → ConfigRow → ℕ → Type 0
  Seen sys e tag =
      (e' : ConfigRow) × (tag' : ℕ) × (held sys ≡ some (e', tag'))
      × (tag ≤ tag')
      × (tag ≡ tag' → e ≡ e')

  record IsSafe (sys : Editors) : Type 0 where
    unique : (i j : ℕ) (a b : Edit rt.Float) → sys.turn i ≡ stored a → sys.turn j ≡ stored b → i ≡ j
    settled : (i : ℕ) (a : Edit rt.Float) → sys.turn i ≡ stored a → Settled sys a
    seen :
        (i : ℕ) (e : ConfigRow) (tag : ℕ) → sys.turn i ≡ has_read (some (e, tag)) → Seen sys e tag

  stored_inj : {a b : Edit rt.Float} → stored a ≡ stored b → a ≡ b
  stored_inj h = cc

  entry_inj :
      {a b : ConfigRow} {m n : ℕ}
      → ◌≡◌ {A = Option (ConfigRow × ℕ)} (some (a, m)) (some (b, n))
      → (a ≡ b) × (m ≡ n)
  entry_inj h =
      (ap (λ (x : ConfigRow × ℕ). x.0) (some_inj h), ap (λ (x : ConfigRow × ℕ). x.1) (some_inj h))

  module _ (laws : IsTable replace_config t) where
    look-IsSafe :
        (sys : Editors) (i : ℕ)
        → IsSafe sys
        → IsSafe (record sys { turn = set_turn i (has_read (held sys)) sys.turn })
    look-IsSafe sys i inv = record {
      unique = λ j k a b p q. inv.unique j k a b (ground arith) (ground arith);
      settled = λ j a p. inv.settled j a (ground arith);
      seen = λ j e tag p. elim (Bool-cases (i == j)) [
        | inl same ↦ (e, tag, ground arith, ground arith, λ _. refl)
        | inr other ↦ inv.seen j e tag (ground arith)
      ];
    }

    ended-IsSafe :
        (sys : Editors) (i : ℕ)
        → IsSafe sys
        → IsSafe (record sys { turn = set_turn i ended sys.turn })
    ended-IsSafe sys i inv = record {
      unique = λ j k a b p q. inv.unique j k a b (ground arith) (ground arith);
      settled = λ j a p. inv.settled j a (ground arith);
      seen = λ j e tag p. inv.seen j e tag (ground arith);
    }

    get_of_row :
        (k : Key) (s : t.Store) {e : ConfigRow}
        → row t k s ≡ some e
        → (tag : ℕ) × (t.get_entity k s ≡ some (e, tag))
    get_of_row k s h = elim (Option-cases (t.get_entity k s)) [
      | inl absent ↦ absurd (ground arith)
      | inr ((e, tag), present) ↦ (tag, ground arith)
    ]

    abbrev Fresh : Editors → Type 0
    Fresh sys = (i : ℕ) (a : Edit rt.Float) → sys.turn i ≢ stored a

    abbrev Written : Editors → Edit rt.Float → t.Store → Type 0
    Written sys edit s' =
        (revision : ℕ) × (tag : ℕ) × (t.get_entity (config_key p) s'
          ≡ some (build_entity rt edit revision, tag))
        × (fits expected (some (build_entity rt edit revision)) ≡ false)
        × ((e' : ConfigRow) (tag' : ℕ) → held sys ≡ some (e', tag') → tag' < tag)

    -- A write that is stored found no caller stored before it.
    patch_read-patched :
        (sys : Editors) (i : ℕ) (o : Option (ConfigRow × ℕ)) (edit : Edit rt.Float) (s' : t.Store)
        (config : Config rt.Float)
        → IsSafe sys
        → sys.turn i ≡ has_read o
        → patch_read rt t p edit expected o sys.store ≡ patched s' config
        → Fresh sys × Written sys edit s'
    unfolding patch_read
    patch_read-patched sys i none edit s' config inv turn h =
        let new = build_entity rt edit 1 in
        let unnamed : names_revision expected ≡ false = ground arith in
        let made : t.create_entity (config_key p) new sys.store ≡ some s' = ground arith in
        let absent : row t (config_key p) sys.store ≡ none =
          elim (Option-cases (row t (config_key p) sys.store)) [
            | inl absent ↦ absent
            | inr (e, present) ↦ absurd (cc (laws.create_exists _ new _ present))
          ] in
        let (tag, now) = get_of_row (config_key p) s' (
          laws.row-create (config_key p) (config_key p) new _ s' made
          ∙ rw (key_eq_refl (config_key p))) in
        (
          λ j a pj.
              let (revision, atag, is_held, _) = inv.settled j a pj in
              cc (absent, ap entity_of is_held),
          (
            1,
            tag,
            now,
            fits-next_revision rt t laws expected edit none (rw unnamed),
            λ e' tag' is_held. absurd (cc (absent, ap entity_of is_held)),
          ),
        )
    patch_read-patched sys i (some (e, tag)) edit s' config inv turn h =
        let revision = get_or e.revision 0 in
        let new = build_entity rt edit (revision + 1) in
        let current : is_stale expected revision ≡ false = ground arith in
        let written : t.update_entity (config_key p) new tag sys.store ≡ updated s' =
          ground arith in
        let (old, tag', was, now, later) = laws.update_matched _ new tag _ s' written in
        let (e', tag'', known, _, same) = inv.seen i e tag turn in
        let (_, tags) = entry_inj (sym was ∙ known) in
        (
          λ j a pj.
              let (arev, atag, is_held, unfit) = inv.settled j a pj in
              let (eq, _) = entry_inj (sym known ∙ is_held) in
              let is_new = ap (λ r. fits expected (some r)) (same tags ∙ eq) in
              let fit : fits expected (some e) ≡ true = rw current in cc (sym fit ∙ is_new ∙ unfit),
          (
            revision + 1,
            tag',
            now,
            fits-next_revision rt t laws expected edit (some e) (rw current),
            λ b btag now_b. let (_, eq) = entry_inj (sym was ∙ now_b) in omega arith,
          ),
        )

    step-IsSafe : {sys sys' : Editors} → EditStep sys sys' → IsSafe sys → IsSafe sys'
    step-IsSafe {sys} (look i turn) inv = look-IsSafe sys i inv
    step-IsSafe {sys} (write i o edit s' config turn h) inv =
        let (none_before, (revision, tag, now, unfit, later)) =
          patch_read-patched sys i o edit s' config inv turn h in
        record {
          unique = λ j k a b pj pk. elim (Bool-cases (i == j)) [
            | inl ij ↦ elim (Bool-cases (i == k)) [
              | inl ik ↦ ground arith
              | inr ik ↦ absurd (none_before k b (ground arith))
            ]
            | inr ij ↦ absurd (none_before j a (ground arith))
          ];
          settled = λ j a pj. elim (Bool-cases (i == j)) [
            | inl ij ↦
                let same : edit ≡ a = stored_inj (ground arith) in
                subst
                  (λ b. Settled (record { store = s'; turn = set_turn i (stored edit) sys.turn }) b)
                  same (revision, tag, now, unfit)
            | inr ij ↦ absurd (none_before j a (ground arith))
          ];
          seen = λ j b btag pj.
              let (c, ctag, known, le, _) = inv.seen j b btag (ground arith) in
              let lt = later c ctag known in
              (build_entity rt edit revision, tag, now, omega arith, λ eq. absurd (omega arith));
        }
    step-IsSafe {sys} (give_way i o edit turn h) inv = ended-IsSafe sys i inv
    step-IsSafe {sys} (break_off i o edit code turn h) inv = ended-IsSafe sys i inv

    reach-IsSafe :
        (start : Editors) {sys : Editors}
        → ((i : ℕ) → start.turn i ≡ idle)
        → Edited start sys
        → IsSafe sys
    reach-IsSafe start untouched begun = record {
      unique = λ i j a b p q. absurd (cc (untouched i));
      settled = λ i a p. absurd (cc (untouched i));
      seen = λ i e tag p. absurd (cc (untouched i));
    }
    reach-IsSafe start untouched (after r st) = step-IsSafe st (reach-IsSafe start untouched r)

  -- No update is lost. Any number of callers that all expect the same revision edit one pipeline,
  -- from any table in which none of them has begun, and their reads and writes interleave in any
  -- way, while nothing else writes the row: at most one of them is stored, and the row then has the
  -- values of its edit.
  pub patch_no_lost_update :
      (laws : IsTable replace_config t) (start sys : Editors) (i j : ℕ) (a b : Edit rt.Float)
      → ((k : ℕ) → start.turn k ≡ idle)
      → Edited start sys
      → sys.turn i ≡ stored a
      → sys.turn j ≡ stored b
      → (i ≡ j)
        × (revision : ℕ) × (row t (config_key p) sys.store ≡ some (build_entity rt a revision))
  patch_no_lost_update laws start sys i j a b untouched r at_i at_j =
      let inv = reach-IsSafe laws start untouched r in
      let (revision, tag, now, _) = inv.settled i a at_i in
      (inv.unique i j a b at_i at_j, revision, ap entity_of now)
