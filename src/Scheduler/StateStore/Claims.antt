-- ===== src/Scheduler/StateStore/Claims.antt =====
-- Callers of `try_claim` (storage/scheduler_state_store.py) that run at the same time on one
-- pipeline: each reads the row, and later writes with what it has read, in any interleaving.
use az_capa.Prelude.{
  ℕ, ◌≤◌, ◌<◌, String, ◌≡◌, refl, sym, ap, ◌∙◌, true, false, Option, none, some, arith, truthy,
  ◌==◌, if◌then◌else◌, some_inj, Option-cases, inl, inr, Bool-cases,
}
use az_capa.Table.{Key, key_eq_refl, updated, Table, row, entity_of, IsTable}
use az_capa.Scheduler.StateStore.{
  StateRow, empty_row, merge_state, state_key, claimed, refused, claim_columns, claim_read,
  set_active_instance,
}
use az_capa.Scheduler.StateStore.Placeholder.{placeholder-truthy}

pub data Phase : Type 0 where
  waiting : Phase
  reading : Option (StateRow × ℕ) → Phase
  won : Phase
  lost : Phase

abbrev pub set_phase : ℕ → Phase → (ℕ → Phase) → ℕ → Phase
set_phase i p f j = if i == j then p else f j

module _ (t : Table StateRow) (pipeline_id : String) where
  pub record System : Type 0 where
    pub store : t.Store
    pub phase : ℕ → Phase

  abbrev pub current : System → Option (StateRow × ℕ)
  current sys = t.get_entity (state_key pipeline_id) sys.store

  -- One atomic call of one caller. A winner may replace its placeholder by an instance's id.
  pub data Step (sys : System) : System → Type 0 where
    observe :
        (i : ℕ)
        → sys.phase i ≡ waiting
        → Step sys (record sys { phase = set_phase i (reading (current sys)) sys.phase })
    win :
        (i : ℕ) (o : Option (StateRow × ℕ)) (scope uuid action trigger : String) (at : ℕ)
        (s' : t.Store)
        → sys.phase i ≡ reading o
        → claim_read t pipeline_id scope uuid action trigger at o sys.store ≡ claimed s'
        → Step sys (record { store = s'; phase = set_phase i won sys.phase })
    lose :
        (i : ℕ) (o : Option (StateRow × ℕ)) (scope uuid action trigger : String) (at : ℕ)
        → sys.phase i ≡ reading o
        → claim_read t pipeline_id scope uuid action trigger at o sys.store ≡ refused
        → Step sys (record sys { phase = set_phase i lost sys.phase })
    launch :
        (i : ℕ) (instance_id : String)
        → sys.phase i ≡ won
        → truthy (some instance_id) ≡ true
        → Step sys (record sys { store = set_active_instance t pipeline_id instance_id sys.store })

  pub data Reach (start : System) : System → Type 0 where
    here : Reach start start
    next : {sys sys' : System} → Reach start sys → Step sys sys' → Reach start sys'

  abbrev Busy : System → Type 0
  Busy sys =
      (e : StateRow) × (tag : ℕ) × (current sys ≡ some (e, tag))
      × (truthy e.active_instance_id ≡ true)

  -- What a caller has read is an earlier version of the row, or the row as it is.
  abbrev Seen : System → StateRow → ℕ → Type 0
  Seen sys e tag =
      (e' : StateRow) × (tag' : ℕ) × (current sys ≡ some (e', tag'))
      × (tag ≤ tag')
      × (tag ≡ tag' → e ≡ e')

  record IsExclusive (sys : System) : Type 0 where
    unique : (i j : ℕ) → sys.phase i ≡ won → sys.phase j ≡ won → i ≡ j
    busy : (i : ℕ) → sys.phase i ≡ won → Busy sys
    seen : (i : ℕ) (e : StateRow) (tag : ℕ) → sys.phase i ≡ reading (some (e, tag)) → Seen sys e tag

  module _ (laws : IsTable merge_state t) where
    observe-IsExclusive :
        (sys : System) (i : ℕ)
        → IsExclusive sys
        → IsExclusive (record sys { phase = set_phase i (reading (current sys)) sys.phase })
    observe-IsExclusive sys i inv = record {
      unique = λ j k p q. inv.unique j k (ground arith) (ground arith);
      busy = λ j p. inv.busy j (ground arith);
      seen = λ j e tag p. elim (Bool-cases (i == j)) [
        | inl same ↦ (e, tag, ground arith, ground arith, λ _. refl)
        | inr other ↦ inv.seen j e tag (ground arith)
      ];
    }

    entry_inj :
        {a b : StateRow} {m n : ℕ}
        → ◌≡◌ {A = Option (StateRow × ℕ)} (some (a, m)) (some (b, n))
        → (a ≡ b) × (m ≡ n)
    entry_inj h =
        (ap (λ (x : StateRow × ℕ). x.0) (some_inj h), ap (λ (x : StateRow × ℕ). x.1) (some_inj h))

    abbrev Won : System → t.Store → Type 0
    Won sys s' =
        (e : StateRow) × (tag : ℕ) × (t.get_entity (state_key pipeline_id) s' ≡ some (e, tag))
        × (truthy e.active_instance_id ≡ true)
        × ((e' : StateRow) (tag' : ℕ) → current sys ≡ some (e', tag') → tag' < tag)

    get_of_row :
        (k : Key) (s : t.Store) {e : StateRow}
        → row t k s ≡ some e
        → (tag : ℕ) × (t.get_entity k s ≡ some (e, tag))
    get_of_row k s h = elim (Option-cases (t.get_entity k s)) [
      | inl absent ↦ absurd (ground arith)
      | inr ((e, tag), present) ↦ (tag, ground arith)
    ]

    -- A claim that succeeds found the row idle, and leaves it busy under a later etag.
    claim_read-claimed :
        (sys : System) (i : ℕ) (o : Option (StateRow × ℕ)) (scope uuid action trigger : String)
        (at : ℕ) (s' : t.Store)
        → IsExclusive sys
        → sys.phase i ≡ reading o
        → claim_read t pipeline_id scope uuid action trigger at o sys.store ≡ claimed s'
        → (¬ Busy sys) × Won sys s'
    unfolding claim_read
    claim_read-claimed sys i none scope uuid action trigger at s' inv p h =
        let new = claim_columns empty_row scope uuid action trigger at in
        let made : t.create_entity (state_key pipeline_id) new sys.store ≡ some s' = ground arith in
        let absent : row t (state_key pipeline_id) sys.store ≡ none =
          elim (Option-cases (row t (state_key pipeline_id) sys.store)) [
            | inl absent ↦ absent
            | inr (e, present) ↦ absurd (cc (laws.create_exists _ new _ present))
          ] in
        let (tag, stored) = get_of_row (state_key pipeline_id) s' (
          laws.row-create (state_key pipeline_id) (state_key pipeline_id) new _ s' made
          ∙ rw (key_eq_refl (state_key pipeline_id))) in
        (
          λ (e, tag, now, _). ground (arith, ap entity_of now),
          (
            new,
            tag,
            stored,
            placeholder-truthy uuid,
            λ e' tag' now. absurd (ground (arith, ap entity_of now)),
          ),
        )
    claim_read-claimed sys i (some (e, tag)) scope uuid action trigger at s' inv p h =
        let new = claim_columns e scope uuid action trigger at in
        let idle : truthy e.active_instance_id ≡ false = ground arith in
        let written : t.update_entity (state_key pipeline_id) new tag sys.store ≡ updated s' =
          ground arith in
        let (old, tag', was, now, later) = laws.update_matched _ new tag _ s' written in
        let (e', tag'', known, _, same) = inv.seen i e tag p in
        let (_, tags) = entry_inj (sym was ∙ known) in
        (
          λ (b, btag, now_b, active).
              let (eq, _) = entry_inj (sym known ∙ now_b) in
              cc (ap (λ (r : StateRow). truthy r.active_instance_id) (same tags ∙ eq)),
          (
            new,
            tag',
            now,
            placeholder-truthy uuid,
            λ b btag now_b. let (_, eq) = entry_inj (sym was ∙ now_b) in omega arith,
          ),
        )

    -- The table after a successful write of a caller that becomes, or is, a winner.
    settle-IsExclusive :
        (sys : System) (i : ℕ) (s' : t.Store) (phase : ℕ → Phase)
        → IsExclusive sys
        → Won sys s'
        → ((j k : ℕ) → phase j ≡ won → phase k ≡ won → j ≡ k)
        → ((j : ℕ) (o : Option (StateRow × ℕ)) → phase j ≡ reading o → sys.phase j ≡ reading o)
        → IsExclusive (record { store = s'; phase = phase })
    settle-IsExclusive sys i s' phase inv (e, tag, now, active, later) unique readers = record {
      unique = unique;
      busy = λ j p. (e, tag, now, active);
      seen = λ j b btag p.
          let (c, ctag, known, le, _) = inv.seen j b btag (readers j (some (b, btag)) p) in
          let lt = later c ctag known in (e, tag, now, omega arith, λ eq. absurd (omega arith));
    }

    set_active_instance-Won :
        (sys : System) (i : ℕ) (instance_id : String)
        → IsExclusive sys
        → sys.phase i ≡ won
        → truthy (some instance_id) ≡ true
        → Won sys (set_active_instance t pipeline_id instance_id sys.store)
    unfolding set_active_instance
    set_active_instance-Won sys i instance_id inv p active =
        let (e, tag, now, _) = inv.busy i p in
        let patch = record empty_row { active_instance_id = some instance_id } in
        let (tag', merged, later) = laws.merge_later (state_key pipeline_id) patch sys.store now in
        (
          merge_state e patch,
          tag',
          merged,
          active,
          λ b btag now_b. let (_, eq) = entry_inj (sym now ∙ now_b) in omega arith,
        )

    step-IsExclusive : {sys sys' : System} → Step sys sys' → IsExclusive sys → IsExclusive sys'
    step-IsExclusive {sys} (observe i p) inv = observe-IsExclusive sys i inv
    step-IsExclusive {sys} (win i o scope uuid action trigger at s' p h) inv =
        let (idle, won_by) = claim_read-claimed sys i o scope uuid action trigger at s' inv p h in
        settle-IsExclusive sys i s' _ inv won_by
          (λ j k pj pk. elim (Bool-cases (i == j)) [
            | inl ij ↦ elim (Bool-cases (i == k)) [
              | inl ik ↦ ground arith
              | inr ik ↦ absurd (idle (inv.busy k (ground arith)))
            ]
            | inr ij ↦ absurd (idle (inv.busy j (ground arith)))
          ])
          (λ j o' pj. ground arith)
    step-IsExclusive {sys} (lose i o scope uuid action trigger at p h) inv = record {
      unique = λ j k pj pk. inv.unique j k (ground arith) (ground arith);
      busy = λ j pj. inv.busy j (ground arith);
      seen = λ j e tag pj. inv.seen j e tag (ground arith);
    }
    step-IsExclusive {sys} (launch i instance_id p active) inv =
        settle-IsExclusive sys i _ _ inv (set_active_instance-Won sys i instance_id inv p active)
          inv.unique (λ j o pj. pj)

    reach-IsExclusive :
        (start : System) {sys : System}
        → ((i : ℕ) → start.phase i ≡ waiting)
        → Reach start sys
        → IsExclusive sys
    reach-IsExclusive start fresh here = record {
      unique = λ i j p q. absurd (cc (fresh i));
      busy = λ i p. absurd (cc (fresh i));
      seen = λ i e tag p. absurd (cc (fresh i));
    }
    reach-IsExclusive start fresh (next r st) =
        step-IsExclusive st (reach-IsExclusive start fresh r)

  -- Whatever the interleaving of the callers' reads and writes, from any table in which no caller
  -- has begun, and also once the winner has stored its instance's id: while no run is closed and
  -- no claim released, two callers that have won the claim are the same one, and the row reads busy.
  pub try_claim_exclusive :
      (laws : IsTable merge_state t) (start sys : System) (i j : ℕ)
      → ((k : ℕ) → start.phase k ≡ waiting)
      → Reach start sys
      → sys.phase i ≡ won
      → sys.phase j ≡ won
      → (i ≡ j)
        × (e : StateRow) × (row t (state_key pipeline_id) sys.store ≡ some e)
        × (truthy e.active_instance_id ≡ true)
  try_claim_exclusive laws start sys i j fresh r p q =
      let inv = reach-IsExclusive laws start fresh r in
      let (e, tag, now, active) = inv.busy i p in (inv.unique i j p q, e, ap entity_of now, active)
