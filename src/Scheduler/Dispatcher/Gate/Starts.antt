-- ===== src/Scheduler/Dispatcher/Gate/Starts.antt =====
-- What `start` of services/data_collection/dispatcher.py, the single start point, does on each of
-- its branches.
use az_capa.Prelude.{
  ℕ, ◌+◌, String, ◌≡◌, ◌⊎◌, refl, ap, ◌∙◌, Bool, true, false, not, ◌&&◌, none, some, ◌∷◌, arith,
  if◌then◌else◌, Bool-cases, Option-cases, inl, inr, str_eq, str_eq_iff,
}
use az_capa.Table.{Key, key, key_eq_refl, row, IsTable}
use az_capa.Scheduler.Registry.{try_get}
use az_capa.Scheduler.Registry.Descriptor.{PipelineDescriptor}
use az_capa.Scheduler.StateStore.{StateRow, merge_state, state_key, claim_columns, release_claim}
use az_capa.Scheduler.StateStore.Rows.{
  is_busy, is_busy-clear_active, row_or_empty, try_claim_cases, row-set_active_instance,
}
use az_capa.Scheduler.HistoryStore.{merge_history, open_columns, inverted_row_key, open_row}
use az_capa.Scheduler.Dispatcher.Effects.{
  entity_exists, unknown_pipeline, unsupported_flush, no_orchestrator, Result, returned, raised,
  Env, World, Result-cases, and_then,
}
use az_capa.Scheduler.Dispatcher.Config.{effective_config}
use az_capa.Scheduler.Dispatcher.Config.Edits.{config_now}
use az_capa.Scheduler.Dispatcher.Gate.{
  started, busy, disabled, StartResult, refresh, flush, scheduled, launch, start_orchestrator,
  start, scope_busy, answer, orchestrator_for,
}
use az_capa.Scheduler.Dispatcher.Gate.Answers.{state_row, scope_busy-Framed, Framed}

module _ (env : Env) (d : PipelineDescriptor) (orchestrator action trigger : String) where
  -- One launch, and the run is on record: the pipeline's row holds the instance, and the history a
  -- running row of it.
  pub record IsStarted (w w' : World env) (r : StartResult) : Type 0 where
    pub status : r.status ≡ started
    pub id : String
    pub instance_id : r.instance_id ≡ some id
    pub launched : w'.launches ≡ orchestrator ∷ w.launches
    pub entity : StateRow
    pub stored : state_row env d.id w' ≡ some entity
    pub active : entity.active_instance_id ≡ some id
    pub active_action : entity.active_action ≡ some action
    pub at : ℕ
    pub dispatched : entity.last_dispatched_at ≡ some at
    pub history_key : Key
    pub opened :
        row env.histories history_key w'.history ≡ some (open_columns d.id action trigger at id)

  abbrev pub FreeOutcome : World env → Result StartResult × World env → Type 0
  FreeOutcome w (returned r, w') = IsStarted w w' r
  FreeOutcome w (raised e, w') =
      ((w'.launches ≡ w.launches) × (is_busy (state_row env d.id w') ≡ false))
      ⊎ ((e ≡ entity_exists) × (w'.launches ≡ orchestrator ∷ w.launches))

  -- The scope was found busy: nothing is claimed or launched.
  pub record IsBusy (w w' : World env) (r : StartResult) : Type 0 where
    pub status : r.status ≡ busy
    pub launched : w'.launches ≡ w.launches
    pub still_busy : is_busy (state_row env d.id w') ≡ true
    pub state : w'.state ≡ w.state

  -- A scheduled refresh of a pipeline that is not enabled: nothing happens at all.
  pub record IsDisabled (w w' : World env) (r : StartResult) : Type 0 where
    pub status : r.status ≡ disabled
    pub unchanged : w' ≡ w
    pub is_refresh : action ≡ refresh
    pub is_scheduled : trigger ≡ scheduled
    pub not_enabled : (config_now env d w).enabled ≡ false

  abbrev pub StartOutcome : World env → Result StartResult × World env → Type 0
  StartOutcome w (returned r, w') = IsStarted w w' r ⊎ (IsBusy w w' r ⊎ IsDisabled w w' r)
  StartOutcome w (raised e, w') =
      ((w'.launches ≡ w.launches)
        × ((w'.state ≡ w.state) ⊎ (is_busy (state_row env d.id w') ≡ false)))
      ⊎ ((e ≡ entity_exists) × (w'.launches ≡ orchestrator ∷ w.launches))

  module _ (laws : IsTable merge_state env.states)
      (history_laws : IsTable merge_history env.histories) where
    opened_row :
        (at : ℕ) (id uuid : String) (h h' : env.histories.Store)
        → open_row env.histories d.id action trigger at id uuid h ≡ some h'
        → row env.histories (key d.id (inverted_row_key at uuid)) h'
          ≡ some (open_columns d.id action trigger at id)
    unfolding open_row
    opened_row at id uuid h h' e =
        let k = key d.id (inverted_row_key at uuid) in
        history_laws.row-create k k (open_columns d.id action trigger at id) h h' e
        ∙ rw (key_eq_refl k)

    launch-FreeOutcome :
        (w : World env)
        → is_busy (state_row env d.id w) ≡ false
        → FreeOutcome w (launch env d orchestrator action trigger w)
    unfolding launch release_claim
    launch-FreeOutcome w free =
        let at = env.clock w.calls in
        let uuid = env.uuid (w.calls + 1) in
        let key_uuid = env.uuid (w.calls + 1 + 1 + 1) in
        elim (try_claim_cases env.states laws d.id d.scope uuid action trigger at w.state) [
          | inl (occupied, _) ↦ absurd (cc)
          | inr (_, s', won, rows) ↦
              elim (Result-cases (env.start_new (w.calls + 1 + 1) orchestrator)) [
                | inl (id, launched) ↦
                    elim (Option-cases
                      (open_row env.histories d.id action trigger at id key_uuid w.history)) [
                        | inl taken ↦ rw (won, launched, taken) (inr (refl, refl))
                        | inr (h', opened) ↦
                            rw (won, launched, opened)
                              (record {
                                status = refl;
                                id = id;
                                instance_id = refl;
                                launched = refl;
                                entity =
                                    record (claim_columns (row_or_empty (state_row env d.id w))
                                      d.scope uuid action trigger at) {
                                        active_instance_id = some id;
                                      };
                                stored =
                                    row-set_active_instance env.states laws d.id id (state_key d.id)
                                      s'
                                    ∙ rw (
                                      key_eq_refl (state_key d.id),
                                      rows (state_key d.id),
                                      key_eq_refl (state_key d.id),
                                    );
                                active = refl;
                                active_action = refl;
                                at = at;
                                dispatched = refl;
                                history_key = key d.id (inverted_row_key at key_uuid);
                                opened = opened_row at id key_uuid w.history h' opened;
                              })
                      ]
                | inr (e, failed) ↦
                    rw (won, failed)
                      (inl (refl, is_busy-clear_active env.states laws d.id none none s'))
              ]
        ]

    from_free :
        (w w₁ : World env) (x : Result StartResult × World env)
        → w₁.launches ≡ w.launches
        → FreeOutcome w₁ x
        → StartOutcome w x
    from_free w w₁ (returned r, w') same s = inl (record {
      status = s.status;
      id = s.id;
      instance_id = s.instance_id;
      launched = s.launched ∙ ap (λ l. orchestrator ∷ l) same;
      entity = s.entity;
      stored = s.stored;
      active = s.active;
      active_action = s.active_action;
      at = s.at;
      dispatched = s.dispatched;
      history_key = s.history_key;
      opened = s.opened;
    })
    from_free w w₁ (raised e, w') same (inl (kept, free)) = inl (kept ∙ same, inr free)
    from_free w w₁ (raised e, w') same (inr (taken, more)) =
        inr (taken, more ∙ ap (λ l. orchestrator ∷ l) same)

    after_gate :
        (w : World env) (x : Result Bool × World env)
        → Framed env d.id w x
        → StartOutcome w (
            and_then
              (λ occupied.
                if occupied then answer env busy none else launch env d orchestrator action trigger)
              x.0
              x.1)
    after_gate w (returned true, w₁) (leaves, occupied, same, _) = inr (
        inl (record {
          status = refl;
          launched = leaves.launches;
          still_busy = occupied;
          state = same;
        }))
    after_gate w (returned false, w₁) (leaves, free) =
        from_free w w₁ (launch env d orchestrator action trigger w₁) leaves.launches
          (launch-FreeOutcome w₁ free)
    after_gate w (raised e, w₁) (leaves, same, _) = inl (leaves.launches, inl same)

    start_orchestrator-StartOutcome :
        (w : World env) → StartOutcome w (start_orchestrator env d orchestrator action trigger w)
    unfolding start_orchestrator effective_config
    start_orchestrator-StartOutcome w =
        let enabled = (config_now env d w).enabled in
        elim (Bool-cases (str_eq action refresh && (str_eq trigger scheduled && not enabled))) [
          | inl off ↦ rw off (
              inr (
                inr (record {
                  status = refl;
                  unchanged = refl;
                  is_refresh = ground (arith, str_eq_iff action refresh);
                  is_scheduled = ground (arith, str_eq_iff trigger scheduled);
                  not_enabled = ground arith;
                })))
          | inr on ↦
              rw on (after_gate w (scope_busy env d.id w) (scope_busy-Framed env laws d.id w))
        ]

abbrev pub StartCases : (env : Env) (id action trigger : String) → World env → Type 0
StartCases env id action trigger w =
    ((try_get id ≡ none) × (start env id action trigger w ≡ (raised unknown_pipeline, w)))
    ⊎ ((d : PipelineDescriptor) × (try_get id ≡ some d)
        × (((action ≡ flush)
              × (d.supports_flush ≡ false)
              × (start env id action trigger w ≡ (raised unsupported_flush, w)))
            ⊎ (((orchestrator_for env d action ≡ none)
                  × (start env id action trigger w ≡ (raised no_orchestrator, w)))
                ⊎ ((orchestrator : String) × (orchestrator_for env d action ≡ some orchestrator)
                    × StartOutcome env d orchestrator action trigger w
                        (start env id action trigger w)))))

-- What `start` does, on every path. An unknown pipeline, a flush of a pipeline that supports none
-- and an action without an orchestrator are errors that change nothing. Otherwise it raises; or
-- it answers that the run was started, and then exactly one run was launched, of the action's
-- orchestrator, which the pipeline's row and a running history row show; or it answers that the
-- scope is busy or the refresh disabled, and then nothing was launched and the row is as before.
-- Where it raises, nothing was launched and either no row of the state table was changed, or the
-- pipeline's row holds no claim; unless the history row's key was taken, when the one run was
-- launched.
pub start_cases :
    (env : Env) (laws : IsTable merge_state env.states)
    (history_laws : IsTable merge_history env.histories) (id action trigger : String)
    (w : World env)
    → StartCases env id action trigger w
unfolding start
start_cases env laws history_laws id action trigger w = elim (Option-cases (try_get id)) [
  | inl unknown ↦ inl (unknown, rw unknown)
  | inr (d, known) ↦ inr (
    d,
    known,
    elim (Bool-cases (str_eq action flush && not d.supports_flush)) [
      | inl no_flush ↦
          inl (ground (arith, str_eq_iff action flush), ground arith, rw (known, no_flush))
      | inr allowed ↦ elim (Option-cases (orchestrator_for env d action)) [
        | inl missing ↦ inr (inl (missing, rw (known, allowed, missing)))
        | inr (orchestrator, chosen) ↦ inr (
            inr (
              orchestrator,
              chosen,
              rw (known, allowed, chosen)
                  (start_orchestrator-StartOutcome env d orchestrator action trigger laws
                    history_laws w),
            ))
      ]
    ],
  )
]
