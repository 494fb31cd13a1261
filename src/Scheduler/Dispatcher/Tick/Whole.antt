-- ===== src/Scheduler/Dispatcher/Tick/Whole.antt =====
-- A whole `tick` of services/data_collection/dispatcher.py: it returns, whatever fails.
use az_capa.Prelude.{
  ℕ, ◌≡◌, refl, ap, ◌∙◌, Option, none, some, List, [], ◌∷◌, All, Bool-cases, inl, inr,
}
use az_capa.Table.{row, IsTable}
use az_capa.Scheduler.Registry.{try_get, all_descriptors}
use az_capa.Scheduler.Registry.Descriptor.{PipelineDescriptor}
use az_capa.Scheduler.StateStore.{StateRow, merge_state}
use az_capa.Scheduler.Dispatcher.Effects.{
  ◌>>=◌, isolated, on_state, next_call, Result, returned, raised, Env, World, and_then,
}
use az_capa.Scheduler.Dispatcher.Tick.{reconcile_all, dispatch_all, maybe_prune, tick}
use az_capa.Scheduler.Dispatcher.Gate.Counts.{Still}
use az_capa.Scheduler.Dispatcher.Tick.Reconcile.{Returns, reconcile_all-Returns}
use az_capa.Scheduler.Dispatcher.Tick.Launches.{
  logged, AreDistinct, Keeps, Registered, Dispatches, ready_from, dispatch_all-Dispatches,
}
use az_capa.Scheduler.HistoryStore
use az_capa.Prelude.{◌-◌, ◌*◌}
use az_capa.Scheduler.StateStore.{marker_key, record_tick, get_marker, list, empty_row}
use az_capa.Table.{merged}
use az_capa.Scheduler.Dispatcher.Tick.{pruned_lately, day}

registered_descriptors : All (λ d. try_get d.id ≡ some d) all_descriptors
unfolding try_get all_descriptors
registered_descriptors = (refl, (refl, (refl, (refl, (refl, (refl, (refl, (refl, tt))))))))

distinct_descriptors : AreDistinct all_descriptors
unfolding all_descriptors
distinct_descriptors = (
  (refl, (refl, (refl, (refl, (refl, (refl, (refl, tt))))))),
  (
    (refl, (refl, (refl, (refl, (refl, (refl, tt)))))),
    (
      (refl, (refl, (refl, (refl, (refl, tt))))),
      (
        (refl, (refl, (refl, (refl, tt)))),
        ((refl, (refl, (refl, tt))), ((refl, (refl, tt)), ((refl, tt), (tt, tt)))),
      ),
    ),
  ),
)

module _ (env : Env) where
  -- The heartbeat: the marker row has the moment of the tick.
  abbrev pub Beats : ℕ → World env → Type 0
  Beats at w =
      (e : StateRow) × (row env.states marker_key w.state ≡ some e) × (e.last_tick_at ≡ some at)

  module _ (laws : IsTable merge_state env.states) where
    Still-Keeps :
        (w w' : World env) (ds : List PipelineDescriptor) → Still env w w' → Keeps env ds w w'
    Still-Keeps w w' [] (_, same, stamps) = (same, tt)
    Still-Keeps w w' (d ∷ ds) (l, same, stamps) =
        (same, (stamps d.id, (Still-Keeps w w' ds (l, same, stamps)).1))

    from_Still :
        (at : ℕ) (ds : List PipelineDescriptor) (w w' : World env)
        (x : Result (Unit {0}) × World env)
        → Still env w w'
        → Dispatches env at ds [] 0 w' x
        → Dispatches env at ds [] 0 w x
    from_Still at ds w w' x still r =
        let keeps = Still-Keeps w w' ds still in
        record {
          returns = r.returns;
          runs = r.runs;
          in_order = r.in_order;
          launched = r.launched ∙ ap (logged r.runs) still.0;
          config = r.config ∙ keeps.0;
          ready = ready_from env at w w' ds r.runs r.in_order keeps r.ready;
          apart = r.apart;
          capped = r.capped;
        }

    last_tick_at-merged :
        (r : Option StateRow) (at : ℕ) (pruned : Option ℕ)
        → (merged merge_state r
            (record empty_row { last_tick_at = some at; last_pruned_at = pruned })).last_tick_at
          ≡ some at
    last_tick_at-merged none at pruned = refl
    last_tick_at-merged (some e) at pruned = refl

    record_tick-Beats :
        (at : ℕ) (pruned : Option ℕ) (w : World env)
        → Beats at (record w { state = record_tick env.states at pruned w.state })
    unfolding record_tick
    record_tick-Beats at pruned w =
        let columns : StateRow = record empty_row {
          last_tick_at = some at;
          last_pruned_at = pruned;
        } in
        (
          merged merge_state (row env.states marker_key w.state) columns,
          laws.row-merge marker_key marker_key columns w.state,
          last_tick_at-merged (row env.states marker_key w.state) at pruned,
        )

    -- The end of the tick, after its dispatches: the prune and the heartbeat.
    abbrev ending : ℕ → World env → Result (Unit {0}) × World env
    ending at = do
      pruned_at ← isolated none (maybe_prune env at)
      on_state env (record_tick env.states at pruned_at)

    ended :
        (ds : List PipelineDescriptor) (at : ℕ) (pruned : Option ℕ) (w w₁ : World env)
        (h : env.histories.Store)
        → Dispatches env at ds [] 0 w (returned tt, w₁)
        → Dispatches env at ds [] 0 w (
          returned tt,
          record w₁ { history = h; state = record_tick env.states at pruned w₁.state },
        )
          × Beats at (record w₁ { history = h; state = record_tick env.states at pruned w₁.state })
    ended ds at pruned w w₁ h r = (
      record {
        returns = refl;
        runs = r.runs;
        in_order = r.in_order;
        launched = r.launched;
        config = r.config;
        ready = r.ready;
        apart = r.apart;
        capped = r.capped;
      },
      record_tick-Beats at pruned w₁,
    )

    after_dispatch :
        (ds : List PipelineDescriptor) (at : ℕ) (w : World env) (x : Result (Unit {0}) × World env)
        → Dispatches env at ds [] 0 w x
        → Dispatches env at ds [] 0 w (and_then (λ _. ending at) x.0 x.1)
          × Beats at (and_then (λ _. ending at) x.0 x.1).1
    unfolding maybe_prune
    after_dispatch ds at w (returned _, w₁) r =
        elim (Bool-cases (pruned_lately (get_marker env.states w₁.state).1 at)) [
          | inl lately ↦ rw lately (ended ds at none w w₁ w₁.history r)
          | inr due_now ↦ rw due_now (
              ended ds at (some at) w w₁
                (HistoryStore.prune env.histories (at - env.history_retention_days * day)
                  w₁.history).0
                r)
        ]
    after_dispatch ds at w (raised e, w₁) r = absurd (cc (r.returns))

    after_reconcile :
        (ds : List PipelineDescriptor) (at : ℕ) (w : World env) (x : Result (Unit {0}) × World env)
        → Registered env ds
        → AreDistinct ds
        → Returns env w x
        → Dispatches env at ds [] 0 w
            (and_then (λ _. dispatch_all env at ds [] 0 >>= λ _. ending at) x.0 x.1)
          × Beats at (and_then (λ _. dispatch_all env at ds [] 0 >>= λ _. ending at) x.0 x.1).1
    after_reconcile ds at w (returned _, w₁) known apart (_, still) =
        after_dispatch ds at w (dispatch_all env at ds [] 0 w₁) (
          from_Still at ds w w₁ (dispatch_all env at ds [] 0 w₁) still
            (dispatch_all-Dispatches env laws at ds [] 0 w₁ known apart))
    after_reconcile ds at w (raised e, w₁) known apart (ok, _) = absurd (cc ok)

    pub tick_lem :
        (w : World env)
        → Dispatches env (env.clock w.calls) all_descriptors [] 0 w (tick env w)
          × Beats (env.clock w.calls) (tick env w).1
    unfolding tick
    tick_lem w =
        after_reconcile all_descriptors (env.clock w.calls) w
          (reconcile_all env (list env.states w.state) (next_call env w)) registered_descriptors
          distinct_descriptors
          (reconcile_all-Returns env laws (list env.states w.state) (next_call env w))
