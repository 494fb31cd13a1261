-- ===== src/Scheduler/Dispatcher/Gate/Counts.antt =====
-- How many runs the gate and the start point of services/data_collection/dispatcher.py launch.
use mathlib.Core.Path.{subst}
use az_capa.Prelude.{
  ◌+◌, String, ◌≡◌, ◌⊎◌, refl, ap, ◌∙◌, Bool, true, false, not, ◌&&◌, Option, none, some, ◌∷◌,
  arith, if◌then◌else◌, Bool-cases, Option-cases, inl, inr, str_eq, str_eq_iff,
}
use az_capa.Table.{Key, key_eq, row, IsTable}
use az_capa.Scheduler.Registry.{try_get}
use az_capa.Scheduler.Registry.Descriptor.{PipelineDescriptor}
use az_capa.Scheduler.StateStore.{merge_state, state_key, release_claim}
use az_capa.Scheduler.StateStore.Rows.{try_claim_cases, row-set_active_instance, row-clear_active}
use az_capa.Scheduler.HistoryStore.{open_row}
use az_capa.Scheduler.Dispatcher.Effects.{
  entity_exists, Result, returned, raised, RunStatus, Env, World, Result-cases, and_then,
}
use az_capa.Scheduler.Dispatcher.Config.{effective_config}
use az_capa.Scheduler.Dispatcher.Config.Edits.{config_now}
use az_capa.Scheduler.Dispatcher.Gate.{
  busy, StartResult, is_started, refresh, scheduled, launch, start_orchestrator, start, scope_busy,
  reconcile_terminal, answer,
}
use az_capa.Scheduler.Dispatcher.Gate.Answers.{
  state_row, dispatched_row, Leaves, Framed, scope_busy-Framed, reconcile_terminal-Leaves,
}

pub key_eq-state_key :
    (p q : String) → str_eq p q ≡ false → key_eq (state_key p) (state_key q) ≡ false
key_eq-state_key p q h = ground (arith, h)

module _ (env : Env) where
  -- No launch, the same settings, and every pipeline's moment of dispatch as before.
  abbrev pub Still : World env → World env → Type 0
  Still w w' =
      (w'.launches ≡ w.launches)
      × (w'.config ≡ w.config)
      × ((q : String) → dispatched_row (state_row env q w') ≡ dispatched_row (state_row env q w))

  abbrev pub Quiet : {A : Type 0} → World env → Result A × World env → Type 0
  Quiet w x = Still w x.1

  pub Still_trans : (w w₁ w₂ : World env) → Still w w₁ → Still w₁ w₂ → Still w w₂
  Still_trans w w₁ w₂ (l, c, d) (l', c', d') = (l' ∙ l, c' ∙ c, λ q. d' q ∙ d q)

  -- Only the row of the pipeline may have changed in the state table.
  abbrev pub Frame : String → World env → World env → Type 0
  Frame p w w' =
      (j : Key)
      → key_eq (state_key p) j ≡ false
      → row env.states j w'.state ≡ row env.states j w.state

  pub Frame-trans : (p : String) (w w₁ w₂ : World env) → Frame p w w₁ → Frame p w₁ w₂ → Frame p w w₂
  Frame-trans p w w₁ w₂ f g j other = g j other ∙ f j other

  pub Leaves-Frame : (p : String) (w w' : World env) → Leaves env p w w' → Frame p w w'
  Leaves-Frame p w w' leaves j other = leaves.others j ∙ rw other

  pub Leaves-Still : (p : String) (w w' : World env) → Leaves env p w w' → Still w w'
  Leaves-Still p w w' leaves = (
    leaves.launches,
    leaves.config,
    λ q. elim (Bool-cases (str_eq p q)) [
      | inl same ↦
          subst (λ r. dispatched_row (state_row env r w') ≡ dispatched_row (state_row env r w))
            ((str_eq_iff p q).0 same) leaves.dispatched
      | inr other ↦
          ap dispatched_row (Leaves-Frame p w w' leaves (state_key q) (key_eq-state_key p q other))
    ],
  )

  -- One launch if the run was started, and none if it was not; an exception too may have left one
  -- launch, where the key of the history row was taken.
  abbrev pub Counts : String → World env → Result StartResult × World env → Type 0
  Counts orchestrator w (returned r, w') =
      (w'.launches ≡ (if is_started r.status then orchestrator ∷ w.launches else w.launches))
      × (w'.config ≡ w.config)
  Counts orchestrator w (raised e, w') =
      ((w'.launches ≡ w.launches)
        ⊎ ((e ≡ entity_exists) × (w'.launches ≡ orchestrator ∷ w.launches)))
      × (w'.config ≡ w.config)

  abbrev pub CountsAlone :
      PipelineDescriptor → String → World env → Result StartResult × World env → Type 0
  CountsAlone d orchestrator w x = Counts orchestrator w x × Frame d.id w x.1

  module _ (laws : IsTable merge_state env.states) where
    Framed-Leaves :
        (p : String) (w : World env) (x : Result Bool × World env)
        → Framed env p w x
        → Leaves env p w x.1
    Framed-Leaves p w (returned true, w') (leaves, _, _, _) = leaves
    Framed-Leaves p w (returned false, w') (leaves, _) = leaves
    Framed-Leaves p w (raised e, w') (leaves, _, _) = leaves

    pub scope_busy-Leaves : (p : String) (w : World env) → Leaves env p w (scope_busy env p w).1
    scope_busy-Leaves p w = Framed-Leaves p w (scope_busy env p w) (scope_busy-Framed env laws p w)

    pub scope_busy-Quiet : (p : String) (w : World env) → Quiet w (scope_busy env p w)
    scope_busy-Quiet p w = Leaves-Still p w (scope_busy env p w).1 (scope_busy-Leaves p w)

    pub reconcile_terminal-Quiet :
        (p id : String) (status : Option (RunStatus env.rt.Float)) (w : World env)
        → Quiet w (reconcile_terminal env p id status w)
    reconcile_terminal-Quiet p id status w =
        Leaves-Still p w (reconcile_terminal env p id status w).1
          (reconcile_terminal-Leaves env laws p id status w).0

    launch-CountsAlone :
        (d : PipelineDescriptor) (orchestrator action trigger : String) (w : World env)
        → CountsAlone d orchestrator w (launch env d orchestrator action trigger w)
    unfolding launch open_row release_claim
    launch-CountsAlone d orchestrator action trigger w =
        let at = env.clock w.calls in
        let uuid = env.uuid (w.calls + 1) in
        elim (try_claim_cases env.states laws d.id d.scope uuid action trigger at w.state) [
          | inl (_, lost) ↦ rw lost ((refl, refl), λ j other. refl)
          | inr (_, s', won, rows) ↦
              let after_claim =
                λ (j : Key) (other : key_eq (state_key d.id) j ≡ false). rows j ∙ rw other in
              elim (Result-cases (env.start_new (w.calls + 1 + 1) orchestrator)) [
                | inl (id, launched) ↦
                    let activated = λ (j : Key) (other : key_eq (state_key d.id) j ≡ false).
                      row-set_active_instance env.states laws d.id id j s'
                      ∙ rw other (after_claim j other) in
                    elim (Option-cases (
                      open_row env.histories d.id action trigger at id
                        (env.uuid (w.calls + 1 + 1 + 1)) w.history)) [
                          | inl taken ↦
                              rw (won, launched, taken) ((inr (refl, refl), refl), activated)
                          | inr (h', opened) ↦ rw (won, launched, opened) ((refl, refl), activated)
                        ]
                | inr (e, failed) ↦
                    rw (won, failed)
                      (
                        (inl refl, refl),
                        λ j other.
                            row-clear_active env.states laws d.id none none j s'
                            ∙ rw other (after_claim j other),
                      )
              ]
        ]

    rebase :
        (d : PipelineDescriptor) (orchestrator : String) (w w' : World env)
        (x : Result StartResult × World env)
        → (w'.launches ≡ w.launches) × (w'.config ≡ w.config)
        → Frame d.id w w'
        → CountsAlone d orchestrator w' x
        → CountsAlone d orchestrator w x
    rebase d orchestrator w w' (returned r, w₂) (l, c) f ((n, k), g) = (
      (n ∙ ap (λ ls. if is_started r.status then orchestrator ∷ ls else ls) l, k ∙ c),
      Frame-trans d.id w w' w₂ f g,
    )
    rebase d orchestrator w w' (raised e, w₂) (l, c) f ((inl n, k), g) =
        ((inl (n ∙ l), k ∙ c), Frame-trans d.id w w' w₂ f g)
    rebase d orchestrator w w' (raised e, w₂) (l, c) f ((inr (taken, n), k), g) =
        ((inr (taken, n ∙ ap (λ ls. orchestrator ∷ ls) l), k ∙ c), Frame-trans d.id w w' w₂ f g)

    after_gate-CountsAlone :
        (d : PipelineDescriptor) (orchestrator action trigger : String) (w : World env)
        (x : Result Bool × World env)
        → Leaves env d.id w x.1
        → CountsAlone d orchestrator w (
            and_then
              (λ occupied.
                if occupied then answer env busy none else launch env d orchestrator action trigger)
              x.0
              x.1)
    after_gate-CountsAlone d orchestrator action trigger w (returned true, w') leaves =
        ((leaves.launches, leaves.config), Leaves-Frame d.id w w' leaves)
    after_gate-CountsAlone d orchestrator action trigger w (returned false, w') leaves =
        rebase d orchestrator w w' (launch env d orchestrator action trigger w')
          (leaves.launches, leaves.config) (Leaves-Frame d.id w w' leaves)
          (launch-CountsAlone d orchestrator action trigger w')
    after_gate-CountsAlone d orchestrator action trigger w (raised e, w') leaves =
        ((inl leaves.launches, leaves.config), Leaves-Frame d.id w w' leaves)

    start_orchestrator-CountsAlone :
        (d : PipelineDescriptor) (orchestrator action trigger : String) (w : World env)
        → CountsAlone d orchestrator w (start_orchestrator env d orchestrator action trigger w)
    unfolding start_orchestrator effective_config
    start_orchestrator-CountsAlone d orchestrator action trigger w =
        let enabled = (config_now env d w).enabled in
        elim (Bool-cases (str_eq action refresh && (str_eq trigger scheduled && not enabled))) [
          | inl off ↦ rw off ((refl, refl), λ j other. refl)
          | inr on ↦ rw on (
              after_gate-CountsAlone d orchestrator action trigger w (scope_busy env d.id w)
                (scope_busy-Leaves d.id w))
        ]

    -- The scheduled refresh of a registered pipeline.
    pub start-CountsAlone :
        (d : PipelineDescriptor) (w : World env)
        → try_get d.id ≡ some d
        → CountsAlone d d.refresh_orchestrator w (start env d.id refresh scheduled w)
    unfolding start
    start-CountsAlone d w known =
        rw known (start_orchestrator-CountsAlone d d.refresh_orchestrator refresh scheduled w)
