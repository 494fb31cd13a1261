-- ===== src/Scheduler/Dispatcher/Tick/Reconcile.antt =====
-- The reconciling part of a `tick` of services/data_collection/dispatcher.py.
use az_capa.Prelude.{
  String, ◌≡◌, refl, Option, none, some, List, [], ◌∷◌, if◌then◌else◌, Bool-cases, inl, inr, str_eq,
}
use az_capa.Table.{IsTable}
use az_capa.Scheduler.StateStore.{RunState, merge_state}
use az_capa.Scheduler.Dispatcher.Effects.{
  next_call, RunStatus, Result, returned, raised, Env, World, and_then, handle, pure,
}
use az_capa.Scheduler.Dispatcher.Gate.{reconcile_terminal, is_placeholder, is_over}
use az_capa.Scheduler.Dispatcher.Tick.{reconcile_state, reconcile_active, reconcile_all}
use az_capa.Scheduler.Dispatcher.Gate.Counts.{Still, Still_trans, Quiet, reconcile_terminal-Quiet}

module _ (env : Env) where
  -- The reconciling part of the tick never raises, and leaves the launches, the settings and the
  -- moments of dispatch.
  abbrev pub Returns : World env → Result (Unit {0}) × World env → Type 0
  Returns w x = (x.0 ≡ returned tt) × Quiet env w x

  abbrev nothing_moved : (w : World env) → Still env w w
  nothing_moved w = (refl, refl, λ q. refl)

  module _ (laws : IsTable merge_state env.states) where
    after_status :
        (p active : String) (w w₁ : World env) (r : Result (Option (RunStatus env.rt.Float)))
        → Still env w w₁
        → Quiet env w (
            and_then
              (λ status. if is_over status then reconcile_terminal env p active status else pure tt)
              r
              w₁)
    after_status p active w w₁ (returned status) q = elim (Bool-cases (is_over status)) [
      | inl over ↦ rw over (
          Still_trans env w w₁ (reconcile_terminal env p active status w₁).1 q
            (reconcile_terminal-Quiet env laws p active status w₁))
      | inr live ↦ rw live q
    ]
    after_status p active w w₁ (raised e) q = q

    reconcile_active-Quiet :
        (p : String) (o : Option String) (w : World env) → Quiet env w (reconcile_active env p o w)
    reconcile_active-Quiet p none w = nothing_moved w
    reconcile_active-Quiet p (some active) w = elim (Bool-cases (str_eq active "")) [
      | inl empty ↦ rw empty (nothing_moved w)
      | inr named ↦ elim (Bool-cases (is_placeholder active)) [
        | inl pending ↦ rw (named, pending) (nothing_moved w)
        | inr real ↦
            rw (named, real)
              (after_status p active w (next_call env w) (env.get_status w.calls active)
                (nothing_moved w))
      ]
    ]

    pub reconcile_all-Returns :
        (states : List RunState) (w : World env) → Returns w (reconcile_all env states w)
    unfolding reconcile_all reconcile_state
    reconcile_all-Returns [] w = (refl, nothing_moved w)
    reconcile_all-Returns (s ∷ states) w =
        go (reconcile_active env s.pipeline s.active_instance_id w)
          (reconcile_active-Quiet s.pipeline s.active_instance_id w)
          (λ w'. reconcile_all-Returns states w')
      where
        go :
            (x : Result (Unit {0}) × World env)
            → Quiet env w x
            → ((w' : World env) → Returns w' (reconcile_all env states w'))
            → Returns w (
                and_then
                  (λ _. reconcile_all env states)
                  (handle (λ e. pure tt) x.0 x.1).0
                  (handle (λ e. pure tt) x.0 x.1).1)
        go (returned u, w') q rest =
            ((rest w').0, Still_trans env w w' (reconcile_all env states w').1 q (rest w').1)
        go (raised e, w') q rest =
            ((rest w').0, Still_trans env w w' (reconcile_all env states w').1 q (rest w').1)
