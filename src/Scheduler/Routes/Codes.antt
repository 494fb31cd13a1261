-- ===== src/Scheduler/Routes/Codes.antt =====
-- What the responses of the action and config routes tell of what was done,
-- functions/data_collection_bp.py.
use az_capa.Prelude.{
  String, ◌≡◌, ◌≢◌, ◌⊎◌, refl, true, not, ◌&&◌, ◌||◌, Option, none, some, List, ◌∷◌, arith, inl,
  inr, Bool-cases, str_eq, str_eq_iff, get_or, ◌==◌,
}
use az_capa.Prelude.Int.{ℤ}
use az_capa.Json.{Json}
use az_capa.Table.{IsTable}
use az_capa.Authorization.{ClientPrincipal, granted, Host, require_admin}
use az_capa.Scheduler.Registry.Descriptor.{PipelineDescriptor}
use az_capa.Scheduler.StateStore.{merge_state}
use az_capa.Scheduler.HistoryStore.{merge_history}
use az_capa.Scheduler.Dispatcher.Effects.{Result, returned, raised, Env, World}
use az_capa.Scheduler.Dispatcher.Gate.{StartResult, start, refresh, flush, scheduled}
use az_capa.Scheduler.Dispatcher.Gate.Starts.{StartCases, StartOutcome, start_cases}
use az_capa.Scheduler.Routes.{
  action_route, Response, started_body, IntRead, Handler, serve, answered, action_answer,
  admin_handler, data_collection_action, start_route, with_pipeline, descriptor_of,
}

manual_ne_scheduled : ◌≢◌ {A = String} "manual" scheduled
manual_ne_scheduled = ground (arith, str_eq_iff "manual" scheduled)

module _ (env : Env) where
  abbrev pub Launched : World env → World env → Type 0
  Launched w w' = (orchestrator : String) × (w'.launches ≡ orchestrator ∷ w.launches)

  -- A 202 names the one run that was launched; an error launched nothing; where an exception leaves
  -- the route there was at most one launch.
  abbrev pub ActionOutcome : World env → Option (Response env) × World env → Type 0
  ActionOutcome w (some r, w') =
      ((r.status_code ≡ 202) × Launched w w' × ((id : String) × (r.body ≡ started_body (some id))))
      ⊎ (((r.status_code == 404 || (r.status_code == 405 || r.status_code == 409)) ≡ true)
          × (w'.launches ≡ w.launches))
  ActionOutcome w (none, w') = (w'.launches ≡ w.launches) ⊎ Launched w w'

  abbrev respond_start : Result StartResult → Handler env
  respond_start = answered env (λ result. action_answer env result.status result.instance_id)

  started-ActionOutcome :
      (d : PipelineDescriptor) (orchestrator action : String) (w : World env)
      (r : Result StartResult × World env)
      → StartOutcome env d orchestrator action "manual" w r
      → ActionOutcome w (respond_start r.0 r.1)
  started-ActionOutcome d orchestrator action w (returned r, w') (inl s) =
      rw (s.status, s.instance_id) (inl (refl, (orchestrator, s.launched), (s.id, refl)))
  started-ActionOutcome d orchestrator action w (returned r, w') (inr (inl b)) =
      rw b.status (inr (refl, b.launched))
  started-ActionOutcome d orchestrator action w (returned r, w') (inr (inr x)) =
      absurd (manual_ne_scheduled x.is_scheduled)
  started-ActionOutcome d orchestrator action w (raised e, w') (inl (same, _)) = inl same
  started-ActionOutcome d orchestrator action w (raised e, w') (inr (taken, one)) =
      inr (orchestrator, one)

  start-ActionOutcome :
      (id action : String) (w : World env)
      → StartCases env id action "manual" w
      → ActionOutcome w
          (respond_start (start env id action "manual" w).0 (start env id action "manual" w).1)
  start-ActionOutcome id action w (inl (_, e)) = rw e (inl refl)
  start-ActionOutcome id action w (inr (d, _, inl (_, _, e))) = rw e (inl refl)
  start-ActionOutcome id action w (inr (d, _, inr (inl (_, e)))) = rw e (inl refl)
  start-ActionOutcome id action w (inr (d, _, inr (inr (orchestrator, _, outcome)))) =
      started-ActionOutcome d orchestrator action w (start env id action "manual" w) outcome

  module _ (laws : IsTable merge_state env.states)
      (history_laws : IsTable merge_history env.histories) (host : Host env.rt.Float)
      (details : String → Result (Json env.rt.Float)) (read_int : String → Option ℤ)
      (to_int : Json env.rt.Float → IntRead) where
    start_route-ActionOutcome :
        (id : String) (d : PipelineDescriptor) (action : String) (w : World env)
        → ActionOutcome w (start_route env host details read_int to_int id d action w)
    start_route-ActionOutcome id d action w =
        elim (Bool-cases (not (str_eq action refresh || str_eq action flush))) [
          | inl unknown ↦ rw unknown (inr (refl, refl))
          | inr named ↦ elim (Bool-cases (str_eq action flush && not d.supports_flush)) [
            | inl no_flush ↦ rw (named, no_flush) (inr (refl, refl))
            | inr allowed ↦
                rw (named, allowed)
                  (start-ActionOutcome id action w
                    (start_cases env laws history_laws id action "manual" w))
          ]
        ]

    known-ActionOutcome :
        (action : String) (w : World env) (o : Option (String × PipelineDescriptor))
        → ActionOutcome w (
            with_pipeline env
              (λ id d. start_route env host details read_int to_int id d action)
              o
              w)
    known-ActionOutcome action w none = inr (refl, refl)
    known-ActionOutcome action w (some (id, d)) = start_route-ActionOutcome id d action w

    -- The action route for an administrator: with a 202 exactly one orchestration was launched and
    -- the body names an instance; the only other responses are a 404, a 405 or a 409, and then
    -- nothing was launched. An exception that leaves the route launched at most one.
    pub serve-ActionOutcome :
        (pipeline action : Option String) (headers : List (String × String)) (p : ClientPrincipal)
        (w : World env)
        → require_admin host headers ≡ granted p
        → ActionOutcome w
            (serve env host details read_int to_int (action_route pipeline action) headers w)
    unfolding serve admin_handler data_collection_action
    serve-ActionOutcome pipeline action headers p w let_in =
        rw let_in (known-ActionOutcome (get_or action "") w (descriptor_of env pipeline))
