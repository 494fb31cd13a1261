-- ===== src/Scheduler/Dispatcher/Tick/Dispatch.antt =====
-- When `_dispatch_one` of services/data_collection/dispatcher.py launches a run.
use az_capa.Prelude.{
  ℕ, String, ◌≡◌, ◌⊎◌, refl, sym, ap, ◌∙◌, Bool, true, false, not, ◌&&◌, Option, none, some, List,
  [], ◌∷◌, All, arith, if◌then◌else◌, Bool-cases, Option-cases, inl, inr, str_eq, str_eq_iff,
  opt_eq, contains,
}
use az_capa.Table.{row, IsTable}
use az_capa.Scheduler.Cadence.{is_due}
use az_capa.Scheduler.Registry.{try_get, all_descriptors}
use az_capa.Scheduler.Registry.Descriptor.{PipelineDescriptor}
use az_capa.Scheduler.StateStore.{merge_state, state_key, get}
use az_capa.Scheduler.StateStore.Rows.{is_busy}
use az_capa.Scheduler.Dispatcher.Effects.{
  ◌>>=◌, entity_exists, Result, returned, raised, Env, World, and_then, pure,
}
use az_capa.Scheduler.Dispatcher.Config.{effective_config}
use az_capa.Scheduler.Dispatcher.Config.Edits.{config_now}
use az_capa.Scheduler.Dispatcher.Gate.{
  StartResult, is_started, refresh, scheduled, start, scope_busy,
}
use az_capa.Scheduler.Dispatcher.Gate.Answers.{
  state_row, dispatched_row, Leaves, Framed, scope_busy-Framed,
}
use az_capa.Scheduler.Dispatcher.Tick.{
  dispatched_of, any_busy, group_blocked, group_free, contention_blocked, dispatch_one,
}
use az_capa.Scheduler.Dispatcher.Gate.Counts.{
  Still, Still_trans, Quiet, Frame, Leaves-Frame, CountsAlone, key_eq-state_key, scope_busy-Quiet,
  start-CountsAlone,
}

-- Another pipeline of the same contention group.
abbrev pub is_rival : (id : String) → Option String → PipelineDescriptor → Bool
is_rival id none other = false
is_rival id (some group) other = not (str_eq other.id id) && opt_eq other.contention_group group

module _ (env : Env) where
  -- A pipeline that is enabled and due in a world.
  abbrev pub IsReady : ℕ → World env → PipelineDescriptor → Type 0
  IsReady at w d =
      ((config_now env d w).enabled ≡ true)
      × (is_due at (dispatched_row (state_row env d.id w)) (config_now env d w).anchor_seconds
            (config_now env d w).frequency_seconds
          ≡ some true)

  -- No rival of the pipeline is busy.
  abbrev pub AreIdle : (id : String) → Option String → World env → List PipelineDescriptor → Type 0
  AreIdle id group w ds =
      All (λ other. (is_rival id group other && is_busy (state_row env other.id w)) ≡ false) ds

  -- What a dispatch has found when it launches a run: the pipeline is enabled and due, no run of
  -- its contention group was started in this tick, and no other pipeline of the group is busy.
  pub record IsDispatch (at : ℕ) (groups : List String) (d : PipelineDescriptor) (w w' : World env)
      : Type 0 where
    pub launched : w'.launches ≡ d.refresh_orchestrator ∷ w.launches
    pub ready : IsReady at w d
    pub apart : group_free d.contention_group groups ≡ true
    pub rivals : AreIdle d.id d.contention_group w' all_descriptors

  abbrev pub Launches :
      ℕ → List String → PipelineDescriptor → World env → Result Bool × World env → Type 0
  Launches at groups d w (returned true, w') = IsDispatch at groups d w w'
  Launches at groups d w (returned false, w') = w'.launches ≡ w.launches
  Launches at groups d w (raised e, w') =
      (w'.launches ≡ w.launches) ⊎ ((e ≡ entity_exists) × IsDispatch at groups d w w')

  -- The settings stay, and the other pipelines' moments of dispatch.
  abbrev pub Spares : String → World env → World env → Type 0
  Spares id w w' =
      (w'.config ≡ w.config)
      × ((q : String)
          → dispatched_row (state_row env q w') ≡ (
              if str_eq id q
              then dispatched_row (state_row env q w')
              else dispatched_row (state_row env q w)))

  abbrev pub DispatchOutcome :
      ℕ → List String → PipelineDescriptor → World env → Result Bool × World env → Type 0
  DispatchOutcome at groups d w x = Launches at groups d w x × Spares d.id w x.1

dispatched_of-get :
    (env : Env) (p : String) (w : World env)
    → dispatched_of (get env.states p w.state) ≡ dispatched_row (state_row env p w)
unfolding get
dispatched_of-get env p w = elim (Option-cases (row env.states (state_key p) w.state)) [
  | inl absent ↦ rw (absent, get)
  | inr (e, present) ↦ rw (present, get)
]

was_due :
    (env : Env) (at : ℕ) (d : PipelineDescriptor) (w : World env)
    → is_due at
        (dispatched_of (get env.states d.id w.state))
        (config_now env d w).anchor_seconds
        (config_now env d w).frequency_seconds
      ≡ some true
    → is_due at
        (dispatched_row (state_row env d.id w))
        (config_now env d w).anchor_seconds
        (config_now env d w).frequency_seconds
      ≡ some true
was_due env at d w h =
    ap
      (λ last.
        is_due at last (config_now env d w).anchor_seconds (config_now env d w).frequency_seconds)
      (sym (dispatched_of-get env d.id w))
    ∙ h

spared : {A : Type 0} (b : Bool) (x y : A) → (b ≡ false → x ≡ y) → x ≡ (if b then x else y)
spared true x y h = refl
spared false x y h = h refl

module _ (env : Env) (laws : IsTable merge_state env.states) where
  Still-Spares : (id : String) (w w' : World env) → Still env w w' → Spares env id w w'
  Still-Spares id w w' (_, config, stamps) = (config, λ q. spared (str_eq id q) _ _ (λ _. stamps q))

  -- A loop that finds no busy pipeline leaves idle rows idle.
  abbrev Keeps : World env → World env → Type 0
  Keeps w w' =
      (q : String) → is_busy (state_row env q w) ≡ false → is_busy (state_row env q w') ≡ false

  abbrev FindsIdle :
      (id : String)
      → Option String
      → List PipelineDescriptor
      → World env
      → Result Bool × World env
      → Type 0
  FindsIdle id group ds w (returned false, w') = AreIdle env id group w' ds × Keeps w w'
  FindsIdle id group ds w _ = Unit {0}

  free-Keeps :
      (p : String) (w w' : World env)
      → Leaves env p w w'
      → is_busy (state_row env p w') ≡ false
      → Keeps w w'
  free-Keeps p w w' leaves free q idle = elim (Bool-cases (str_eq p q)) [
    | inl same ↦ ap (λ r. is_busy (state_row env r w')) (sym ((str_eq_iff p q).0 same)) ∙ free
    | inr other ↦
        ap is_busy (Leaves-Frame env p w w' leaves (state_key q) (key_eq-state_key p q other))
        ∙ idle
  ]

  not_both : (a b : Bool) → b ≡ false → (a && b) ≡ false
  not_both a b h = ground arith

  after_rival :
      (id group : String) (other : PipelineDescriptor) (others : List PipelineDescriptor)
      (w : World env) (x : Result Bool × World env)
      → Framed env other.id w x
      → Quiet env w x
      → ((w' : World env)
          → Quiet env w' (any_busy env id group others w')
            × FindsIdle id (some group) others w' (any_busy env id group others w'))
      → let y =
          and_then
            (λ occupied. if occupied then pure true else any_busy env id group others)
            x.0
            x.1 in
        Quiet env w y × FindsIdle id (some group) (other ∷ others) w y
  after_rival id group other others w (returned true, w') f q rest = (q, tt)
  after_rival id group other others w (raised e, w') f q rest = (q, tt)
  after_rival id group other others w (returned false, w') (leaves, free) q rest =
      found (any_busy env id group others w') (rest w').0 (rest w').1
    where
      found :
          (y : Result Bool × World env)
          → Quiet env w' y
          → FindsIdle id (some group) others w' y
          → Quiet env w y × FindsIdle id (some group) (other ∷ others) w y
      found (returned true, w₂) q' idle = (Still_trans env w w' w₂ q q', tt)
      found (raised e, w₂) q' idle = (Still_trans env w w' w₂ q q', tt)
      found (returned false, w₂) q' (idle, keeps) = (
        Still_trans env w w' w₂ q q',
        (
          (
            not_both (is_rival id (some group) other) (is_busy (state_row env other.id w₂))
                (keeps other.id free),
            idle,
          ),
          λ r was. keeps r (free-Keeps other.id w w' leaves free r was),
        ),
      )

  unrelated_idle :
      (id group : String) (other : PipelineDescriptor) (others : List PipelineDescriptor)
      (w : World env) (y : Result Bool × World env)
      → is_rival id (some group) other ≡ false
      → FindsIdle id (some group) others w y
      → FindsIdle id (some group) (other ∷ others) w y
  unrelated_idle id group other others w (returned true, w') h idle = tt
  unrelated_idle id group other others w (raised e, w') h idle = tt
  unrelated_idle id group other others w (returned false, w') h (idle, keeps) =
      ((rw h, idle), keeps)

  any_busy_lem :
      (id group : String) (ds : List PipelineDescriptor) (w : World env)
      → Quiet env w (any_busy env id group ds w)
        × FindsIdle id (some group) ds w (any_busy env id group ds w)
  unfolding any_busy
  any_busy_lem id group [] w = ((refl, refl, λ q. refl), (tt, λ q h. h))
  any_busy_lem id group (other ∷ others) w =
      let rest = any_busy_lem id group others in
      elim (Bool-cases (not (str_eq other.id id) && opt_eq other.contention_group group)) [
        | inl rival ↦ rw rival (
            after_rival id group other others w (scope_busy env other.id w)
              (scope_busy-Framed env laws other.id w) (scope_busy-Quiet env laws other.id w) rest)
        | inr unrelated ↦ rw unrelated (
          (rest w).0,
          unrelated_idle id group other others w (any_busy env id group others w) unrelated
              (rest w).1,
        )
      ]

  no_rivals :
      (id : String) (w : World env) (ds : List PipelineDescriptor) → AreIdle env id none w ds
  no_rivals id w [] = tt
  no_rivals id w (d ∷ ds) = (refl, no_rivals id w ds)

  -- An unblocked pipeline's group has no run of this tick, and no busy pipeline.
  abbrev Unblocked : (id : String) → Option String → List String → Result Bool × World env → Type 0
  Unblocked id group groups (returned false, w') =
      (group_free group groups ≡ true) × AreIdle env id group w' all_descriptors
  Unblocked id group groups _ = Unit {0}

  FindsIdle-Unblocked :
      (id group : String) (groups : List String) (w : World env) (x : Result Bool × World env)
      → group_free (some group) groups ≡ true
      → FindsIdle id (some group) all_descriptors w x
      → Unblocked id (some group) groups x
  FindsIdle-Unblocked id group groups w (returned false, w') h (idle, _) = (h, idle)
  FindsIdle-Unblocked id group groups w (returned true, w') h i = tt
  FindsIdle-Unblocked id group groups w (raised e, w') h i = tt

  group_blocked_lem :
      (d : PipelineDescriptor) (group : Option String) (groups : List String) (w : World env)
      → Quiet env w (group_blocked env d group groups w)
        × Unblocked d.id group groups (group_blocked env d group groups w)
  group_blocked_lem d none groups w =
      ((refl, refl, λ q. refl), (refl, no_rivals d.id w all_descriptors))
  group_blocked_lem d (some group) groups w = elim (Bool-cases (contains groups group)) [
    | inl taken ↦ rw taken ((refl, refl, λ q. refl), tt)
    | inr open_group ↦
        let (quiet, idle) = any_busy_lem d.id group all_descriptors w in
        rw open_group (
          quiet,
          FindsIdle-Unblocked d.id group groups w (any_busy env d.id group all_descriptors w)
              (rw open_group) idle,
        )
  ]

  -- The rivals' rows are as before a start of the pipeline.
  Frame-AreIdle :
      (id : String) (group : Option String) (w w' : World env) (ds : List PipelineDescriptor)
      → Frame env id w w'
      → AreIdle env id group w ds
      → AreIdle env id group w' ds
  Frame-AreIdle id group w w' [] f h = tt
  Frame-AreIdle id none w w' (d ∷ ds) f (i, h) = (refl, Frame-AreIdle id none w w' ds f h)
  Frame-AreIdle id (some group) w w' (d ∷ ds) f (i, h) = (
    elim (Bool-cases (is_rival id (some group) d)) [
      | inr unrelated ↦ rw unrelated
      | inl rival ↦
          let other : str_eq id d.id ≡ false =
            ground (arith, rival, str_eq_iff id d.id, str_eq_iff d.id id) in
          let same = f (state_key d.id) (key_eq-state_key id d.id other) in
          ap (λ r. is_rival id (some group) d && is_busy r) same ∙ i
    ],
    Frame-AreIdle id (some group) w w' ds f h,
  )

  module _ (at : ℕ) (groups : List String) (d : PipelineDescriptor) (w : World env)
      (ready : IsReady env at w d) (known : try_get d.id ≡ some d) where
    Frame-Spares :
        (w₁ w₂ : World env)
        → Still env w w₁
        → w₂.config ≡ w₁.config
        → Frame env d.id w₁ w₂
        → Spares env d.id w w₂
    Frame-Spares w₁ w₂ (_, c, stamps) k f = (
      k ∙ c,
      λ q.
          spared (str_eq d.id q) _ _ (λ other.
            ap dispatched_row (f (state_key q) (key_eq-state_key d.id q other)) ∙ stamps q),
    )

    dispatched :
        (w₁ w₂ : World env)
        → Still env w w₁
        → group_free d.contention_group groups ≡ true
        → AreIdle env d.id d.contention_group w₁ all_descriptors
        → w₂.launches ≡ d.refresh_orchestrator ∷ w₁.launches
        → Frame env d.id w₁ w₂
        → IsDispatch env at groups d w w₂
    dispatched w₁ w₂ still apart idle launched f = record {
      launched = launched ∙ ap (λ l. d.refresh_orchestrator ∷ l) still.0;
      ready = ready;
      apart = apart;
      rivals = Frame-AreIdle d.id d.contention_group w₁ w₂ all_descriptors f idle;
    }

    after_start :
        (w₁ : World env) (y : Result StartResult × World env)
        → Still env w w₁
        → (group_free d.contention_group groups ≡ true)
          × AreIdle env d.id d.contention_group w₁ all_descriptors
        → CountsAlone env d d.refresh_orchestrator w₁ y
        → DispatchOutcome env at groups d w
            (and_then (λ result. pure (is_started result.status)) y.0 y.1)
    after_start w₁ (returned r, w₂) still (apart, idle) ((launched, config), f) =
        elim (Bool-cases (is_started r.status)) [
          | inl did ↦ rw did (
            dispatched w₁ w₂ still apart idle (rw did at launched) f,
            Frame-Spares w₁ w₂ still config f,
          )
          | inr did_not ↦
              rw did_not ((rw did_not at launched) ∙ still.0, Frame-Spares w₁ w₂ still config f)
        ]
    after_start w₁ (raised e, w₂) still (apart, idle) ((inl launched, config), f) =
        (inl (launched ∙ still.0), Frame-Spares w₁ w₂ still config f)
    after_start w₁ (raised e, w₂) still (apart, idle) ((inr (taken, launched), config), f) = (
      inr (taken, dispatched w₁ w₂ still apart idle launched f),
      Frame-Spares w₁ w₂ still config f,
    )

    after_blocked :
        (x : Result Bool × World env)
        → Quiet env w x
        → Unblocked d.id d.contention_group groups x
        → DispatchOutcome env at groups d w (
            and_then
              (λ blocked. if blocked then pure false else (do
                result ← start env d.id refresh scheduled
                pure (is_started result.status)))
              x.0
              x.1)
    after_blocked (returned true, w₁) q u = (q.0, Still-Spares d.id w w₁ q)
    after_blocked (returned false, w₁) q u =
        after_start w₁ (start env d.id refresh scheduled w₁) q u
          (start-CountsAlone env laws d w₁ known)
    after_blocked (raised e, w₁) q u = (inl q.0, Still-Spares d.id w w₁ q)

    after_gate :
        (x : Result Bool × World env)
        → Quiet env w x
        → DispatchOutcome env at groups d w (
            and_then
              (λ occupied. if occupied then pure false else (do
                blocked ← group_blocked env d d.contention_group groups
                if blocked then pure false else (do
                  result ← start env d.id refresh scheduled
                  pure (is_started result.status))))
              x.0
              x.1)
    after_gate (returned true, w₁) q = (q.0, Still-Spares d.id w w₁ q)
    after_gate (returned false, w₁) q =
        let (quiet, unblocked) = group_blocked_lem d d.contention_group groups w₁ in
        after_blocked (group_blocked env d d.contention_group groups w₁)
          (Still_trans env w w₁ (group_blocked env d d.contention_group groups w₁).1 q quiet)
          unblocked
    after_gate (raised e, w₁) q = (inl q.0, Still-Spares d.id w w₁ q)

  -- A dispatch that answers true launched exactly one run, of the pipeline's refresh; the pipeline
  -- was enabled and due by its effective cadence and the last dispatch on record; its contention
  -- group had no run in this tick, and no other pipeline of the group is busy. One that answers
  -- false launched nothing. One that raises launched nothing, unless the key of the history row was
  -- taken, when all this holds of the run that it launched. The settings and the other pipelines'
  -- moments of dispatch stay.
  pub dispatch_one-DispatchOutcome :
      (at : ℕ) (groups : List String) (d : PipelineDescriptor) (w : World env)
      → try_get d.id ≡ some d
      → DispatchOutcome env at groups d w (dispatch_one env d at groups w)
  unfolding dispatch_one effective_config contention_blocked
  dispatch_one-DispatchOutcome at groups d w known =
      let kept : Spares env d.id w w = Still-Spares d.id w w (refl, refl, λ q. refl) in
      elim (Bool-cases (config_now env d w).enabled) [
        | inr off ↦ rw off (refl, kept)
        | inl on ↦
            elim (Option-cases (
              is_due at (dispatched_of (get env.states d.id w.state))
                (config_now env d w).anchor_seconds (config_now env d w).frequency_seconds)) [
                  | inl fault ↦ rw (on, fault) (inl refl, kept)
                  | inr (true, is_now) ↦
                      rw (on, is_now)
                        (after_gate at groups d w (on, was_due env at d w is_now) known
                          (scope_busy env d.id w) (scope_busy-Quiet env laws d.id w))
                  | inr (false, later) ↦ rw (on, later) (refl, kept)
                ]
      ]
