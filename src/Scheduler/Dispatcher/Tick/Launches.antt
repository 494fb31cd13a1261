-- ===== src/Scheduler/Dispatcher/Tick/Launches.antt =====
-- What one tick of services/data_collection/dispatcher.py can launch.
use mathlib.Core.Path.{subst}
use az_capa.Prelude.{
  ℕ, suc, ◌+◌, ◌≤◌, String, ◌≡◌, ◌⊎◌, refl, ap, ◌∙◌, Bool, true, false, Option, some, List, [], ◌∷◌,
  All, arith, if◌then◌else◌, Bool-cases, inl, inr, str_eq,
}
use Prim.Native.Nat.{max}
use az_capa.Table.{IsTable}
use az_capa.Scheduler.Cadence.{is_due}
use az_capa.Scheduler.Registry.{try_get}
use az_capa.Scheduler.Registry.Descriptor.{PipelineDescriptor}
use az_capa.Scheduler.StateStore.{merge_state}
use az_capa.Scheduler.Dispatcher.Effects.{
  Result, returned, raised, Env, World, and_then, handle, pure,
}
use az_capa.Scheduler.ConfigStore
use az_capa.Scheduler.Dispatcher.Config.{merge_defaults}
use az_capa.Scheduler.Dispatcher.Gate.Answers.{state_row, dispatched_row}
use az_capa.Scheduler.Dispatcher.Tick.{dispatch_one, groups_after, group_free, at_cap, dispatch_all}
use az_capa.Scheduler.Dispatcher.Tick.Dispatch.{
  IsReady, Spares, DispatchOutcome, dispatch_one-DispatchOutcome,
}

-- A launched run stands with whether the history has its row. The runs are some of the pipelines, in their order, each at most once.
pub data InOrder : List (PipelineDescriptor × Bool) → List PipelineDescriptor → Type 0 where
  done : {ds : List PipelineDescriptor} → InOrder [] ds
  skip :
      {d : PipelineDescriptor} {runs : List (PipelineDescriptor × Bool)}
      {ds : List PipelineDescriptor}
      → InOrder runs ds
      → InOrder runs (d ∷ ds)
  take :
      {d : PipelineDescriptor} {recorded : Bool} {runs : List (PipelineDescriptor × Bool)}
      {ds : List PipelineDescriptor}
      → InOrder runs ds
      → InOrder ((d, recorded) ∷ runs) (d ∷ ds)

-- The log after the refreshes of the runs were launched.
abbrev pub logged : List (PipelineDescriptor × Bool) → List String → List String
logged [] launches = launches
logged ((d, recorded) ∷ runs) launches = logged runs (d.refresh_orchestrator ∷ launches)

abbrev pub count_recorded : List (PipelineDescriptor × Bool) → ℕ
count_recorded [] = 0
count_recorded ((d, true) ∷ runs) = suc (count_recorded runs)
count_recorded ((d, false) ∷ runs) = count_recorded runs

-- No run has a contention group of the list, or of a recorded run before it.
abbrev pub Apart : List String → List (PipelineDescriptor × Bool) → Type 0
Apart groups [] = Unit
Apart groups ((d, recorded) ∷ runs) =
    (group_free d.contention_group groups ≡ true) × Apart (groups_after recorded d groups) runs

-- No two of the pipelines have one id.
abbrev pub AreDistinct : List PipelineDescriptor → Type 0
AreDistinct [] = Unit
AreDistinct (d ∷ ds) = All (λ e. str_eq d.id e.id ≡ false) ds × AreDistinct ds

capped_suc :
    (cap count n : ℕ)
    → at_cap cap count ≡ false
    → (cap ≡ 0) ⊎ (count + 1 + n ≤ max cap (count + 1))
    → (cap ≡ 0) ⊎ (count + suc n ≤ max cap count)
capped_suc cap count n room h = ground arith

module _ (env : Env) where
  abbrev pub Registered : List PipelineDescriptor → Type 0
  Registered ds = All (λ d. try_get d.id ≡ some d) ds

  abbrev pub AllReady : ℕ → World env → List (PipelineDescriptor × Bool) → Type 0
  AllReady at w [] = Unit
  AllReady at w ((d, recorded) ∷ runs) = IsReady env at w d × AllReady at w runs

  pub record Dispatches (at : ℕ) (ds : List PipelineDescriptor) (groups : List String) (count : ℕ)
      (w : World env) (x : Result (Unit {0}) × World env) : Type 0 where
    pub returns : x.0 ≡ returned tt
    pub runs : List (PipelineDescriptor × Bool)
    pub in_order : InOrder runs ds
    pub launched : x.1.launches ≡ logged runs w.launches
    pub config : x.1.config ≡ w.config
    pub ready : AllReady at w runs
    pub apart : Apart groups runs
    pub capped :
        (env.max_dispatch_per_tick ≡ 0)
        ⊎ (count + count_recorded runs ≤ max env.max_dispatch_per_tick count)

  abbrev ReadyAs : ℕ → PipelineDescriptor → env.configs.Store → Option ℕ → Type 0
  ReadyAs at d c last =
      let config = merge_defaults d (ConfigStore.get env.rt env.configs d.id c) in
      (config.enabled ≡ true)
      × (is_due at last config.anchor_seconds config.frequency_seconds ≡ some true)

  -- The settings and the pipelines' moments of dispatch are the same.
  abbrev pub Keeps : List PipelineDescriptor → World env → World env → Type 0
  Keeps ds w w' =
      (w'.config ≡ w.config)
      × All (λ d. dispatched_row (state_row env d.id w') ≡ dispatched_row (state_row env d.id w)) ds

  IsReady-from :
      (at : ℕ) (d : PipelineDescriptor) (w w' : World env)
      → w'.config ≡ w.config
      → dispatched_row (state_row env d.id w') ≡ dispatched_row (state_row env d.id w)
      → IsReady env at w' d
      → IsReady env at w d
  IsReady-from at d w w' same stamp h =
      subst (λ last. ReadyAs at d w.config last) stamp
        (subst (λ c. ReadyAs at d c (dispatched_row (state_row env d.id w'))) same h)

  pub ready_from :
      (at : ℕ) (w w' : World env) (ds : List PipelineDescriptor)
      (runs : List (PipelineDescriptor × Bool))
      → InOrder runs ds
      → Keeps ds w w'
      → AllReady at w' runs
      → AllReady at w runs
  ready_from at w w' ds [] done keeps h = tt
  ready_from at w w' (d ∷ ds) runs (skip o) (same, (stamp, stamps)) h =
      ready_from at w w' ds runs o (same, stamps) h
  ready_from at w w' (d ∷ ds) ((_, b) ∷ runs) (take o) (same, (stamp, stamps)) (h, hs) =
      (IsReady-from at d w w' same stamp h, ready_from at w w' ds runs o (same, stamps) hs)

  Spares-Keeps :
      (d : PipelineDescriptor) (w w' : World env) (ds : List PipelineDescriptor)
      → All (λ e. str_eq d.id e.id ≡ false) ds
      → Spares env d.id w w'
      → Keeps ds w w'
  Spares-Keeps d w w' [] other (same, stamps) = (same, tt)
  Spares-Keeps d w w' (e ∷ ds) (other, others) (same, stamps) =
      (same, (stamps e.id ∙ rw other, (Spares-Keeps d w w' ds others (same, stamps)).1))

  none_more :
      (at : ℕ) (ds : List PipelineDescriptor) (groups : List String) (count : ℕ) (w : World env)
      → Dispatches at ds groups count w (returned tt, w)
  none_more at ds groups count w = record {
    returns = refl;
    runs = [];
    in_order = done;
    launched = refl;
    config = refl;
    ready = tt;
    apart = tt;
    capped = inr (omega arith);
  }

  skipped :
      (at : ℕ) (d : PipelineDescriptor) (ds : List PipelineDescriptor) (groups : List String)
      (count : ℕ) (w w' : World env) (x : Result (Unit {0}) × World env)
      → w'.launches ≡ w.launches
      → Keeps ds w w'
      → Dispatches at ds groups count w' x
      → Dispatches at (d ∷ ds) groups count w x
  skipped at d ds groups count w w' x launches keeps r = record {
    returns = r.returns;
    runs = r.runs;
    in_order = skip r.in_order;
    launched = r.launched ∙ ap (logged r.runs) launches;
    config = r.config ∙ keeps.0;
    ready = ready_from at w w' ds r.runs r.in_order keeps r.ready;
    apart = r.apart;
    capped = r.capped;
  }

  module _ (laws : IsTable merge_state env.states) where
    pub dispatch_all-Dispatches :
        (at : ℕ) (ds : List PipelineDescriptor) (groups : List String) (count : ℕ) (w : World env)
        → Registered ds
        → AreDistinct ds
        → Dispatches at ds groups count w (dispatch_all env at ds groups count w)
    unfolding dispatch_all
    dispatch_all-Dispatches at [] groups count w known apart = none_more at [] groups count w
    dispatch_all-Dispatches at (d ∷ ds) groups count w (here, known) (alone, apart) =
        elim (Bool-cases (at_cap env.max_dispatch_per_tick count)) [
          | inl full ↦ rw full (none_more at (d ∷ ds) groups count w)
          | inr room ↦ rw room (
              go (dispatch_one env d at groups w)
                (dispatch_one-DispatchOutcome env laws at groups d w here)
                (λ gs n w'. dispatch_all-Dispatches at ds gs n w' known apart) room alone)
        ]
      where
        go :
            (x : Result Bool × World env)
            → DispatchOutcome env at groups d w x
            → ((gs : List String) (n : ℕ) (w' : World env)
                → Dispatches at ds gs n w' (dispatch_all env at ds gs n w'))
            → at_cap env.max_dispatch_per_tick count ≡ false
            → All (λ e. str_eq d.id e.id ≡ false) ds
            → Dispatches at (d ∷ ds) groups count w (
                and_then
                  (λ did_start.
                    dispatch_all env at ds
                      (groups_after did_start d groups)
                      (if did_start then count + 1 else count))
                  (handle (λ e. pure false) x.0 x.1).0
                  (handle (λ e. pure false) x.0 x.1).1)
        go (returned true, w') (o, spares) rest room alone =
            let r = rest (groups_after true d groups) (count + 1) w' in
            let keeps = Spares-Keeps d w w' ds alone spares in
            record {
              returns = r.returns;
              runs = (d, true) ∷ r.runs;
              in_order = take r.in_order;
              launched = r.launched ∙ ap (logged r.runs) o.launched;
              config = r.config ∙ keeps.0;
              ready = (o.ready, ready_from at w w' ds r.runs r.in_order keeps r.ready);
              apart = (o.apart, r.apart);
              capped =
                  capped_suc env.max_dispatch_per_tick count (count_recorded r.runs) room r.capped;
            }
        go (returned false, w') (o, spares) rest room alone =
            skipped at d ds groups count w w' _ o (Spares-Keeps d w w' ds alone spares)
              (rest groups count w')
        go (raised e, w') (inl o, spares) rest room alone =
            skipped at d ds groups count w w' _ o (Spares-Keeps d w w' ds alone spares)
              (rest groups count w')
        go (raised e, w') (inr (taken, o), spares) rest room alone =
            let r = rest groups count w' in
            let keeps = Spares-Keeps d w w' ds alone spares in
            record {
              returns = r.returns;
              runs = (d, false) ∷ r.runs;
              in_order = take r.in_order;
              launched = r.launched ∙ ap (logged r.runs) o.launched;
              config = r.config ∙ keeps.0;
              ready = (o.ready, ready_from at w w' ds r.runs r.in_order keeps r.ready);
              apart = (o.apart, r.apart);
              capped = r.capped;
            }
