-- ===== src/Scheduler/Dispatcher/Config/Edits.antt =====
-- What an accepted edit guarantees, and what a reset does: `update_config`, `reset_config` and
-- `effective_config` of services/data_collection/dispatcher.py.
use az_capa.Prelude.{
  ℕ, String, ◌≡◌, ◌⊎◌, refl, sym, ap, ◌∙◌, Bool, true, Option, none, some, arith, if◌then◌else◌,
  Bool-cases, Option-cases, inl, inr, str_eq,
}
use az_capa.Prelude.Int.{ℤ, pos, ◌≤ℤ◌, ◌<ℤ◌}
use az_capa.Json.{Json}
use az_capa.Table.{row, IsTable}
use az_capa.Scheduler.Registry.{try_get}
use az_capa.Scheduler.Registry.Descriptor.{PipelineDescriptor}
use az_capa.Scheduler.ConfigStore.{
  ConfigRow, Config, Edit, replace_config, config_key, row_to_config, build_entity, patch, patched,
  conflict, get, clear,
}
use az_capa.Scheduler.ConfigStore
use az_capa.Scheduler.ConfigStore.Revisions.{Writes, next_revision, patch_cases}
use az_capa.Scheduler.ConfigStore.Clear.{row-clear}
use az_capa.Scheduler.Dispatcher.Effects.{Result, returned, returned_inj, next_call, Env, World}
use az_capa.Scheduler.Dispatcher.Config.{
  EffectiveConfig, edit_error, update_config, reset_config, merge_defaults, patch_answer,
}

module _ (env : Env) where
  -- What the checks let through.
  pub record IsAllowed (d : PipelineDescriptor) (enabled : Bool) (frequency anchor : ℤ)
      : Type 0 where
    pub may_disable : (enabled ≡ true) ⊎ (d.can_disable ≡ true)
    pub in_bounds :
        (frequency ≡ pos 0)
        ⊎ ((env.min_frequency_seconds ≤ℤ frequency) × (frequency ≤ℤ env.max_frequency_seconds))
    pub anchor_low : pos 0 ≤ℤ anchor
    pub anchor_high : anchor <ℤ pos 86400

  edit_error-none :
      (o : Option PipelineDescriptor) (enabled : Bool) (frequency anchor : ℤ)
      → edit_error env o enabled frequency anchor ≡ none
      → (d : PipelineDescriptor) × (o ≡ some d) × IsAllowed d enabled frequency anchor
  unfolding edit_error
  edit_error-none none enabled frequency anchor h = cc
  edit_error-none (some d) enabled frequency anchor h = (
    d,
    refl,
    record {
      may_disable = ground arith;
      in_bounds = ground arith;
      anchor_low = ground arith;
      anchor_high = ground arith;
    },
  )

  -- The configuration that the dispatcher works with, for the descriptor of a pipeline.
  abbrev pub config_now : PipelineDescriptor → World env → EffectiveConfig
  config_now d w = merge_defaults d (ConfigStore.get env.rt env.configs d.id w.config)

  -- The effective configuration is read from the row of the pipeline alone.
  abbrev pub config_of_row : PipelineDescriptor → Option ConfigRow → EffectiveConfig
  config_of_row d none = merge_defaults {F = env.rt.Float} d none
  config_of_row d (some e) = merge_defaults d (some (row_to_config env.rt d.id e))

  config_now-row :
      (d : PipelineDescriptor) (w : World env)
      → config_now d w ≡ config_of_row d (row env.configs (config_key d.id) w.config)
  unfolding get
  config_now-row d w = elim (Option-cases (row env.configs (config_key d.id) w.config)) [
    | inl absent ↦ rw (absent, get)
    | inr (e, present) ↦ rw (present, get)
  ]

  module _ (laws : IsTable replace_config env.configs) where
    -- After a reset every pipeline has the defaults of its descriptor, whatever was stored.
    pub reset_config-defaults :
        (d : PipelineDescriptor) (w : World env)
        → config_now d (reset_config env w).1 ≡ merge_defaults {F = env.rt.Float} d none
    unfolding reset_config
    reset_config-defaults d w =
        config_now-row d (reset_config env w).1
        ∙ ap (config_of_row d) (row-clear env.rt env.configs laws (config_key d.id) w.config)

    answered :
        (id : String) (edit : Edit env.rt.Float) (expected : Option ℕ) (w w' : World env)
        (config : Config env.rt.Float)
        → patch_answer env (patch env.rt env.configs id edit expected w.config) w
          ≡ (returned config, w')
        → (config
            ≡ row_to_config env.rt id (
                build_entity env.rt edit
                  (next_revision (row env.configs (config_key id) w.config))))
          × Writes env.rt env.configs laws id edit expected w.config
              (row env.configs (config_key id) w.config)
              w'.config
    answered id edit expected w w' config h =
        elim (patch_cases env.rt env.configs laws id edit expected w.config) [
          | inl (_, refused) ↦ absurd (cc (rw refused at h))
          | inr (_, s', stored, rows) ↦
              let e = rw stored at h in
              (
                sym (returned_inj (ap (λ (x : Result (Config env.rt.Float) × World env). x.0) e)),
                rw (← ap (λ (x : Result (Config env.rt.Float) × World env). x.1.config) e) rows,
              )
        ]

    -- An edit that is stored passed every check: the pipeline is registered; it is enabled or may
    -- be disabled; its frequency is 0 or within the bounds of the settings; its anchor lies in the
    -- day. The answer shows the revision after that of the row before. The next reading of the
    -- configuration gives the edit's values under this revision, and for every other pipeline what it
    -- gave before.
    pub update_config-stored :
        (id : String) (enabled : Bool) (frequency anchor : ℤ) (expected : Option ℕ)
        (by : Json env.rt.Float) (w w' : World env) (config : Config env.rt.Float)
        → update_config env id enabled frequency anchor expected by w ≡ (returned config, w')
        → (d : PipelineDescriptor) × (try_get id ≡ some d)
          × IsAllowed d enabled frequency anchor
          × (config.revision ≡ some (next_revision (row env.configs (config_key id) w.config)))
          × ((d' : PipelineDescriptor)
              → config_now d' w' ≡ (
                  if str_eq id d'.id
                  then record {
                    enabled = enabled;
                    frequency_seconds = frequency;
                    anchor_seconds = anchor;
                    revision = next_revision (row env.configs (config_key id) w.config);
                  }
                  else config_now d' w))
    unfolding update_config
    update_config-stored id enabled frequency anchor expected by w w' config h =
        elim (Option-cases (edit_error env (try_get id) enabled frequency anchor)) [
          | inl fine ↦
              let edit : Edit env.rt.Float = record {
                enabled = enabled;
                frequency_seconds = frequency;
                anchor_seconds = anchor;
                updated_by = by;
                updated_at = env.clock w.calls;
              } in
              let (d, known, allowed) =
                edit_error-none (try_get id) enabled frequency anchor fine in
              let (shown, rows) =
                answered id edit expected (next_call env w) w' config (rw fine at h) in
              (
                d,
                known,
                allowed,
                ap (λ (c : Config env.rt.Float). c.revision) shown,
                λ d'. config_now-row d' w' ∙ elim (Bool-cases (str_eq id d'.id)) [
                  | inl same ↦ rw (rows (config_key d'.id), same)
                  | inr other ↦ rw (rows (config_key d'.id), other) (sym (config_now-row d' w))
                ],
              )
          | inr (code, bad) ↦ absurd (cc (rw bad at h))
        ]
