-- ===== src/Scheduler/Dispatcher/Config.antt =====
-- The configuration of services/data_collection/dispatcher.py: `effective_config`,
-- `update_config` and `reset_config`.
pub mod Edits
use az_capa.Prelude.{
  ℕ, String, Bool, true, false, not, ◌&&◌, ◌||◌, Option, none, some, get_or, if◌then◌else◌, ◌==◌,
}
use az_capa.Prelude.Int.{ℤ, pos, leb_ℤ, ltb_ℤ, sub_ℕ, neg_part, pos_part}
use az_capa.Json.{Json}
use az_capa.Scheduler.Registry.{try_get}
use az_capa.Scheduler.Registry.Descriptor.{PipelineDescriptor}
use az_capa.Scheduler.ConfigStore.{Config, Edit, Patched, patched, conflict}
use az_capa.Scheduler.ConfigStore
use az_capa.Scheduler.Dispatcher.Effects.{
  Error, config_update, http_error, Result, returned, raised, Env, World, Method, pure, raise,
  ◌>>=◌, ◌>>◌, now,
}

pub record EffectiveConfig : Type 0 where
  pub enabled : Bool
  pub frequency_seconds : ℤ
  pub anchor_seconds : ℤ
  pub revision : ℕ

module _ {F : Type 0} where
  abbrev pub merge_defaults : PipelineDescriptor → Option (Config F) → EffectiveConfig
  merge_defaults d none = record {
    enabled = d.default_enabled;
    frequency_seconds = pos d.default_frequency_seconds;
    anchor_seconds = pos d.default_anchor_seconds;
    revision = 0;
  }
  merge_defaults d (some raw) = record {
    enabled = get_or raw.enabled d.default_enabled;
    frequency_seconds = get_or raw.frequency_seconds (pos d.default_frequency_seconds);
    anchor_seconds = get_or raw.anchor_seconds (pos d.default_anchor_seconds);
    revision = get_or raw.revision 0;
  }

abbrev is_zero_ℤ : ℤ → Bool
is_zero_ℤ a = leb_ℤ a (pos 0) && leb_ℤ (pos 0) a

module _ (env : Env) where
  unfoldable pub effective_config : PipelineDescriptor → Method env EffectiveConfig
  effective_config d w =
      (returned (merge_defaults d (ConfigStore.get env.rt env.configs d.id w.config)), w)

  abbrev patch_answer :
      Patched env.configs.Store (Config env.rt.Float) → Method env (Config env.rt.Float)
  patch_answer (patched s config) w = (returned config, record w { config = s })
  patch_answer conflict w = (raised (config_update "stale_revision"), w)
  patch_answer (Patched.raised code) w = (raised (http_error code), w)

  -- The checks of an edit, in their order; `none` lets it through.
  unfoldable pub edit_error :
      Option PipelineDescriptor
      → (enabled : Bool) (frequency_seconds anchor_seconds : ℤ) → Option String
  edit_error none enabled frequency_seconds anchor_seconds = some "unknown_pipeline"
  edit_error (some d) enabled frequency_seconds anchor_seconds =
      if not enabled && not d.can_disable
      then some "cannot_disable"
      else if not (is_zero_ℤ frequency_seconds)
          && not (
              leb_ℤ env.min_frequency_seconds frequency_seconds
              && leb_ℤ frequency_seconds env.max_frequency_seconds)
      then some "invalid_frequency"
      else if ltb_ℤ anchor_seconds (pos 0) || leb_ℤ (pos 86400) anchor_seconds
      then some "invalid_anchor"
      else none

  abbrev checked : {A : Type 0} → Option String → Method env A → Method env A
  checked none m = m
  checked (some code) m = raise (config_update code)

  unfoldable pub update_config :
      (pipeline_id : String) (enabled : Bool) (frequency_seconds anchor_seconds : ℤ)
      (expected_revision : Option ℕ) (updated_by : Json env.rt.Float)
      → Method env (Config env.rt.Float)
  update_config pipeline_id enabled frequency_seconds anchor_seconds expected_revision updated_by =
      checked (edit_error (try_get pipeline_id) enabled frequency_seconds anchor_seconds) (do
        at ← now env
        (λ w.
            patch_answer
              (ConfigStore.patch env.rt env.configs pipeline_id
                (record {
                  enabled = enabled;
                  frequency_seconds = frequency_seconds;
                  anchor_seconds = anchor_seconds;
                  updated_by = updated_by;
                  updated_at = at;
                })
                expected_revision w.config)
              w))

  unfoldable pub reset_config : Method env ℕ
  reset_config w =
      let r = ConfigStore.clear env.rt env.configs w.config in
      (returned r.1, record w { config = r.0 })
