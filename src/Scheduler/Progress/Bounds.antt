-- ===== src/Scheduler/Progress/Bounds.antt =====
-- The reports of `normalize_progress` (services/data_collection/dispatcher.py) are in range.
use az_capa.Prelude.{
  ◌≡◌, false, Option, some, arith, Bool-cases, is_some, if◌then◌else◌, some_inj, ◌||◌, inl, inr,
}
use az_capa.Json.{Json, int, float, obj, Runtime, lookup}
use az_capa.Scheduler.Progress.{Progress, clamp, clamp01, percent_complete, normalize_progress}

module _ (rt : Runtime) where
  -- Neither below 0 nor above 1.
  abbrev pub InRange : rt.Float → Type 0
  InRange x = (rt.less x rt.zero_float ≡ false) × (rt.less rt.one_float x ≡ false)

  clamp-InRange : (x : rt.Float) → InRange (clamp rt x)
  clamp-InRange x =
      let low : rt.Float = if rt.less x rt.one_float then x else rt.one_float in
      ground (
        arith,
        rt.less_asymm x rt.one_float,
        rt.less_asymm rt.zero_float rt.one_float rt.zero-less-one,
        rt.less_asymm rt.one_float rt.one_float,
        rt.less_asymm rt.zero_float rt.zero_float,
        rt.less_asymm rt.zero_float x,
        rt.less_asymm rt.one_float rt.zero_float,
      )

  clamp01-InRange : (v : Option (Json rt.Float)) {x : rt.Float} → clamp01 rt v ≡ some x → InRange x
  unfolding clamp01
  clamp01-InRange (some (int i)) h = rw (← some_inj h) (clamp-InRange (rt.of_int i))
  clamp01-InRange (some (float y)) h = rw (← some_inj h) (clamp-InRange y)
  clamp01-InRange _ h = cc

  percent_complete-InRange :
      (v : Option (Json rt.Float)) {x : rt.Float} → percent_complete rt v ≡ some x → InRange x
  percent_complete-InRange (some (int i)) h =
      rw (← some_inj h) (clamp-InRange (rt.percent_of_int i))
  percent_complete-InRange (some (float y)) h =
      rw (← some_inj h) (clamp-InRange (rt.percent_of_float y))
  percent_complete-InRange _ h = cc

  -- Whatever custom status a pipeline reports, of either recognised shape and also where it is not
  -- a number or no finite one: the share that `normalize_progress` reports as complete is neither
  -- below 0 nor above 1.
  pub normalize_progress-InRange :
      (j : Json rt.Float) (p : Progress rt.Float) (x : rt.Float)
      → normalize_progress rt j ≡ some p
      → p.complete ≡ some x
      → InRange x
  unfolding normalize_progress
  normalize_progress-InRange (obj fs) p x h e =
      elim (Bool-cases (is_some (lookup "complete" fs) || is_some (lookup "label" fs))) [
        | inl common ↦ clamp01-InRange (lookup "complete" fs) (ground arith)
        | inr other ↦ elim (Bool-cases (is_some (lookup "percentCompleted" fs))) [
          | inl counts ↦ percent_complete-InRange (lookup "percentCompleted" fs) (ground arith)
          | inr neither ↦ ground arith
        ]
      ]
  normalize_progress-InRange _ p x h e = cc
