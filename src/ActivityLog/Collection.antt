-- ===== src/ActivityLog/Collection.antt =====
-- `resolve_plan` of `ActivityLogPipeline`, services/activity_log/pipeline.py. A moment is in whole
-- seconds: the formatted timestamps of the plan and of the stored coverage have no fraction, and a
-- difference of moments is taken after 1970. The scope, the stored coverage and the settings are
-- arguments; `none` is an exception, of a coverage without an end.
pub mod Windows
pub mod State
use az_capa.Prelude.{
  ℕ, ◌+◌, ◌-◌, ◌*◌, ◌/◌, String, Bool, true, false, not, ◌&&◌, ◌||◌, Option, none, some, List, [],
  ◌∷◌, map, str_eq, truthy, ltb, all, any, get_or, length, if◌then◌else◌, ◌==◌,
}
use az_capa.ActivityLog.Recipes.{server_operations}
use az_capa.ActivityLog.Recipes.Declared.{Recipe}

pub record Coverage : Type 0 where
  pub subscription_id : String
  pub coverage_start : Option ℕ
  pub coverage_end : Option ℕ
  pub enabled_recipe_ids : List String
  pub materialized_recipe_versions : List (String × ℕ)

pub record Settings : Type 0 where
  pub ingestion_lag_minutes : ℕ
  pub historical_days : ℕ
  pub refresh_overlap_hours : ℕ
  pub max_concurrency : ℕ
  pub replay_max_units : ℕ

pub record WorkUnit : Type 0 where
  pub subscription_id : String
  pub start : ℕ
  pub stop : ℕ
  pub coverage : Coverage

pub record CollectionPlan : Type 0 where
  pub action : String
  pub reason : String
  pub deletions : List String
  pub work_units : List WorkUnit
  pub operations : List String
  pub max_concurrency : ℕ
  pub replay_max_units : ℕ
  pub new_state : List Coverage

abbrev pub retention_days : ℕ
retention_days = 89

abbrev pub day_seconds : ℕ
day_seconds = 86400

abbrev pub later : ℕ → ℕ → ℕ
later a b = if ltb a b then b else a

abbrev pub earlier : ℕ → ℕ → ℕ
earlier a b = if ltb b a then b else a

unfoldable pub cutoff_of : Settings → (now : ℕ) → ℕ
cutoff_of settings now = now - settings.ingestion_lag_minutes * 60

abbrev pub retention_start : (cutoff : ℕ) → ℕ
retention_start cutoff = cutoff - retention_days * day_seconds

unfoldable pub historical_start : Settings → (cutoff : ℕ) → ℕ
historical_start settings cutoff =
    later (cutoff - settings.historical_days * day_seconds) (retention_start cutoff)

unfoldable pub recipe_versions : List Recipe → List (String × ℕ)
recipe_versions recipes = map (λ (r : Recipe). (r.id, r.version)) recipes

abbrev pub version_in : String → List (String × ℕ) → Option ℕ
version_in k [] = none
version_in k ((j, v) ∷ rest) = if str_eq j k then some v else version_in k rest

abbrev pub is_version : ℕ → Option ℕ → Bool
is_version v none = false
is_version v (some w) = v == w

-- `==` of two dicts
abbrev pub same_versions : List (String × ℕ) → List (String × ℕ) → Bool
same_versions a b =
    (length a == length b) && all (λ (kv : String × ℕ). is_version kv.1 (version_in kv.0 b)) a

abbrev pub same_texts : List String → List String → Bool
same_texts [] [] = true
same_texts (x ∷ xs) (y ∷ ys) = str_eq x y && same_texts xs ys
same_texts _ _ = false

abbrev pub or_found : Option Coverage → Coverage → Option Coverage
or_found none c = some c
or_found (some found) c = some found

-- `{cov["subscriptionId"]: cov for …}.get(…)`, the last one
abbrev pub coverage_by_sub : String → List Coverage → Option Coverage
coverage_by_sub id [] = none
coverage_by_sub id (c ∷ cs) =
    let rest = coverage_by_sub id cs in
    if str_eq c.subscription_id id then or_found rest c else rest

abbrev pub overlapped : Settings → (cutoff : ℕ) → Option ℕ → Option ℕ
overlapped settings cutoff none = none
overlapped settings cutoff (some stop) =
    some (later (stop - settings.refresh_overlap_hours * 3600) (retention_start cutoff))

abbrev pub prior_start : Option Coverage → (start : ℕ) → ℕ
prior_start none start = start
prior_start (some cov) start = get_or cov.coverage_start start

module _ (lower : String → String) (less : String → String → Bool) where
  abbrev pub insert_text : String → List String → List String
  insert_text s [] = s ∷ []
  insert_text s (x ∷ xs) = let rest = insert_text s xs in if less x s then x ∷ rest else s ∷ x ∷ xs

  -- `sorted(…)`
  abbrev pub sort_texts : List String → List String
  sort_texts [] = []
  sort_texts (x ∷ xs) = insert_text x (sort_texts xs)

  abbrev pub recipe_ids : List Recipe → List String
  recipe_ids recipes = sort_texts (map (λ (r : Recipe). r.id) recipes)

  unfoldable pub drift : List Recipe → Coverage → Bool
  unfolding recipe_versions
  drift recipes cov =
      not (same_versions cov.materialized_recipe_versions (recipe_versions recipes))
      || not (same_texts (sort_texts cov.enabled_recipe_ids) (recipe_ids recipes))

  -- `start_dt`
  unfoldable pub start_of : Settings → (cutoff : ℕ) → List Recipe → Option Coverage → Option ℕ
  unfolding drift historical_start
  start_of settings cutoff recipes none = some (historical_start settings cutoff)
  start_of settings cutoff recipes (some cov) =
      if drift recipes cov
      then some (historical_start settings cutoff)
      else overlapped settings cutoff cov.coverage_end

  unfoldable pub unit_from :
      (cutoff : ℕ) → List Recipe → Option Coverage → String → Option ℕ → Option WorkUnit
  unfolding recipe_versions
  unit_from cutoff recipes cov id none = none
  unit_from cutoff recipes cov id (some start) = some record {
    subscription_id = id;
    start = start;
    stop = cutoff;
    coverage = record {
      subscription_id = id;
      coverage_start = some (earlier (prior_start cov start) start);
      coverage_end = some cutoff;
      enabled_recipe_ids = recipe_ids recipes;
      materialized_recipe_versions = recipe_versions recipes;
    };
  }

  unfoldable pub work_unit :
      Settings → (cutoff : ℕ) → List Recipe → List Coverage → String → Option WorkUnit
  unfolding start_of unit_from
  work_unit settings cutoff recipes coverage id =
      let cov = coverage_by_sub id coverage in
      unit_from cutoff recipes cov id (start_of settings cutoff recipes cov)

  abbrev pub cons_unit : Option WorkUnit → Option (List WorkUnit) → Option (List WorkUnit)
  cons_unit (some u) (some us) = some (u ∷ us)
  cons_unit _ _ = none

  unfoldable pub work_units :
      Settings → (cutoff : ℕ) → List Recipe → List Coverage → List String → Option (List WorkUnit)
  unfolding work_unit
  work_units settings cutoff recipes coverage [] = some []
  work_units settings cutoff recipes coverage (id ∷ ids) =
      cons_unit (work_unit settings cutoff recipes coverage id)
        (work_units settings cutoff recipes coverage ids)

  -- Whether a subscription is added or reconciled.
  unfoldable pub changes : List Recipe → Option Coverage → Bool
  unfolding drift
  changes recipes none = true
  changes recipes (some cov) = drift recipes cov

  abbrev pub plan_reason : List Recipe → List Coverage → List String → String
  plan_reason recipes [] ids = "initial-full"
  plan_reason recipes (c ∷ cs) ids =
      if any (λ id. changes recipes (coverage_by_sub id (c ∷ cs))) ids
      then "reconcile"
      else "refresh"

  unfoldable pub plan_of :
      Settings → List Recipe → List Coverage → List String → List WorkUnit → CollectionPlan
  unfolding changes server_operations
  plan_of settings recipes coverage ids units = record {
    action = if length units == 0 then "noop" else "load";
    reason = plan_reason recipes coverage ids;
    deletions = [];
    work_units = units;
    operations = server_operations lower less recipes;
    max_concurrency = settings.max_concurrency;
    replay_max_units = settings.replay_max_units;
    new_state = map (λ (u : WorkUnit). u.coverage) units;
  }

  abbrev pub with_units :
      Settings
      → List Recipe
      → List Coverage
      → List String
      → Option (List WorkUnit)
      → Option CollectionPlan
  with_units settings recipes coverage ids none = none
  with_units settings recipes coverage ids (some units) =
      some (plan_of settings recipes coverage ids units)

  unfoldable pub resolve_plan :
      Settings
      → (now : ℕ) → List Recipe
      → List Coverage
      → (subs : List String) → Option CollectionPlan
  unfolding work_units plan_of cutoff_of
  resolve_plan settings now recipes coverage subs =
      let ids = sort_texts subs in
      with_units settings recipes coverage ids
        (work_units settings (cutoff_of settings now) recipes coverage ids)
