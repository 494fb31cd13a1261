-- ===== src/UsageRefresh/Coverage/Kept.antt =====
-- A load plan keeps the promise of the state that it stores; the rebuild of the projection does not.
use az_capa.Prelude.{
  ℕ, ◌+◌, ◌≤◌, ◌<◌, String, ◌≡◌, refl, Bool, true, false, not, ◌&&◌, ◌||◌, Option, none, some,
  some_inj, List, [], ◌∷◌, contains, any, arith, Bool-cases, Option-cases, inl, inr, ltb,
}
use az_capa.UsageRefresh.Scope.{Scope, State, scope_conflict, Printer}
use az_capa.UsageRefresh.Units.{WorkUnit, units_of_loads, Load}
use az_capa.UsageRefresh.Plan.{
  Loading, LoadPlan, load, projection_is_current, maximum, initial_loading, historical_start,
  next_loading, forward_loading, plan_of, initial_from, resolve_plan, days_before,
  projection_loading,
}
use az_capa.UsageRefresh.Coverage.{
  Dataset, covers, within, implies, Holds, load_reads, Suffices, subset_loading-Suffices,
  profile_loading-Suffices,
}
use az_capa.UsageRefresh.Coverage.Units.{
  IsReader, unit_reads, units_of_loads-read, one_load-days, unit_days,
}

load_inj : {F : Type 0} {a b : LoadPlan F} → some (load a) ≡ some (load b) → a ≡ b
load_inj h = cc

days_before-some : (day n x : ℕ) → days_before day n ≡ some x → x + n ≡ day
unfolding days_before
days_before-some day n x h = elim (Bool-cases (ltb n day)) [
  | inl later ↦ let e = some_inj (rw later at h) in ground (arith, e)
  | inr early ↦ absurd (cc (rw early at h))
]

promised :
    (c : Bool) (start stop W d : ℕ)
    → c ≡ true
    → start ≤ d
    → d + 29 < W
    → (c && within start (maximum stop W) d) ≡ true
promised c start stop W d h k l = ground arith

none_that_early :
    (a : Bool) (first start W d : ℕ)
    → start + 29 ≡ W
    → d + 29 < W
    → implies a (within (maximum first start) W d) ≡ true
    → a ≡ false
none_that_early a first start W d e l h = ground arith

module _ (less : String → String → Bool) (print : Printer) (quote : String → String)
    {Filter : Type 0} (build_filter : Option (List String) → Filter) (keeps_summary : Bool)
    (reads : WorkUnit Filter → String → Bool) where
  -- The dataset once the rows of the deletions are gone and every unit was read.
  abbrev pub executed : LoadPlan Filter → Dataset → Dataset
  executed plan rows s d =
      (rows s d && not (contains plan.deletions s))
      || any (unit_reads quote build_filter reads s d) plan.work_units

  -- What the stored state has to promise for the next plan.
  abbrev pub Ready : ℕ → Option State → Dataset → Type 0
  Ready W none rows = Unit
  Ready W (some state) rows =
      (projection_is_current keeps_summary state ≡ true)
      × (state.coverage_end ≤ W)
      × Holds state rows

  kept :
      (n a b c : Bool) → implies n (a || b) ≡ true → implies b c ≡ true → implies n (a || c) ≡ true
  kept n a b c h k = ground arith

  initial-Suffices :
      (subs : Option (List String)) (start W : ℕ) (rows : Dataset)
      → Suffices subs (initial_loading subs start W) rows
  initial-Suffices subs start W rows s d = ground arith

  forward-Suffices :
      (state : State) (P N : Option (List String)) (W : ℕ) (rows : Dataset) (loading : Loading)
      → state.scope.subs ≡ P
      → Holds state rows
      → state.coverage_end ≤ W
      → forward_loading less state P N W ≡ some loading
      → Suffices N loading rows
  forward-Suffices state none none W rows loading e holds fits h =
      rw (← some_inj h) (profile_loading-Suffices state W rows e holds)
  forward-Suffices state (some P) (some N) W rows loading e holds fits h =
      rw (← some_inj h) (subset_loading-Suffices less state P N W rows e holds fits)
  forward-Suffices state none (some N) W rows loading e holds fits h = absurd (cc h)
  forward-Suffices state (some P) none W rows loading e holds fits h = absurd (cc h)

  initial_only :
      (scope : Scope) (W : ℕ) (start : Option ℕ) (loading : Loading) (rows : Dataset)
      → initial_from less print quote build_filter keeps_summary scope W start ≡ some loading
      → Suffices scope.subs loading rows
  initial_only scope W none loading rows h = absurd (cc h)
  initial_only scope W (some start) loading rows h =
      rw (← some_inj h) (initial-Suffices scope.subs start W rows)

  next_loading-current :
      (state : State) (scope : Scope) (W : ℕ) (loading : Loading)
      → projection_is_current keeps_summary state ≡ true
      → next_loading less keeps_summary state scope W ≡ some loading
      → forward_loading less state state.scope.subs scope.subs W ≡ some loading
  unfolding next_loading
  next_loading-current state scope W loading current h = rw current at h

  module _ (reader : IsReader quote build_filter reads) where
    plan_of-Holds :
        (scope : Scope) (agreement : String) (o : Option Loading) (rows : Dataset)
        (plan : LoadPlan Filter)
        → ((loading : Loading) → o ≡ some loading → Suffices scope.subs loading rows)
        → plan_of less print quote build_filter keeps_summary scope agreement o ≡ some (load plan)
        → Holds plan.new_state (executed plan rows)
    plan_of-Holds scope agreement none rows plan suffices h = absurd (cc h)
    plan_of-Holds scope agreement (some loading) rows plan suffices h =
        elim (Option-cases (units_of_loads quote build_filter scope loading.loads)) [
          | inl failed ↦ absurd (cc (rw failed at h))
          | inr (us, built) ↦ rw (← load_inj (rw built at h)) (λ s d.
              kept (covers scope.subs s && within loading.coverage_start loading.coverage_end d)
                (rows s d && not (contains loading.deletions s))
                (any (λ (l : Load). load_reads l s d) loading.loads)
                (any (unit_reads quote build_filter reads s d) us) (suffices loading refl s d)
                (units_of_loads-read quote build_filter reads reader scope loading.loads us s d
                  built))
        ]

    -- A plan that loads, from no stored state or from one whose projection is current and whose
    -- coverage does not end after the last finalized day: once its deletions are made and its units
    -- read, the dataset has every day that the plan's new state promises, for every one of its
    -- subscriptions, if it had those of the stored state before.
    pub resolve_plan-Holds :
        (scope : Scope) (agreement : String) (W historical_days : ℕ) (stored : Option State)
        (rows : Dataset) (plan : LoadPlan Filter)
        → Ready W stored rows
        → resolve_plan less print quote build_filter keeps_summary scope agreement W historical_days
            stored
          ≡ some (load plan)
        → Holds plan.new_state (executed plan rows)
    unfolding resolve_plan
    resolve_plan-Holds scope agreement W historical_days none rows plan ready h =
        plan_of-Holds scope agreement
          (initial_from less print quote build_filter keeps_summary scope W
            (historical_start W historical_days))
          rows plan
          (λ loading e. initial_only scope W (historical_start W historical_days) loading rows e) h
    resolve_plan-Holds scope agreement W historical_days (some state) rows plan
          (current, fits, holds) h =
        elim (Option-cases (scope_conflict state scope)) [
          | inr (conflict, found) ↦ absurd (cc (rw found at h))
          | inl fine ↦
              plan_of-Holds scope agreement (next_loading less keeps_summary state scope W) rows
                plan
                (λ loading e.
                  forward-Suffices state state.scope.subs scope.subs W rows loading refl holds fits
                    (next_loading-current state scope W loading current e))
                (rw fine at h)
        ]

  -- A rebuild of the projection promises more than it reads. For a stored state whose projection is
  -- not current and a scope without conflict: the plan deletes nothing and its new state promises
  -- every subscription of the scope on every day from the stored start, but no unit of it reads a day
  -- more than 29 days before the last finalized one, also for a subscription that is new.
  pub resolve_plan-projection_gap :
      (scope : Scope) (agreement : String) (W historical_days : ℕ) (state : State)
      (plan : LoadPlan Filter) (s : String) (d : ℕ)
      → projection_is_current keeps_summary state ≡ false
      → scope_conflict state scope ≡ none
      → resolve_plan less print quote build_filter keeps_summary scope agreement W historical_days
          (some state)
        ≡ some (load plan)
      → covers scope.subs s ≡ true
      → state.coverage_start ≤ d
      → d + 29 < W
      → (plan.deletions ≡ [])
        × ((covers plan.new_state.scope.subs s
              && within plan.new_state.coverage_start plan.new_state.coverage_end d)
            ≡ true)
        × (any (λ (u : WorkUnit Filter). within u.start u.stop d) plan.work_units ≡ false)
  unfolding resolve_plan next_loading projection_loading
  resolve_plan-projection_gap scope agreement W historical_days state plan s d stale fine h covered
        from old =
      elim (Option-cases (days_before W 29)) [
        | inl early ↦ absurd (cc (rw (fine, stale, early) at h))
        | inr (start, counted) ↦
            let l : Load = record {
              subs = scope.subs;
              start = maximum state.coverage_start start;
              stop = W;
            } in
            elim (Option-cases (units_of_loads quote build_filter scope (l ∷ []))) [
              | inl failed ↦ absurd (cc (rw (fine, stale, counted, failed) at h))
              | inr (us, built) ↦
                  let late = days_before-some W 29 start counted in
                  let days = one_load-days quote build_filter scope l us d built in
                  rw (← load_inj (rw (fine, stale, counted, built) at h)) (
                    refl,
                    promised (covers scope.subs s) state.coverage_start state.coverage_end W d
                        covered from old,
                    none_that_early (any (unit_days quote build_filter d) us) state.coverage_start
                        start W d late old days,
                  )
            ]
      ]
