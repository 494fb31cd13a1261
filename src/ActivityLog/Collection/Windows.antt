-- ===== src/ActivityLog/Collection/Windows.antt =====
-- Which moments a plan of the Activity Log promises and which it reads,
-- services/activity_log/pipeline.py.
use az_capa.Prelude.{
  ℕ, ◌-◌, ◌*◌, ◌≤◌, ◌<◌, String, ◌≡◌, ◌⊎◌, inl, inr, refl, Bool, Option, none, some, List, [], ◌∷◌,
  map, arith, get_or, Bool-cases, some_inj, if◌then◌else◌,
}
use az_capa.ActivityLog.Recipes.Declared.{Recipe}
use az_capa.ActivityLog.Collection.{
  Coverage, Settings, WorkUnit, CollectionPlan, cutoff_of, retention_start, historical_start, drift,
  start_of, prior_start, unit_from, work_unit, work_units, cons_unit, coverage_by_sub, changes,
  later, earlier, overlapped, resolve_plan, with_units, plan_of, sort_texts,
}

-- The moment lies from a start, if there is one, to an end, if there is one.
abbrev pub Between : Option ℕ → Option ℕ → ℕ → Type 0
Between (some a) (some b) t = (a ≤ t) × (t ≤ b)
Between _ _ t = ⊥

abbrev pub Promises : Coverage → ℕ → Type 0
Promises c t = Between c.coverage_start c.coverage_end t

abbrev pub Promised : Option Coverage → ℕ → Type 0
Promised none t = ⊥
Promised (some c) t = Promises c t

-- Where the windows of subscriptions that are not promised all of it begin.
overlap_cases :
    (settings : Settings) (cutoff : ℕ) (a stop : Option ℕ) (start : ℕ)
    → overlapped settings cutoff stop ≡ some start
    → (t : ℕ) → earlier (get_or a start) start ≤ t
    → (start ≤ t) ⊎ (Between a stop t ⊎ (t < retention_start cutoff))
overlap_cases settings cutoff a none start e t h = absurd (cc e)
overlap_cases settings cutoff none (some stop) start e t h = inl (ground arith)
overlap_cases settings cutoff (some a) (some stop) start e t h =
    let s = some_inj e in
    overlap_arith a stop (settings.refresh_overlap_hours * 3600) (retention_start cutoff) start t s
      h
  where
    overlap_arith :
        (a stop overlap retention start t : ℕ)
        → later (stop - overlap) retention ≡ start
        → earlier a start ≤ t
        → (start ≤ t) ⊎ (((a ≤ t) × (t ≤ stop)) ⊎ (t < retention))
    overlap_arith a stop overlap retention start t s h = ground arith

module _ (lower : String → String) (less : String → String → Bool) (settings : Settings)
    (cutoff : ℕ) (recipes : List Recipe) where
  -- Where reading begins for a subscription of which no end is recorded for these recipes, or only
  -- an old one.
  abbrev pub floor_of : Option Coverage → ℕ
  floor_of cov =
      if changes lower less recipes cov
      then historical_start settings cutoff
      else retention_start cutoff

  abbrev Joined : Option Coverage → (start t : ℕ) → Type 0
  Joined cov start t = (start ≤ t) ⊎ (Promised cov t ⊎ (t < floor_of cov))

  le_or_lt : (a b : ℕ) → (a ≤ b) ⊎ (b < a)
  le_or_lt a b = omega arith

  start_of-Joined :
      (cov : Option Coverage) (start : ℕ)
      → start_of lower less settings cutoff recipes cov ≡ some start
      → (t : ℕ) → earlier (prior_start cov start) start ≤ t
      → Joined cov start t
  unfolding start_of changes
  start_of-Joined none start e t h = inl (ground arith)
  start_of-Joined (some cov) start e t h = elim (Bool-cases (drift lower less recipes cov)) [
    | inl drifted ↦
        let s : historical_start settings cutoff ≡ start = some_inj (rw drifted at e) in
        elim (le_or_lt start t) [
          | inl after ↦ inl after
          | inr before ↦ rw drifted (inr (inr (rw s before)))
        ]
    | inr same ↦
        rw same (
          overlap_cases settings cutoff cov.coverage_start cov.coverage_end start (rw same at e) t
            h)
  ]

  -- A unit is of a subscription, ends at the cut-off, and reads what its coverage promises, but for
  -- what was promised before and what lies before the floor.
  abbrev pub IsWindow : Option Coverage → String → WorkUnit → Type 0
  IsWindow cov id u =
      (u.subscription_id ≡ id)
      × (u.coverage.subscription_id ≡ id)
      × ((t : ℕ)
          → Promises u.coverage t
          → ((u.start ≤ t) × (t ≤ u.stop)) ⊎ (Promised cov t ⊎ (t < floor_of cov)))

  with_stop :
      (cov : Option Coverage) (start t : ℕ)
      → t ≤ cutoff
      → Joined cov start t
      → ((start ≤ t) × (t ≤ cutoff)) ⊎ (Promised cov t ⊎ (t < floor_of cov))
  with_stop cov start t k (inl after) = inl (after, k)
  with_stop cov start t k (inr rest) = inr rest

  unit_from-IsWindow :
      (cov : Option Coverage) (id : String) (o : Option ℕ) (u : WorkUnit)
      → start_of lower less settings cutoff recipes cov ≡ o
      → unit_from lower less cutoff recipes cov id o ≡ some u
      → IsWindow cov id u
  unfolding unit_from
  unit_from-IsWindow cov id none u e k = absurd (cc k)
  unit_from-IsWindow cov id (some start) u e k =
      rw (← some_inj k)
        (refl, refl, λ t (h, stop). with_stop cov start t stop (start_of-Joined cov start e t h))

  -- The units of the subscriptions, one each and in their order.
  abbrev pub AreWindows : List Coverage → List String → List WorkUnit → Type 0
  AreWindows coverage [] [] = Unit
  AreWindows coverage (id ∷ ids) (u ∷ us) =
      IsWindow (coverage_by_sub id coverage) id u × AreWindows coverage ids us
  AreWindows coverage _ _ = ⊥

  work_units-AreWindows :
      (coverage : List Coverage) (ids : List String) (units : List WorkUnit)
      → work_units lower less settings cutoff recipes coverage ids ≡ some units
      → AreWindows coverage ids units
  unfolding work_units work_unit
  work_units-AreWindows coverage [] units e = rw (← some_inj e) tt
  work_units-AreWindows coverage (id ∷ ids) units e =
      cons_case
        (unit_from lower less cutoff recipes (coverage_by_sub id coverage) id
          (start_of lower less settings cutoff recipes (coverage_by_sub id coverage)))
        (work_units lower less settings cutoff recipes coverage ids) refl
        (λ us es. work_units-AreWindows coverage ids us es) e
    where
      cons_case :
          (o : Option WorkUnit) (os : Option (List WorkUnit))
          → unit_from lower less cutoff recipes
              (coverage_by_sub id coverage)
              id
              (start_of lower less settings cutoff recipes (coverage_by_sub id coverage))
            ≡ o
          → ((us : List WorkUnit) → os ≡ some us → AreWindows coverage ids us)
          → cons_unit lower less o os ≡ some units
          → AreWindows coverage (id ∷ ids) units
      cons_case (some u) (some us) eu es e = rw (← some_inj e) (
        unit_from-IsWindow (coverage_by_sub id coverage) id
            (start_of lower less settings cutoff recipes (coverage_by_sub id coverage)) u refl eu,
        es us refl,
      )
      cons_case none os eu es e = absurd (cc e)
      cons_case (some u) none eu es e = absurd (cc e)

-- A plan has one unit for each subscription of the scope, in sorted order, and stores the coverage of
-- its units. A moment that a stored coverage promises is read by the unit, or was promised before,
-- or lies before the floor: the start of the retention, and for a subscription that is new or whose
-- recipes changed the historical start.
pub resolve_plan-AreWindows :
    (lower : String → String) (less : String → String → Bool) (settings : Settings) (now : ℕ)
    (recipes : List Recipe) (coverage : List Coverage) (subs : List String) (plan : CollectionPlan)
    → resolve_plan lower less settings now recipes coverage subs ≡ some plan
    → AreWindows lower less settings
        (cutoff_of settings now)
        recipes
        coverage
        (sort_texts lower less subs)
        plan.work_units
      × (plan.new_state ≡ map (λ (u : WorkUnit). u.coverage) plan.work_units)
unfolding resolve_plan plan_of
resolve_plan-AreWindows lower less settings now recipes coverage subs plan e =
    of_units
      (work_units lower less settings (cutoff_of settings now) recipes coverage
        (sort_texts lower less subs))
      refl e
  where
    of_units :
        (o : Option (List WorkUnit))
        → work_units lower less settings
            (cutoff_of settings now)
            recipes
            coverage
            (sort_texts lower less subs)
          ≡ o
        → with_units lower less settings recipes coverage (sort_texts lower less subs) o ≡ some plan
        → AreWindows lower less settings
            (cutoff_of settings now)
            recipes
            coverage
            (sort_texts lower less subs)
            plan.work_units
          × (plan.new_state ≡ map (λ (u : WorkUnit). u.coverage) plan.work_units)
    of_units none eu e = absurd (cc e)
    of_units (some units) eu e = rw (← some_inj e) (
      work_units-AreWindows lower less settings (cutoff_of settings now) recipes coverage
          (sort_texts lower less subs) units eu,
      refl,
    )
