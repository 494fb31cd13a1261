-- ===== src/ZoneMapping/Complete.antt =====
-- Which mappings are stored after a refresh of zone mappings, services/zone_mapping.py.
use mathlib.Core.Path.{subst}
use az_capa.Prelude.{
  ℕ, String, ◌≡◌, refl, sym, ◌∙◌, Bool, true, false, not, ◌&&◌, ◌||◌, Option, none, some, is_some,
  some_inj, List, [], ◌∷◌, ◌++◌, map, contains, contains-append, contains-filter,
  contains-sorted_set, sorted_set, arith, Bool-cases, inl, inr,
}
use az_capa.ZoneMapping.{
  State, Listing, RefreshPlan, load, minus, subs_of, regions_of, is_nonempty, new_regions, targets,
  deletions, plan_of, resolve_plan, from_first, probed_plan, ok, throttled, refused,
}

load_inj : {p q : RefreshPlan} → load p ≡ load q → p ≡ q
load_inj e = cc

contains-nonempty : (xs : List String) (s : String) → contains xs s ≡ true → is_nonempty xs ≡ true
contains-nonempty [] s h = absurd (cc h)
contains-nonempty (x ∷ xs) s h = refl

module _ (less : String → String → Bool) where
  contains-minus :
      (xs ys : List String) (s : String)
      → contains (sorted_set less (minus xs ys)) s ≡ (contains xs s && not (contains ys s))
  contains-minus xs ys s =
      contains-sorted_set less s (minus xs ys) ∙ contains-filter (λ x. not (contains ys x)) xs s

  -- A subscription whose mapping is stored after the plan: one that is kept or that is read.
  abbrev pub is_stored : Option State → RefreshPlan → String → Bool
  is_stored state plan s =
      (contains (subs_of state) s && not (contains plan.deletions s)) || contains plan.work_units s

  -- A region that the stored state does not know.
  abbrev pub is_unknown : Option State → List String → String → Bool
  is_unknown state probed r = contains probed r && not (contains (regions_of state) r)

  settled : (p c : Bool) → ((p && not (p && not c)) || (c && not p)) ≡ c
  settled p c = ground arith

  settled_full : (p c : Bool) → ((p && not (p && not c)) || c) ≡ c
  settled_full p c = ground arith

  targets-stored :
      (state : Option State) (current probed : List String) (s : String)
      → ((contains (subs_of state) s && not (contains (deletions less state current) s))
          || contains (targets less state current probed) s)
        ≡ contains current s
  unfolding targets deletions
  targets-stored state current probed s =
      elim (Bool-cases (not (is_some state) || is_nonempty (new_regions less state probed))) [
        | inl full ↦
            rw (full, contains-minus (subs_of state) current s, contains-sorted_set less s current)
              (settled_full (contains (subs_of state) s) (contains current s))
        | inr partial ↦
            rw
              (
                partial,
                contains-minus (subs_of state) current s,
                contains-minus current (subs_of state) s,
              )
              (settled (contains (subs_of state) s) (contains current s))
      ]

  -- An unknown region makes every subscription a target.
  unknown-targets :
      (state : Option State) (current probed : List String) (r s : String)
      → is_unknown state probed r ≡ true
      → contains (targets less state current probed) s ≡ contains current s
  unfolding targets new_regions
  unknown-targets none current probed r s h = contains-sorted_set less s current
  unknown-targets (some state) current probed r s h =
      rw
        (contains-nonempty (minus probed state.known_regions) r
          (contains-filter (λ x. not (contains state.known_regions x)) probed r ∙ h))
        (contains-sorted_set less s current)

  module _ {Zones : Type 0} (max_concurrency : ℕ) (locations : String → Listing Zones) where
    -- What a plan leaves stored, and what it stores again.
    abbrev pub IsComplete : Option State → (current : List String) → RefreshPlan → Type 0
    IsComplete state current plan =
        ((s : String) → is_stored state plan s ≡ contains current s)
        × ((r s : String)
            → contains plan.new_state.known_regions r ≡ true
            → contains (regions_of state) r ≡ false
            → contains plan.work_units s ≡ contains current s)

    plan_of-IsComplete :
        (state : Option State) (current probed : List String)
        → IsComplete state current (plan_of less max_concurrency state current probed)
    unfolding plan_of
    plan_of-IsComplete state current probed = (
      λ s. targets-stored state current probed s,
      λ r s known fresh.
          let k : (contains (regions_of state) r || contains probed r) ≡ true =
            sym (contains-append (regions_of state) probed r)
            ∙ (sym (contains-sorted_set less r (regions_of state ++ probed)) ∙ known) in
          unknown-targets state current probed r s (ground (arith, k, fresh)),
    )

    probed_plan-IsComplete :
        (state : Option State) (current : List String) (probe_sub : String) (l : Listing Zones)
        (plan : RefreshPlan)
        → probed_plan less max_concurrency state current probe_sub l ≡ load plan
        → IsComplete state current plan
    probed_plan-IsComplete state current probe_sub (ok regions) plan e =
        subst (λ p. IsComplete state current p) (load_inj e)
          (plan_of-IsComplete state current (map (λ r. r.0) regions))
    probed_plan-IsComplete state current probe_sub (throttled t n) plan e = absurd (cc e)
    probed_plan-IsComplete state current probe_sub (refused error) plan e = absurd (cc e)

    -- After a plan is carried out exactly the subscriptions of the scope have a stored mapping; and
    -- when a region becomes known that was not, every subscription of the scope is read again.
    pub resolve_plan-IsComplete :
        (state : Option State) (current : List String) (plan : RefreshPlan)
        → resolve_plan less max_concurrency locations state current ≡ some (load plan)
        → IsComplete state current plan
    unfolding resolve_plan
    resolve_plan-IsComplete state current plan e = first_case (sorted_set less current) e
      where
        first_case :
            (ordered : List String)
            → from_first less max_concurrency locations state current ordered ≡ some (load plan)
            → IsComplete state current plan
        first_case [] e = absurd (cc e)
        first_case (probe_sub ∷ rest) e =
            probed_plan-IsComplete state current probe_sub (locations probe_sub) plan (some_inj e)
