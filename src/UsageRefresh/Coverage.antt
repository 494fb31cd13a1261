-- ===== src/UsageRefresh/Coverage.antt =====
-- What a stored state promises of the usage rows, and that a load plan keeps it: the plans of
-- services/usage_refresh.py against an abstract dataset, which says for each subscription and day
-- whether its usage was read.
pub mod Units
pub mod Kept
use az_capa.Prelude.{
  ℕ, ◌+◌, ◌-◌, ◌≤◌, ◌<◌, String, ◌≡◌, ◌⊎◌, refl, ap, sym, ◌∙◌, Bool, true, false, not, ◌&&◌, ◌||◌,
  Option, none, some, some_inj, List, [], ◌∷◌, str_eq, str_eq_iff, ltb, leb, contains, any,
  sorted_set, contains-sorted_set, filter, contains-filter, arith, Bool-cases, Option-cases, inl,
  inr, if◌then◌else◌, or-left, or-right,
}
use az_capa.Prelude as Prelude
use az_capa.UsageRefresh.Scope.{
  Scope, State, Conflict, scope_conflict, Printer, method_per_sub, method_per_billing,
}
use az_capa.UsageRefresh.Units.{
  Load, WorkUnit, unit_at, work_units, subscription_units, units_per_sub, one_unit, build_scope,
  cons_unit,
}
use az_capa.UsageRefresh.Plan.{
  Loading, LoadPlan, Plan, load, fail, projection_is_current, maximum, load_if, subset_loads,
  difference, intersection, initial_loading, historical_start, next_loading, projection_loading,
  profile_loading, subset_loading, forward_loading, new_state, plan_of, plan_with, initial_from,
  resolve_plan, days_before, unless_conflict, refused,
}

-- `Dataset s d`: the usage of subscription `s` on day `d` was read.
abbrev pub Dataset : Type 0
Dataset = String → ℕ → Bool

abbrev pub covers : Option (List String) → String → Bool
covers none s = true
covers (some ss) s = contains ss s

abbrev pub within : (start stop d : ℕ) → Bool
within start stop d = leb start d && leb d stop

-- `a` implies `b`
abbrev pub implies : Bool → Bool → Bool
implies a b = not a || b

-- The state promises every day of its range, for each of its subscriptions.
abbrev pub Holds : State → Dataset → Type 0
Holds state rows =
    (s : String) (d : ℕ)
    → implies (covers state.scope.subs s && within state.coverage_start state.coverage_end d)
        (rows s d)
      ≡ true

abbrev pub load_reads : Load → String → ℕ → Bool
load_reads l s d = covers l.subs s && within l.start l.stop d

pub any-append :
    {A : Type 0} (p : A → Bool) (xs ys : List A)
    → any p (Prelude.◌++◌ xs ys) ≡ (any p xs || any p ys)
any-append p [] ys = refl
any-append p (x ∷ xs) ys = ground (arith, any-append p xs ys)

contains-difference :
    (less : String → String → Bool) (xs ys : List String) (s : String)
    → contains (difference less xs ys) s ≡ (contains xs s && not (contains ys s))
contains-difference less xs ys s =
    contains-sorted_set less s (filter (λ t. not (contains ys t)) xs)
    ∙ contains-filter (λ t. not (contains ys t)) xs s

contains-intersection :
    (less : String → String → Bool) (xs ys : List String) (s : String)
    → contains (intersection less xs ys) s ≡ (contains xs s && contains ys s)
contains-intersection less xs ys s =
    contains-sorted_set less s (filter (contains ys) xs) ∙ contains-filter (contains ys) xs s

any-load_if :
    (t : Bool) (ss : List String) (start stop : ℕ) (rest : List Load) (s : String) (d : ℕ)
    → any (λ l. load_reads l s d) (load_if t ss start stop rest)
      ≡ ((t && (contains ss s && within start stop d)) || any (λ l. load_reads l s d) rest)
any-load_if true [] start stop rest s d = refl
any-load_if true (x ∷ xs) start stop rest s d = refl
any-load_if false ss start stop rest s d = refl

-- The days a loading leaves unread of what its state promises are those that were there.
abbrev pub Suffices : Option (List String) → Loading → Dataset → Type 0
Suffices subs loading rows =
    (s : String) (d : ℕ)
    → implies (covers subs s && within loading.coverage_start loading.coverage_end d) (
        (rows s d && not (contains loading.deletions s))
        || any (λ l. load_reads l s d) loading.loads)
      ≡ true

forward :
    (p n r : Bool) (start stop W d : ℕ)
    → stop ≤ W
    → implies (p && within start stop d) r ≡ true
    → implies (n && within start (maximum stop W) d) (
        (r && not (p && not n))
        || ((true && ((n && not p) && within start W d))
            || ((ltb stop W && ((n && p) && within (stop + 1) W d)) || false)))
      ≡ true
forward p n r start stop W d fits h = ground arith

subset_loading-Suffices :
    (less : String → String → Bool) (state : State) (P N : List String) (W : ℕ) (rows : Dataset)
    → state.scope.subs ≡ some P
    → Holds state rows
    → state.coverage_end ≤ W
    → Suffices (some N) (subset_loading less state P N W) rows
unfolding subset_loading
subset_loading-Suffices less state P N W rows e holds fits s d =
    rw
      (
        contains-difference less P N s,
        any-load_if true (difference less N P) state.coverage_start W
            (load_if (ltb state.coverage_end W) (intersection less N P) (state.coverage_end + 1) W
              [])
            s d,
        any-load_if (ltb state.coverage_end W) (intersection less N P) (state.coverage_end + 1) W []
            s d,
        contains-difference less N P s,
        contains-intersection less N P s,
      )
      (forward (contains P s) (contains N s) (rows s d) state.coverage_start state.coverage_end W d
        fits (rw e at holds s d))

profile_loading-Suffices :
    (state : State) (W : ℕ) (rows : Dataset)
    → state.scope.subs ≡ none
    → Holds state rows
    → Suffices none (profile_loading state W) rows
unfolding profile_loading
profile_loading-Suffices state W rows e holds s d = ground (arith, rw e at holds s d)
