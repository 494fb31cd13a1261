-- ===== src/ZoneMapping.antt =====
-- `resolve_plan` and `fetch_and_store` of `ZoneMappingPipeline`, services/zone_mapping.py. The scope,
-- the stored state and what Azure answers are arguments; a set is a list, and `sorted` of one is in
-- an order of texts. `none` is an exception.
pub mod Complete
mod Tests
use az_capa.Prelude.{
  ℕ, String, Bool, true, false, not, ◌&&◌, ◌||◌, Option, none, some, is_some, List, [], ◌∷◌, ◌++◌,
  map, str_eq, contains, sorted_set, filter, length, get_or, if◌then◌else◌,
}

pub record State : Type 0 where
  pub subs : List String
  pub known_regions : List String

-- What a listing of the locations of a subscription gives: the regions, each with its mapping of
-- zones, or another status.
pub data Listing (Zones : Type 0) : Type 0 where
  ok : List (String × Zones) → Listing Zones
  throttled : (status : String) (retry_after : Option ℕ) → Listing Zones
  refused : (error : Option String) → Listing Zones

pub record RefreshPlan : Type 0 where
  pub reason : String
  pub is_full_refresh : Bool
  pub new_regions : List String
  pub deletions : List String
  pub work_units : List String
  pub max_concurrency : ℕ
  pub new_state : State

-- The plan; a failure names the subscription that was probed.
pub data Plan : Type 0 where
  load : RefreshPlan → Plan
  fail : (reason probe_sub : String) → Plan

abbrev pub minus : List String → List String → List String
minus xs ys = filter (λ x. not (contains ys x)) xs

abbrev pub subs_of : Option State → List String
subs_of none = []
subs_of (some state) = state.subs

abbrev pub regions_of : Option State → List String
regions_of none = []
regions_of (some state) = state.known_regions

abbrev pub is_nonempty : List String → Bool
is_nonempty [] = false
is_nonempty (x ∷ xs) = true

module _ (less : String → String → Bool) where
  -- Regions that are exposed and not stored; none where there is no state.
  unfoldable pub new_regions : Option State → (probed : List String) → List String
  new_regions state probed = if is_some state then minus probed (regions_of state) else []

  unfoldable pub targets : Option State → (current probed : List String) → List String
  unfolding new_regions
  targets state current probed =
      if not (is_some state) || is_nonempty (new_regions state probed)
      then sorted_set less current
      else sorted_set less (minus current (subs_of state))

  unfoldable pub deletions : Option State → (current : List String) → List String
  deletions state current = sorted_set less (minus (subs_of state) current)

  unfoldable pub plan_reason : Option State → (current probed : List String) → String
  unfolding new_regions
  plan_reason none current probed = "initial-full"
  plan_reason (some state) current probed =
      if is_nonempty (minus probed state.known_regions)
      then "region-drift-full"
      else if is_nonempty (minus current state.subs) || is_nonempty (minus state.subs current)
      then "reconcile"
      else "noop"

  unfoldable pub plan_of :
      (max_concurrency : ℕ) → Option State → (current probed : List String) → RefreshPlan
  unfolding new_regions targets deletions plan_reason
  plan_of max_concurrency state current probed = record {
    reason = plan_reason state current probed;
    is_full_refresh = not (is_some state) || is_nonempty (new_regions state probed);
    new_regions = sorted_set less (new_regions state probed);
    deletions = deletions state current;
    work_units = targets state current probed;
    max_concurrency = max_concurrency;
    new_state = record {
      subs = current;
      known_regions = sorted_set less (regions_of state ++ probed);
    };
  }

  abbrev pub probed_plan :
      {Zones : Type 0}
      → (max_concurrency : ℕ) → Option State
      → (current : List String) → (probe_sub : String) → Listing Zones
      → Plan
  probed_plan max_concurrency state current probe_sub (ok regions) =
      load (plan_of max_concurrency state current (map (λ r. r.0) regions))
  probed_plan max_concurrency state current probe_sub _ = fail "region drift check failed" probe_sub

  abbrev pub from_first :
      {Zones : Type 0}
      → (max_concurrency : ℕ) → (String → Listing Zones)
      → Option State
      → (current ordered : List String) → Option Plan
  from_first max_concurrency locations state current [] = none
  from_first max_concurrency locations state current (probe_sub ∷ rest) =
      some (probed_plan max_concurrency state current probe_sub (locations probe_sub))

  unfoldable pub resolve_plan :
      {Zones : Type 0}
      → (max_concurrency : ℕ) → (String → Listing Zones)
      → Option State
      → (current : List String) → Option Plan
  unfolding plan_of
  resolve_plan max_concurrency locations state current =
      from_first max_concurrency locations state current (sorted_set less current)

-- What one work unit answers, with the regions that it stores for its subscription.
pub data Fetched (Zones : Type 0) : Type 0 where
  stored : (regions : List (String × Zones)) → Fetched Zones
  retry : (status : String) (retry_after : ℕ) → Fetched Zones
  broken : (error : Option String) → Fetched Zones

-- The store's `replace_subscription_mappings` is an argument: an exception is its text.
unfoldable pub fetch_and_store :
    {Zones : Type 0} → (store_error : Option String) → Listing Zones → Fetched Zones
fetch_and_store store_error (throttled status retry_after) = retry status (get_or retry_after 5)
fetch_and_store store_error (refused error) = broken error
fetch_and_store none (ok regions) = stored regions
fetch_and_store (some error) (ok regions) = broken (some error)
