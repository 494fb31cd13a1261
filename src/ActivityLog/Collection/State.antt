-- ===== src/ActivityLog/Collection/State.antt =====
-- `write_state` and `status` of `ActivityLogPipeline`, services/activity_log/pipeline.py, without
-- the texts that describe the scope.
use az_capa.Prelude.{
  ℕ, ◌-◌, ◌*◌, ◌/◌, Bool, not, Option, none, some, List, [], ◌∷◌, map, str_eq, ltb, length,
  if◌then◌else◌, ◌==◌,
}
use az_capa.ActivityLog.Collection.{Coverage, Settings, cutoff_of, earlier}

-- The coverages that are stored; their number is the answer.
unfoldable pub write_state : List Coverage → List Coverage
write_state [] = []
write_state (c ∷ cs) = if str_eq c.subscription_id "" then write_state cs else c ∷ write_state cs

abbrev pub lesser : ℕ → Option ℕ → Option ℕ
lesser m none = some m
lesser m (some n) = some (earlier m n)

-- `min(…) if … else None` of the values that are there
abbrev pub least : List (Option ℕ) → Option ℕ
least [] = none
least (none ∷ os) = least os
least (some m ∷ os) = lesser m (least os)

pub record CollectionStatus : Type 0 where
  pub has_data : Bool
  pub finalized_through : ℕ
  pub coverage_start : Option ℕ
  pub coverage_end : Option ℕ
  pub staleness_minutes : Option ℕ
  pub is_stale : Option Bool
  pub subscriptions_covered : ℕ

abbrev pub staleness : (cutoff : ℕ) → Option ℕ → Option ℕ
staleness cutoff none = none
staleness cutoff (some stop) = some ((cutoff - stop) / 60)

abbrev pub exceeds : ℕ → Option ℕ → Option Bool
exceeds n none = none
exceeds n (some m) = some (ltb n m)

unfoldable pub status : Settings → (now : ℕ) → List Coverage → CollectionStatus
unfolding cutoff_of
status settings now coverage =
    let cutoff = cutoff_of settings now in
    let stop = least (map (λ (c : Coverage). c.coverage_end) coverage) in
    record {
      has_data = not (length coverage == 0);
      finalized_through = cutoff;
      coverage_start = least (map (λ (c : Coverage). c.coverage_start) coverage);
      coverage_end = stop;
      staleness_minutes = staleness cutoff stop;
      is_stale = exceeds (settings.refresh_overlap_hours * 60) (staleness cutoff stop);
      subscriptions_covered = length coverage;
    }
