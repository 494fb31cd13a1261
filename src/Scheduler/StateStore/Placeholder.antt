-- ===== src/Scheduler/StateStore/Placeholder.antt =====
-- The placeholders that storage/scheduler_state_store.py writes for a claim.
use text.Mathlib.Text.{starts_with}
use text.Mathlib.TextPositions.{starts_with-append}
use mathlib.Core.Bool.{false≢true}
use az_capa.Prelude.{String, ◌≡◌, sym, ap, ◌∙◌, true, some, truthy, str_eq_ne}
use az_capa.Scheduler.StateStore.{placeholder, placeholder_prefix}

pub placeholder-prefix : (uuid : String) → starts_with (placeholder uuid) placeholder_prefix ≡ true
placeholder-prefix uuid = starts_with-append placeholder_prefix uuid

pub placeholder-truthy : (uuid : String) → truthy (some (placeholder uuid)) ≡ true
placeholder-truthy uuid = rw (
    str_eq_ne (placeholder uuid) "" (λ e.
      false≢true (ap (λ s. starts_with s placeholder_prefix) (sym e) ∙ placeholder-prefix uuid)))
