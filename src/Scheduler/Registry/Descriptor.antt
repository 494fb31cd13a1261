-- ===== src/Scheduler/Registry/Descriptor.antt =====
-- services/data_collection/registry.py. The pattern of the ids, a regular expression, is the test
-- `is_pipeline_id` on code points.
use Prim.Native.Char.{code}
use az_capa.Prelude.{
  ℕ, String, Bool, false, not, ◌&&◌, ◌||◌, Option, List, [], ◌∷◌, truthy, leb, all, length, ◌==◌,
}

pub record PipelineDescriptor : Type 0 where
  pub id : String
  pub label : String
  pub refresh_orchestrator : String
  pub flush_orchestrator : Option String
  pub scope : String
  pub contention_group : Option String
  pub priority : ℕ
  pub default_frequency_seconds : ℕ
  pub default_anchor_seconds : ℕ
  pub default_enabled : Bool
  pub supports_flush : Bool
  pub can_disable : Bool

abbrev codes : String → List ℕ
codes String.[] = []
codes (String.◌∷◌ c s) = code c ∷ codes s

abbrev is_lower : ℕ → Bool
is_lower c = leb b'a' c && leb c b'z'

abbrev is_id_char : ℕ → Bool
is_id_char c = is_lower c || ((leb b'0' c && leb c b'9') || c == b'_')

-- `^[a-z][a-z0-9_]{1,31}$`; `$` also matches before a line feed at the end, which no id of the
-- table has.
abbrev is_pipeline_id : List ℕ → Bool
is_pipeline_id [] = false
is_pipeline_id (c ∷ cs) =
    is_lower c && (all is_id_char cs && (leb 1 (length cs) && leb (length cs) 31))

-- `__post_init__` raises ValueError exactly if this is false.
unfoldable pub is_valid_descriptor : PipelineDescriptor → Bool
is_valid_descriptor d =
    is_pipeline_id (codes d.id) && (not d.supports_flush || truthy d.flush_orchestrator)
