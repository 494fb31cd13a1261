-- ===== src/Scheduler/Registry.antt =====
-- services/data_collection/registry.py: the lookups over the table of pipelines.
pub mod Descriptor
pub mod Table
pub mod Order
use az_capa.Prelude.{
  ℕ, String, Bool, true, false, Option, none, some, List, [], ◌∷◌, map, str_eq, ltb, if◌then◌else◌,
}
use az_capa.Scheduler.Registry.Descriptor.{PipelineDescriptor}
use az_capa.Scheduler.Registry.Table.{descriptors}

-- `sorted(_, key=…priority)`, which is stable: a descriptor stays before later ones of its
-- priority.
pub insert : PipelineDescriptor → List PipelineDescriptor → List PipelineDescriptor
insert d [] = d ∷ []
insert d (e ∷ es) = if ltb e.priority d.priority then e ∷ insert d es else d ∷ (e ∷ es)

pub sort : List PipelineDescriptor → List PipelineDescriptor
sort [] = []
sort (d ∷ ds) = insert d (sort ds)

unfoldable pub all_descriptors : List PipelineDescriptor
unfolding sort insert
all_descriptors = sort descriptors

unfoldable pub find_id : String → List PipelineDescriptor → Option PipelineDescriptor
find_id pipeline_id [] = none
find_id pipeline_id (d ∷ ds) = if str_eq d.id pipeline_id then some d else find_id pipeline_id ds

-- `_BY_ID.get(pipeline_id)`; `none` is also the KeyError of `get`.
unfoldable pub try_get : String → Option PipelineDescriptor
unfolding find_id
try_get pipeline_id = find_id pipeline_id descriptors

unfoldable pub ids : List String
unfolding all_descriptors
ids = map (λ d. d.id) all_descriptors
