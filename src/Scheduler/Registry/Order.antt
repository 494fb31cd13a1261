-- ===== src/Scheduler/Registry/Order.antt =====
-- The registry of services/data_collection/registry.py holds valid descriptors under distinct ids,
-- and iterates them in the order of their priorities.
use mathlib.Core.List.Perm
use mathlib.Core.List.{Perm}
use az_capa.Prelude.{
  ℕ, ◌≤◌, ◌≡◌, refl, true, List, [], ◌∷◌, All, arith, inl, inr, Bool-cases, ltb, ltb-cases,
}
use az_capa.Scheduler.Registry.{insert, sort, all_descriptors}
use az_capa.Scheduler.Registry.Descriptor.{PipelineDescriptor, is_valid_descriptor}
use az_capa.Scheduler.Registry.Table.{descriptors}

abbrev IsSorted : List PipelineDescriptor → Type 0
IsSorted [] = Unit
IsSorted (d ∷ ds) = All (λ e. d.priority ≤ e.priority) ds × IsSorted ds

insert-perm : (d : PipelineDescriptor) (ds : List PipelineDescriptor) → Perm (insert d ds) (d ∷ ds)
unfolding insert
insert-perm d [] = Perm.refl _
insert-perm d (e ∷ es) = elim (Bool-cases (ltb e.priority d.priority)) [
  | inl later ↦ rw (later) (Perm.trans (Perm.cons e (insert-perm d es)) (Perm.swap _ _ _))
  | inr here ↦ rw here (Perm.refl _)
]

sort-perm : (ds : List PipelineDescriptor) → Perm (sort ds) ds
unfolding sort
sort-perm [] = Perm.refl []
sort-perm (d ∷ ds) = Perm.trans (insert-perm d (sort ds)) (Perm.cons d (sort-perm ds))

All-insert :
    (n : ℕ) (d : PipelineDescriptor) (ds : List PipelineDescriptor)
    → n ≤ d.priority
    → All (λ e. n ≤ e.priority) ds
    → All (λ e. n ≤ e.priority) (insert d ds)
unfolding insert
All-insert n d [] le h = (le, tt)
All-insert n d (e ∷ es) le h = elim (Bool-cases (ltb e.priority d.priority)) [
  | inl later ↦ rw later (h.0, All-insert n d es le h.1)
  | inr here ↦ rw here (le, h)
]

All-le_trans :
    (m n : ℕ) (ds : List PipelineDescriptor)
    → m ≤ n
    → All (λ e. n ≤ e.priority) ds
    → All (λ e. m ≤ e.priority) ds
All-le_trans m n [] le h = tt
All-le_trans m n (d ∷ ds) le h = (omega arith, All-le_trans m n ds le h.1)

insert-IsSorted :
    (d : PipelineDescriptor) (ds : List PipelineDescriptor) → IsSorted ds → IsSorted (insert d ds)
unfolding insert
insert-IsSorted d [] h = (tt, tt)
insert-IsSorted d (e ∷ es) h = elim (ltb-cases e.priority d.priority) [
  | inl (later, lt) ↦
      rw later (All-insert e.priority d es (omega arith) h.0, insert-IsSorted d es h.1)
  | inr (here, le) ↦ rw here ((le, All-le_trans d.priority e.priority es le h.0), h)
]

sort-IsSorted : (ds : List PipelineDescriptor) → IsSorted (sort ds)
unfolding sort
sort-IsSorted [] = tt
sort-IsSorted (d ∷ ds) = insert-IsSorted d (sort ds) (sort-IsSorted ds)

-- The dispatch order holds each registered pipeline once, in ascending priority, and every
-- registered descriptor passes the checks of its constructor.
pub all_descriptors_lem :
    Perm all_descriptors descriptors
    × IsSorted all_descriptors
    × All (λ d. is_valid_descriptor d ≡ true) descriptors
unfolding all_descriptors is_valid_descriptor
all_descriptors_lem = (
  sort-perm descriptors,
  sort-IsSorted descriptors,
  (refl, (refl, (refl, (refl, (refl, (refl, (refl, (refl, tt)))))))),
)
