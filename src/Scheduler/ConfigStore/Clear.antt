-- ===== src/Scheduler/ConfigStore/Clear.antt =====
-- What `clear` of storage/scheduler_config_store.py leaves.
use az_capa.Prelude.{
  ◌≡◌, refl, sym, ap, ◌∙◌, Bool, Option, none, some, List, [], ◌∷◌, All, arith, if◌then◌else◌,
  Bool-cases, inl, inr, str_eq, str_eq_iff,
}
use az_capa.Json.{Runtime}
use az_capa.Table.{Key, key_eq, key_eq_refl, Table, row, find, selected, IsTable}
use az_capa.Scheduler.ConfigStore.{ConfigRow, replace_config, config_key, clear, clear_rows}

abbrev of_config : Key → ConfigRow → Bool
of_config k e = str_eq k.partition_key "config"

InConfig : Key × ConfigRow → Type 0
InConfig r = r.0.partition_key ≡ "config"

All-of_find :
    (rows : List (Key × ConfigRow))
    → ((k : Key) (e : ConfigRow) → find k rows ≡ some e → k.partition_key ≡ "config")
    → All InConfig rows
unfolding InConfig
All-of_find [] h = tt
All-of_find ((j, e) ∷ rows) h = (
  h j e (rw (key_eq_refl j)),
  All-of_find rows (λ k e' found. elim (Bool-cases (key_eq j k)) [
    | inl same ↦ h k e (rw same)
    | inr other ↦ h k e' (rw other found)
  ]),
)

abbrev left_row : Option ConfigRow → Option ConfigRow → Option ConfigRow
left_row none old = old
left_row (some _) old = none

left_row-none : (found : Option ConfigRow) → left_row found none ≡ none
left_row-none none = refl
left_row-none (some e) = refl

left_row-selected :
    (k : Key) (r : Option ConfigRow)
    → left_row (selected of_config k r) r ≡ (if str_eq k.partition_key "config" then none else r)
left_row-selected k none = ground arith
left_row-selected k (some e) = ground arith

config_key-row_key : (k : Key) → k.partition_key ≡ "config" → config_key k.row_key ≡ k
config_key-row_key k h = ground arith

module _ (rt : Runtime) (t : Table ConfigRow) (laws : IsTable replace_config t) where
  selected-partition :
      (k : Key) (e : ConfigRow) (r : Option ConfigRow)
      → selected of_config k r ≡ some e
      → k.partition_key ≡ "config"
  selected-partition k e none h = cc
  selected-partition k e (some e') h = ground (arith, str_eq_iff k.partition_key "config")

  row-clear_rows :
      (k : Key) (rows : List (Key × ConfigRow)) (s : t.Store)
      → All InConfig rows
      → row t k (clear_rows rt t rows s).0 ≡ left_row (find k rows) (row t k s)
  unfolding clear_rows InConfig
  row-clear_rows k [] s h = refl
  row-clear_rows k ((j, e) ∷ rows) s (here, later) =
      let s' = t.delete_entity (config_key j.row_key) s in
      let gone : row t k s' ≡ (if key_eq j k then none else row t k s) =
        laws.row-delete (config_key j.row_key) k s
        ∙ ap (λ (x : Key). if key_eq x k then none else row t k s) (config_key-row_key j here) in
      elim (Bool-cases (key_eq j k)) [
        | inl same ↦
            rw (same, row-clear_rows k rows s' later, gone, same) (left_row-none (find k rows))
        | inr other ↦ rw (other, row-clear_rows k rows s' later, gone, other)
      ]

  -- `clear` deletes every row of the partition "config" and no other.
  pub row-clear :
      (k : Key) (s : t.Store)
      → row t k (clear rt t s).0 ≡ (if str_eq k.partition_key "config" then none else row t k s)
  unfolding clear
  row-clear k s =
      let rows = t.query_entities of_config s in
      let listed = All-of_find rows (λ j e found.
        selected-partition j e (row t j s) (sym (laws.find-query of_config j s) ∙ found)) in
      rw (row-clear_rows k rows s listed, laws.find-query of_config k s)
        (left_row-selected k (row t k s))
