-- ===== src/Scheduler/HistoryStore/Rows.antt =====
-- What closing and deleting in storage/scheduler_history_store.py do to every row of the table.
use az_capa.Prelude.{
  ℕ, String, ◌≡◌, ◌≢◌, refl, ap, ◌∙◌, Bool, true, Option, none, some, List, [], ◌∷◌, arith,
  if◌then◌else◌, Bool-cases, inl, inr, str_eq_iff, or_else, str_eq, opt_eq, is_some, ltb, get_or,
  not, ◌&&◌,
}
use az_capa.Json.{Json, Runtime}
use az_capa.Table.{Key, key_eq, key_eq_iff, Table, row, merged, find, selected, IsTable}
use az_capa.Scheduler.HistoryStore.{
  HistoryRow, merge_history, close_rows, delete_rows, close_columns, dumped, running_instance,
  is_running, running, differs, below, of_instance, terminal, expired, close_by_instance,
  delete_by_instance, delete_terminal, prune,
}

-- The row after `rows` that hold the key were updated, or deleted.
abbrev closed_row : HistoryRow → Option HistoryRow → Option HistoryRow → Option HistoryRow
closed_row update none old = old
closed_row update (some _) old = some (merged merge_history old update)

abbrev left_row : Option HistoryRow → Option HistoryRow → Option HistoryRow
left_row none old = old
left_row (some _) old = none

abbrev pub closed : HistoryRow → Option HistoryRow → Option HistoryRow
closed update none = none
closed update (some e) = some (merge_history e update)

or_else_idem {ℓ} : {A : Type ℓ} (a b : Option A) → or_else a (or_else a b) ≡ or_else a b
or_else_idem none b = refl
or_else_idem (some a) b = refl

or_else_self {ℓ} : {A : Type ℓ} (a : Option A) → or_else a a ≡ a
or_else_self none = refl
or_else_self (some a) = refl

merge_history_idem :
    (old new : HistoryRow) → merge_history (merge_history old new) new ≡ merge_history old new
merge_history_idem old new = simp or_else_idem

merged_idem :
    (r : Option HistoryRow) (new : HistoryRow)
    → merged merge_history (some (merged merge_history r new)) new ≡ merged merge_history r new
merged_idem none new = simp or_else_self
merged_idem (some old) new = merge_history_idem old new

closed_row_again :
    (update : HistoryRow) (found r : Option HistoryRow)
    → closed_row update found (some (merged merge_history r update))
      ≡ some (merged merge_history r update)
closed_row_again update none r = refl
closed_row_again update (some e) r = ap some (merged_idem r update)

-- What a selection of the rows leaves of a row.
abbrev pub close_selected :
    HistoryRow → (Key → HistoryRow → Bool) → Key → Option HistoryRow → Option HistoryRow
close_selected update p k none = none
close_selected update p k (some e) = if p k e then some (merge_history e update) else some e

abbrev pub drop_selected : (Key → HistoryRow → Bool) → Key → Option HistoryRow → Option HistoryRow
drop_selected p k none = none
drop_selected p k (some e) = if p k e then none else some e

-- What closing the running rows of an instance leaves of a row.
abbrev pub closed_of :
    (p id status : String) (at : ℕ) (summary : Option String)
    → Key
    → Option HistoryRow
    → Option HistoryRow
closed_of p id status at summary k none = none
closed_of p id status at summary k (some e) = some (
    if str_eq k.partition_key p && (opt_eq e.instance_id id && opt_eq e.status "running")
    then record e {
      status = some status;
      completed_at = some at;
      summary = or_else summary e.summary;
    }
    else e)

abbrev pub has_instance : String → HistoryRow → Bool
has_instance id e = opt_eq e.instance_id id

-- A status other than "running".
abbrev pub has_ended : HistoryRow → Bool
has_ended e = is_some e.status && not (opt_eq e.status "running")

abbrev pub started_before : ℕ → HistoryRow → Bool
started_before older_than e = is_some e.started_at && ltb (get_or e.started_at 0) older_than

abbrev pub unless : (HistoryRow → Bool) → Option HistoryRow → Option HistoryRow
unless p none = none
unless p (some e) = if p e then none else some e

close_selected-closed_of :
    (p id status : String) (at : ℕ) (summary : Option String) (k : Key) (r : Option HistoryRow)
    → close_selected (close_columns status at summary) (running_instance p id) k r
      ≡ closed_of p id status at summary k r
close_selected-closed_of p id status at summary k none = refl
close_selected-closed_of p id status at summary k (some e) =
    elim (Bool-cases (running_instance p id k e)) [ inl found ↦ rw found | inr other ↦ rw other ]

drop_selected-has_instance :
    (id : String) (k : Key) (r : Option HistoryRow)
    → drop_selected (of_instance id) k r ≡ unless (has_instance id) r
drop_selected-has_instance id k none = refl
drop_selected-has_instance id k (some e) = refl

differs-running : (o : Option String) → differs o running ≡ (is_some o && not (opt_eq o "running"))
differs-running none = refl
differs-running (some s) = refl

below-some : (o : Option ℕ) (m : ℕ) → below o m ≡ (is_some o && ltb (get_or o 0) m)
below-some none m = refl
below-some (some a) m = refl

and_comm : (a b : Bool) → (a && b) ≡ (b && a)
and_comm a b = ground arith

drop_selected-has_ended :
    (k : Key) (r : Option HistoryRow) → drop_selected terminal k r ≡ unless has_ended r
drop_selected-has_ended k none = refl
drop_selected-has_ended k (some e) = ap (λ b. if b then none else some e) (differs-running e.status)

drop_selected-started_before :
    (older_than : ℕ) (k : Key) (r : Option HistoryRow)
    → drop_selected (expired older_than) k r
      ≡ unless (λ e. has_ended e && started_before older_than e) r
drop_selected-started_before older_than k none = refl
drop_selected-started_before older_than k (some e) =
    ap (λ b. if b then none else some e)
      (and_comm (below e.started_at older_than) (differs e.status running)
        ∙ ap (λ b. b && below e.started_at older_than) (differs-running e.status)
        ∙ ap (λ b. has_ended e && b) (below-some e.started_at older_than))

left_row-none : (found : Option HistoryRow) → left_row found none ≡ none
left_row-none none = refl
left_row-none (some e) = refl

left_row-selected :
    (p : Key → HistoryRow → Bool) (k : Key) (r : Option HistoryRow)
    → left_row (selected p k r) r ≡ drop_selected p k r
left_row-selected p k none = refl
left_row-selected p k (some e) = ground arith

closed_row-selected :
    (update : HistoryRow) (p : Key → HistoryRow → Bool) (k : Key) (r : Option HistoryRow)
    → closed_row update (selected p k r) r ≡ close_selected update p k r
closed_row-selected update p k none = refl
closed_row-selected update p k (some e) = ground arith

close_selected_once :
    (first : String) (at : ℕ) (summary : Option String) (again : HistoryRow) (p id : String)
    (k : Key) (r : Option HistoryRow)
    → first ≢ running
    → close_selected again
        (running_instance p id)
        k
        (close_selected (close_columns first at summary) (running_instance p id) k r)
      ≡ close_selected (close_columns first at summary) (running_instance p id) k r
close_selected_once first at summary again p id k none ne = refl
close_selected_once first at summary again p id k (some e) ne =
    ground (arith, str_eq_iff first running)

module _ (t : Table HistoryRow) (laws : IsTable merge_history t) where
  row-close_rows :
      (update : HistoryRow) (k : Key) (rows : List (Key × HistoryRow)) (s : t.Store)
      → row t k (close_rows t update rows s) ≡ closed_row update (find k rows) (row t k s)
  unfolding close_rows
  row-close_rows update k [] s = refl
  row-close_rows update k ((j, e) ∷ rows) s = elim (Bool-cases (key_eq j k)) [
    | inl same ↦
        let eq = (key_eq_iff j k).0 same in
        rw
          (
            same,
            row-close_rows update k rows (t.upsert_merge j update s),
            laws.row-merge j k update s,
            same,
            eq,
          )
          (closed_row_again update (find k rows) (row t k s))
    | inr other ↦ rw (
      other,
      row-close_rows update k rows (t.upsert_merge j update s),
      laws.row-merge j k update s,
      other,
    )
  ]

  row-delete_rows :
      (k : Key) (rows : List (Key × HistoryRow)) (s : t.Store)
      → row t k (delete_rows t rows s).0 ≡ left_row (find k rows) (row t k s)
  unfolding delete_rows
  row-delete_rows k [] s = refl
  row-delete_rows k ((j, e) ∷ rows) s = elim (Bool-cases (key_eq j k)) [
    | inl same ↦
        rw (same, row-delete_rows k rows (t.delete_entity j s), laws.row-delete j k s, same)
          (left_row-none (find k rows))
    | inr other ↦
        rw (other, row-delete_rows k rows (t.delete_entity j s), laws.row-delete j k s, other)
  ]

  row-delete_query :
      (p : Key → HistoryRow → Bool) (k : Key) (s : t.Store)
      → row t k (delete_rows t (t.query_entities p s) s).0 ≡ drop_selected p k (row t k s)
  row-delete_query p k s =
      rw (row-delete_rows k (t.query_entities p s) s, laws.find-query p k s)
        (left_row-selected p k (row t k s))

  row-close_selected :
      (rt : Runtime) (p id status : String) (at : ℕ) (summary : Option (Json rt.Float)) (k : Key)
      (s : t.Store)
      → row t k (close_by_instance t rt p id status at summary s).0
        ≡ close_selected
            (close_columns status at (dumped rt summary))
            (running_instance p id)
            k
            (row t k s)
  unfolding close_by_instance
  row-close_selected rt p id status at summary k s =
      rw
        (
          row-close_rows _ k (t.query_entities (running_instance p id) s) s,
          laws.find-query (running_instance p id) k s,
        )
        (closed_row-selected _ (running_instance p id) k (row t k s))

  -- `close_by_instance` gives the rows of the pipeline's partition that have the instance's id and
  -- the status "running" the new status and the moment of completion, and a new summary where there
  -- is one; it keeps their other columns, and leaves every other row as it was.
  pub row-close_by_instance :
      (rt : Runtime) (p id status : String) (at : ℕ) (summary : Option (Json rt.Float)) (k : Key)
      (s : t.Store)
      → row t k (close_by_instance t rt p id status at summary s).0
        ≡ closed_of p id status at (dumped rt summary) k (row t k s)
  row-close_by_instance rt p id status at summary k s =
      row-close_selected rt p id status at summary k s
      ∙ close_selected-closed_of p id status at (dumped rt summary) k (row t k s)

  -- The first closing of a run wins: after one closing with a status other than "running", a second
  -- one, with whatever status, moment and summary, changes no row.
  pub close_by_instance_once :
      (rt : Runtime) (p id first second : String) (at at' : ℕ)
      (summary summary' : Option (Json rt.Float)) (k : Key) (s : t.Store)
      → first ≢ running
      → row t k
          (close_by_instance t rt p id second at' summary'
            (close_by_instance t rt p id first at summary s).0).0
        ≡ row t k (close_by_instance t rt p id first at summary s).0
  close_by_instance_once rt p id first second at at' summary summary' k s ne =
      rw
        (
          row-close_selected rt p id second at' summary' k _,
          row-close_selected rt p id first at summary k s,
        )
        (close_selected_once first at (dumped rt summary)
          (close_columns second at' (dumped rt summary')) p id k (row t k s) ne)

  row-deletions :
      (id : String) (older_than : ℕ) (k : Key) (s : t.Store)
      → (row t k (delete_by_instance t id s).0 ≡ drop_selected (of_instance id) k (row t k s))
        × (row t k (delete_terminal t s).0 ≡ drop_selected terminal k (row t k s))
        × (row t k (prune t older_than s).0 ≡ drop_selected (expired older_than) k (row t k s))
  unfolding delete_by_instance delete_terminal prune
  row-deletions id older_than k s = (
    row-delete_query (of_instance id) k s,
    row-delete_query terminal k s,
    row-delete_query (expired older_than) k s,
  )

  -- Of a row that is there, whatever its key: the deletion by instance removes it exactly if it has
  -- the instance's id; the deletion of terminal runs, exactly if it has a status other than
  -- "running"; and the prune, exactly if besides it has a start before the given moment. A row that
  -- is not removed stays as it was, and none appears.
  pub row-delete :
      (id : String) (older_than : ℕ) (k : Key) (s : t.Store)
      → (row t k (delete_by_instance t id s).0 ≡ unless (has_instance id) (row t k s))
        × (row t k (delete_terminal t s).0 ≡ unless has_ended (row t k s))
        × (row t k (prune t older_than s).0
            ≡ unless (λ e. has_ended e && started_before older_than e) (row t k s))
  row-delete id older_than k s =
      let (by_instance, ended, old) = row-deletions id older_than k s in
      (
        by_instance ∙ drop_selected-has_instance id k (row t k s),
        ended ∙ drop_selected-has_ended k (row t k s),
        old ∙ drop_selected-started_before older_than k (row t k s),
      )

  -- A running row survives the clearing of terminal runs, and the retention prune however old it is.
  pub running_row_survives :
      (older_than : ℕ) (k : Key) (s : t.Store) (e : HistoryRow)
      → row t k s ≡ some e
      → is_running e ≡ true
      → (row t k (delete_terminal t s).0 ≡ some e) × (row t k (prune t older_than s).0 ≡ some e)
  running_row_survives older_than k s e present is_live =
      let (_, terminal_left, expired_left) = row-deletions "" older_than k s in
      (terminal_left ∙ rw present (ground arith), expired_left ∙ rw present (ground arith))
