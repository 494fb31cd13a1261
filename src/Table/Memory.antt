-- ===== src/Table/Memory.antt =====
-- A table in memory, after tests/storage/_fake_table.py: it shows that the laws can be met, and
-- runs the examples. An etag is the number of writes to the row.
use az_capa.Prelude.{
  ℕ, suc, ◌≡◌, ◌≢◌, refl, Bool, Option, none, some, List, [], ◌∷◌, arith, ◌==◌, if◌then◌else◌,
  Bool-cases, inl, inr,
}
use az_capa.Table.{
  Key, key_eq, key_eq_iff, key_eq_refl, Update, updated, failed, precondition_failed, Table,
  entity_of, merged, find, selected, IsTable,
}

module _ {E : Type 0} where
  unfoldable pub get : Key → List (Key × E × ℕ) → Option (E × ℕ)
  get k [] = none
  get k ((j, e, tag) ∷ xs) = if key_eq j k then some (e, tag) else get k xs

  unfoldable pub put : Key → E → ℕ → List (Key × E × ℕ) → List (Key × E × ℕ)
  put k e tag [] = (k, e, tag) ∷ []
  put k e tag ((j, old, t) ∷ xs) =
      if key_eq j k then (k, e, tag) ∷ xs else (j, old, t) ∷ put k e tag xs

  unfoldable pub remove : Key → List (Key × E × ℕ) → List (Key × E × ℕ)
  remove k [] = []
  remove k ((j, e, t) ∷ xs) =
      let rest = remove k xs in if key_eq j k then rest else (j, e, t) ∷ rest

  unfoldable pub omit : Key → List (Key × E) → List (Key × E)
  omit k [] = []
  omit k ((j, e) ∷ xs) = let rest = omit k xs in if key_eq j k then rest else (j, e) ∷ rest

  -- Only the first entry of a key counts.
  unfoldable pub query : (Key → E → Bool) → List (Key × E × ℕ) → List (Key × E)
  unfolding omit
  query p [] = []
  query p ((k, e, t) ∷ xs) = let rest = omit k (query p xs) in if p k e then (k, e) ∷ rest else rest

  get-put :
      (k j : Key) (e : E) (tag : ℕ) (xs : List (Key × E × ℕ))
      → get j (put k e tag xs) ≡ (if key_eq k j then some (e, tag) else get j xs)
  unfolding get put
  get-put k j e tag [] = refl
  get-put k j e tag ((i, old, t) ∷ xs) =
      ground (arith, key_eq_iff i k, key_eq_iff k j, key_eq_iff i j, get-put k j e tag xs)

  get-remove :
      (k j : Key) (xs : List (Key × E × ℕ))
      → get j (remove k xs) ≡ (if key_eq k j then none else get j xs)
  unfolding get remove
  get-remove k j [] = ground arith
  get-remove k j ((i, old, t) ∷ xs) =
      ground (arith, key_eq_iff i k, key_eq_iff k j, key_eq_iff i j, get-remove k j xs)

  find-omit :
      (k j : Key) (xs : List (Key × E))
      → find j (omit k xs) ≡ (if key_eq k j then none else find j xs)
  unfolding omit
  find-omit k j [] = ground arith
  find-omit k j ((i, e) ∷ xs) =
      ground (arith, key_eq_iff i k, key_eq_iff k j, key_eq_iff i j, find-omit k j xs)

  found-query :
      (p : Key → E → Bool) (k : Key) (xs : List (Key × E × ℕ))
      → find k (query p xs) ≡ selected p k (entity_of (get k xs))
  unfolding get query
  found-query p k [] = refl
  found-query p k ((i, e, t) ∷ xs) = elim (Bool-cases (key_eq i k)) [
    | inl same ↦
        let eq = (key_eq_iff i k).0 same in
        ground (arith, find-omit i k (query p xs), found-query p k xs)
    | inr other ↦ ground (arith, find-omit i k (query p xs), found-query p k xs)
  ]

  abbrev next_tag : Option (E × ℕ) → ℕ
  next_tag none = 0
  next_tag (some (e, tag)) = suc tag

  abbrev write : Key → E → List (Key × E × ℕ) → List (Key × E × ℕ)
  write k e xs = put k e (next_tag (get k xs)) xs

  abbrev create : Key → E → List (Key × E × ℕ) → Option (List (Key × E × ℕ))
  create k e xs = elim (get k xs) [ none ↦ some (write k e xs) | some _ ↦ none ]

  abbrev update_if : Key → E → ℕ → List (Key × E × ℕ) → Option (E × ℕ) → Update (List (Key × E × ℕ))
  update_if k e tag xs none = failed 404
  update_if k e tag xs (some (old, t)) =
      if tag == t then updated (put k e (suc t) xs) else failed precondition_failed

  row-put :
      (k j : Key) (e : E) (tag : ℕ) (xs : List (Key × E × ℕ))
      → entity_of (get j (put k e tag xs)) ≡ (if key_eq k j then some e else entity_of (get j xs))
  row-put k j e tag xs = rw get-put (ground arith)

  row-remove :
      (k j : Key) (xs : List (Key × E × ℕ))
      → entity_of (get j (remove k xs)) ≡ (if key_eq k j then none else entity_of (get j xs))
  row-remove k j xs = rw get-remove (ground arith)

  create-put :
      (k j : Key) (e : E) (xs : List (Key × E × ℕ)) {ys : List (Key × E × ℕ)}
      → create k e xs ≡ some ys
      → entity_of (get j ys) ≡ (if key_eq k j then some e else entity_of (get j xs))
  create-put k j e xs h = ground (arith, row-put k j e (next_tag (get k xs)) xs)

  update_if-updated :
      (k : Key) (e : E) (tag : ℕ) (xs : List (Key × E × ℕ)) (o : Option (E × ℕ))
      {ys : List (Key × E × ℕ)}
      → update_if k e tag xs o ≡ updated ys
      → (old : E) × (o ≡ some (old, tag)) × (ys ≡ put k e (suc tag) xs)
  update_if-updated k e tag xs none h = cc
  update_if-updated k e tag xs (some (old, t)) h = (old, ground arith, ground arith)

  get-put_self :
      (k : Key) (e : E) (tag : ℕ) (xs : List (Key × E × ℕ)) → get k (put k e tag xs) ≡ some (e, tag)
  get-put_self k e tag xs = rw (get-put, key_eq_refl k)

  update_if-stale :
      (k : Key) (e : E) (tag : ℕ) (xs : List (Key × E × ℕ)) (o : Option (E × ℕ)) {old : E} {t : ℕ}
      → o ≡ some (old, t)
      → tag ≢ t
      → update_if k e tag xs o ≡ failed precondition_failed
  update_if-stale k e tag xs none h ne = cc
  update_if-stale k e tag xs (some (_, _)) h ne = ground arith

  update_if-ready :
      (k : Key) (e : E) (tag : ℕ) (xs : List (Key × E × ℕ)) (o : Option (E × ℕ)) {old : E}
      → o ≡ some (old, tag)
      → update_if k e tag xs o ≡ updated (put k e (suc tag) xs)
  update_if-ready k e tag xs none h = cc
  update_if-ready k e tag xs (some (_, _)) h = ground arith

module _ {E : Type 0} (merge : E → E → E) where
  abbrev pub memory : Table E
  memory = record {
    Store = List (Key × E × ℕ);
    get_entity = get;
    create_entity = create;
    update_entity = λ k e tag xs. update_if k e tag xs (get k xs);
    upsert_replace = write;
    upsert_merge = λ k e xs. write k (merged merge (entity_of (get k xs)) e) xs;
    delete_entity = remove;
    query_entities = query;
  }

  pub memory-IsTable : IsTable merge memory
  memory-IsTable = record {
    create_exists = λ k e s h. ground arith;
    create_new = λ k e s h. (write k e s, ground arith);
    row-create = λ k j e s s' h. create-put k j e s h;
    update_matched = λ k e tag s s' h.
        let (old, was, now) = update_if-updated k e tag s (get k s) h in
        (old, suc tag, was, rw now (get-put_self k e (suc tag) s), omega arith);
    update_ready = λ k e s {tag} h. (put k e (suc tag) s, update_if-ready k e tag s (get k s) h);
    update_stale = λ k e tag s h ne. update_if-stale k e tag s (get k s) h ne;
    row-update = λ k j e tag s s' h.
        let (old, was, now) = update_if-updated k e tag s (get k s) h in
        rw now (row-put k j e (suc tag) s);
    row-replace = λ k j e s. row-put k j e (next_tag (get k s)) s;
    row-merge =
        λ k j e s. row-put k j (merged merge (entity_of (get k s)) e) (next_tag (get k s)) s;
    merge_later = λ k e s {tag} h. (suc tag, rw (get-put_self, h), omega arith);
    row-delete = λ k j s. row-remove k j s;
    find-query = λ p k s. found-query p k s;
  }
