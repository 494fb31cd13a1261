-- ===== src/Table.antt =====
-- Azure Table Storage, as the stores of storage/ use it: a service outside the repository, so its
-- operations are a parameter, with the documented behaviour that the stores rely on as laws.
-- Transport faults are left out, except where the code reads an error's status code.
pub mod Memory
pub mod Chunks
use az_capa.Prelude.{
  ℕ, ◌<◌, String, ◌≡◌, ◌≢◌, refl, ◌↔◌, Bool, true, false, ◌&&◌, Option, none, some, List, [], ◌∷◌,
  arith, str_eq, str_eq_iff, if◌then◌else◌,
}

pub record Key : Type 0 where
  pub partition_key : String
  pub row_key : String

abbrev pub key : String → String → Key
key p r = record { partition_key = p; row_key = r }

abbrev pub key_eq : Key → Key → Bool
key_eq k j = str_eq k.partition_key j.partition_key && str_eq k.row_key j.row_key

pub key_eq_iff : (k j : Key) → (key_eq k j ≡ true) ↔ (k ≡ j)
key_eq_iff k j =
    ground (arith, str_eq_iff k.partition_key j.partition_key, str_eq_iff k.row_key j.row_key)

pub key_eq_refl : (k : Key) → key_eq k k ≡ true
key_eq_refl k = (key_eq_iff k k).1 refl

-- What a conditional update answers: the new table, or the status code of HttpResponseError.
pub data Update (S : Type 0) : Type 0 where
  updated : S → Update S
  failed : ℕ → Update S

abbrev pub precondition_failed : ℕ
precondition_failed = 412

-- The calls that the stores make. An entity comes with its etag; `none` of `get_entity` is
-- ResourceNotFoundError, and of `create_entity` ResourceExistsError. `update_entity` replaces if
-- the row's etag is the one given. `query_entities` takes the filter as a test.
pub record Table (E : Type 0) : Type 1 where
  pub Store : Type 0
  pub get_entity : Key → Store → Option (E × ℕ)
  pub create_entity : Key → E → Store → Option Store
  pub update_entity : Key → E → ℕ → Store → Update Store
  pub upsert_replace : Key → E → Store → Store
  pub upsert_merge : Key → E → Store → Store
  pub delete_entity : Key → Store → Store
  pub query_entities : (Key → E → Bool) → Store → List (Key × E)

module _ {E : Type 0} where
  abbrev pub entity_of : Option (E × ℕ) → Option E
  entity_of none = none
  entity_of (some (e, tag)) = some e

  -- The row under a key, without its etag.
  abbrev pub row : (t : Table E) → Key → t.Store → Option E
  row t k s = entity_of (t.get_entity k s)

  -- What a MERGE leaves: a column that the given entity has, else the old one.
  abbrev pub merged : (E → E → E) → Option E → E → E
  merged merge none e = e
  merged merge (some old) e = merge old e

  abbrev pub find : Key → List (Key × E) → Option E
  find k [] = none
  find k ((j, e) ∷ xs) = if key_eq j k then some e else find k xs

  abbrev pub selected : (Key → E → Bool) → Key → Option E → Option E
  selected p k none = none
  selected p k (some e) = if p k e then some e else none

  -- The documented behaviour that the stores rely on.
  pub record IsTable (merge : E → E → E) (t : Table E) : Type 0 where
    pub create_exists :
        (k : Key) (e : E) (s : t.Store) {old : E}
        → row t k s ≡ some old
        → t.create_entity k e s ≡ none
    pub create_new :
        (k : Key) (e : E) (s : t.Store)
        → row t k s ≡ none
        → (s' : t.Store) × (t.create_entity k e s ≡ some s')
    pub row-create :
        (k j : Key) (e : E) (s s' : t.Store)
        → t.create_entity k e s ≡ some s'
        → row t j s' ≡ (if key_eq k j then some e else row t j s)
    -- A write needs the etag that the row has, and gives the row a later one.
    pub update_matched :
        (k : Key) (e : E) (tag : ℕ) (s s' : t.Store)
        → t.update_entity k e tag s ≡ updated s'
        → (old : E) × (tag' : ℕ) × (t.get_entity k s ≡ some (old, tag))
          × (t.get_entity k s' ≡ some (e, tag'))
          × (tag < tag')
    pub update_ready :
        (k : Key) (e : E) (s : t.Store) {old : E} {tag : ℕ}
        → t.get_entity k s ≡ some (old, tag)
        → (s' : t.Store) × (t.update_entity k e tag s ≡ updated s')
    pub update_stale :
        (k : Key) (e : E) (tag : ℕ) (s : t.Store) {old : E} {tag' : ℕ}
        → t.get_entity k s ≡ some (old, tag')
        → tag ≢ tag'
        → t.update_entity k e tag s ≡ failed precondition_failed
    pub row-update :
        (k j : Key) (e : E) (tag : ℕ) (s s' : t.Store)
        → t.update_entity k e tag s ≡ updated s'
        → row t j s' ≡ (if key_eq k j then some e else row t j s)
    pub row-replace :
        (k j : Key) (e : E) (s : t.Store)
        → row t j (t.upsert_replace k e s) ≡ (if key_eq k j then some e else row t j s)
    pub row-merge :
        (k j : Key) (e : E) (s : t.Store)
        → row t j (t.upsert_merge k e s)
          ≡ (if key_eq k j then some (merged merge (row t k s) e) else row t j s)
    -- A MERGE too gives the row a later etag.
    pub merge_later :
        (k : Key) (e : E) (s : t.Store) {old : E} {tag : ℕ}
        → t.get_entity k s ≡ some (old, tag)
        → (tag' : ℕ) × (t.get_entity k (t.upsert_merge k e s) ≡ some (merge old e, tag'))
          × (tag < tag')
    pub row-delete :
        (k j : Key) (s : t.Store)
        → row t j (t.delete_entity k s) ≡ (if key_eq k j then none else row t j s)
    -- A query lists exactly the rows that its filter accepts.
    pub find-query :
        (p : Key → E → Bool) (k : Key) (s : t.Store)
        → find k (t.query_entities p s) ≡ selected p k (row t k s)
