-- ===== src/Table/Chunks.antt =====
-- storage/table.py: a list of texts in the columns of a row, in one JSON text or in several. A JSON
-- text is a type of its own with its length, and `json.dumps` and `json.loads` are parameters;
-- `none` is an exception. The columns of a row are an association list; a stored text is not empty.
pub mod Whole
pub mod Bounds
mod Tests
use az_capa.Prelude.{
  ℕ, zero, suc, ◌+◌, ◌≤◌, ◌<◌, String, ◌≡◌, Bool, true, false, ◌&&◌, Option, none, some, List, [],
  ◌∷◌, ◌++◌, str_eq, length, ltb, leb, if◌then◌else◌,
}

-- `MAX_STRING_PROPERTY_CHARS`
abbrev pub max_string_property_chars : ℕ
max_string_property_chars = 30000

pub record Codec (Text : Type 0) : Type 0 where
  pub dumps : List String → Text
  pub loads : Text → Option (List String)
  pub size : Text → ℕ
  pub empty_array : Text

-- What `json` documents of texts.
pub record IsCodec {Text : Type 0} (codec : Codec Text) : Type 0 where
  pub loads-dumps : (xs : List String) → codec.loads (codec.dumps xs) ≡ some xs
  pub loads-empty_array : codec.loads codec.empty_array ≡ some []

pub data Property (Text : Type 0) : Type 0 where
  text : Text → Property Text
  number : ℕ → Property Text

-- The names of the columns: `chunk_name i` is `f"{chunk_prefix}{index:03d}"`.
pub record Columns : Type 0 where
  pub legacy_property : String
  pub count_property : String
  pub chunk_name : ℕ → String

pub record AreApart (columns : Columns) : Type 0 where
  pub legacy-count : str_eq columns.legacy_property columns.count_property ≡ false
  pub count-chunk : (i : ℕ) → str_eq columns.count_property (columns.chunk_name i) ≡ false
  pub count-legacy : str_eq columns.count_property columns.legacy_property ≡ false
  pub chunk-chunk : (i j : ℕ) → i < j → str_eq (columns.chunk_name i) (columns.chunk_name j) ≡ false

abbrev pub get_property :
    {Text : Type 0} → String → List (String × Property Text) → Option (Property Text)
get_property k [] = none
get_property k ((j, v) ∷ rest) = if str_eq j k then some v else get_property k rest

-- `int(… or 0)`
abbrev pub count_of : {Text : Type 0} → Option (Property Text) → Option ℕ
count_of none = some 0
count_of (some (number n)) = some n
count_of (some (text t)) = none

abbrev pub extend : Option (List String) → Option (List String) → Option (List String)
extend (some xs) (some ys) = some (xs ++ ys)
extend _ _ = none

abbrev pub is_nonempty : List String → Bool
is_nonempty [] = false
is_nonempty (x ∷ xs) = true

module _ {Text : Type 0} (codec : Codec Text) where
  -- The loop of `chunk_json_array`, with `current`.
  unfoldable pub chunks_from : (max_chars : ℕ) → (current values : List String) → List Text
  chunks_from max_chars current [] = if is_nonempty current then codec.dumps current ∷ [] else []
  chunks_from max_chars current (value ∷ values) =
      let restarted = chunks_from max_chars (value ∷ []) values in
      let extended = chunks_from max_chars (current ++ (value ∷ [])) values in
      if is_nonempty current && ltb max_chars (codec.size (codec.dumps (current ++ (value ∷ []))))
      then codec.dumps current ∷ restarted
      else extended

  unfoldable pub chunk_json_array : (max_chars : ℕ) → List String → List Text
  unfolding chunks_from
  chunk_json_array max_chars values = chunks_from max_chars [] values

  abbrev pub numbered : Columns → ℕ → List Text → List (String × Property Text)
  numbered columns i [] = []
  numbered columns i (c ∷ cs) = (columns.chunk_name i, text c) ∷ numbered columns (suc i) cs

  unfoldable pub encode_json_array_properties :
      Columns → List String → List (String × Property Text)
  unfolding chunk_json_array
  encode_json_array_properties columns values =
      let serialized = codec.dumps values in
      let chunks = chunk_json_array max_string_property_chars values in
      if leb (codec.size serialized) max_string_property_chars
      then (columns.legacy_property, text serialized) ∷ (columns.count_property, number 0) ∷ []
      else (columns.count_property, number (length chunks)) ∷ numbered columns 0 chunks

  abbrev pub loaded : Option (Property Text) → Option (List String)
  loaded (some (text t)) = codec.loads t
  loaded _ = none

  -- `entity.get(legacy_property) or "[]"`
  abbrev pub loaded_or_empty : Option (Property Text) → Option (List String)
  loaded_or_empty none = codec.loads codec.empty_array
  loaded_or_empty (some p) = loaded (some p)

  unfoldable pub read_chunks :
      Columns → List (String × Property Text) → (index count : ℕ) → Option (List String)
  read_chunks columns entity index zero = some []
  read_chunks columns entity index (suc n) =
      extend (loaded (get_property (columns.chunk_name index) entity))
        (read_chunks columns entity (suc index) n)

  unfoldable pub with_count :
      Columns → List (String × Property Text) → Option ℕ → Option (List String)
  unfolding read_chunks
  with_count columns entity none = none
  with_count columns entity (some zero) =
      loaded_or_empty (get_property columns.legacy_property entity)
  with_count columns entity (some (suc n)) = read_chunks columns entity 0 (suc n)

  unfoldable pub decode_json_array_properties :
      Columns → List (String × Property Text) → Option (List String)
  unfolding with_count
  decode_json_array_properties columns entity =
      with_count columns entity (count_of (get_property columns.count_property entity))
