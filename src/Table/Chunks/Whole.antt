-- ===== src/Table/Chunks/Whole.antt =====
-- What is encoded is read back, storage/table.py.
use az_capa.Prelude.{
  ℕ, suc, ◌≤◌, String, ◌≡◌, refl, ap, ◌∙◌, inl, inr, false, ◌&&◌, Option, some, List, [], ◌∷◌, ◌++◌,
  str_eq, str_eq_refl, length, ltb, leb, arith, Bool-cases,
}
use az_capa.Table.Chunks.{
  Codec, IsCodec, Property, text, number, Columns, AreApart, get_property, extend, is_nonempty,
  chunks_from, chunk_json_array, max_string_property_chars, numbered, encode_json_array_properties,
  read_chunks, with_count, decode_json_array_properties,
}

append_assoc : {A : Type 0} (xs ys zs : List A) → (xs ++ ys) ++ zs ≡ xs ++ (ys ++ zs)
append_assoc [] ys zs = refl
append_assoc (x ∷ xs) ys zs = ap (λ l. x ∷ l) (append_assoc xs ys zs)

append-nil : {A : Type 0} (xs : List A) → xs ++ [] ≡ xs
append-nil [] = refl
append-nil (x ∷ xs) = ap (λ l. x ∷ l) (append-nil xs)

module _ {Text : Type 0} (codec : Codec Text) (laws : IsCodec codec) where
  -- The values of a list of chunks.
  abbrev load_all : List Text → Option (List String)
  load_all [] = some []
  load_all (c ∷ cs) = extend (codec.loads c) (load_all cs)

  load_all-chunks_from :
      (max_chars : ℕ) (current values : List String)
      → load_all (chunks_from codec max_chars current values) ≡ some (current ++ values)
  unfolding chunks_from
  load_all-chunks_from max_chars [] [] = refl
  load_all-chunks_from max_chars (x ∷ xs) [] = rw (laws.loads-dumps (x ∷ xs))
  load_all-chunks_from max_chars current (value ∷ values) =
      elim (Bool-cases (
        is_nonempty current
        && ltb max_chars (codec.size (codec.dumps (current ++ (value ∷ [])))))) [
          | inl full ↦
              rw
                (full, laws.loads-dumps current, load_all-chunks_from max_chars (value ∷ []) values)
          | inr fits ↦
              rw (fits, load_all-chunks_from max_chars (current ++ (value ∷ [])) values)
                (ap some (append_assoc current (value ∷ []) values))
        ]

  module _ (columns : Columns) (apart : AreApart columns) where
    -- The row holds the chunks from an index on.
    abbrev Holds : List (String × Property Text) → ℕ → List Text → Type 0
    Holds entity i [] = Unit
    Holds entity i (c ∷ cs) =
        (get_property (columns.chunk_name i) entity ≡ some (text c)) × Holds entity (suc i) cs

    Holds-cons :
        (k : String) (v : Property Text) (entity : List (String × Property Text)) (i : ℕ)
        (cs : List Text)
        → ((j : ℕ) → i ≤ j → str_eq k (columns.chunk_name j) ≡ false)
        → Holds entity i cs
        → Holds ((k, v) ∷ entity) i cs
    Holds-cons k v entity i [] other h = tt
    Holds-cons k v entity i (c ∷ cs) other (e, h) = (
      rw (other i (omega arith)) e,
      Holds-cons k v entity (suc i) cs (λ j le. other j (omega (arith, le))) h,
    )

    numbered-Holds : (i : ℕ) (cs : List Text) → Holds (numbered codec columns i cs) i cs
    numbered-Holds i [] = tt
    numbered-Holds i (c ∷ cs) = (
      rw (str_eq_refl (columns.chunk_name i)),
      Holds-cons (columns.chunk_name i) (text c) (numbered codec columns (suc i) cs) (suc i) cs
          (λ j le. apart.chunk-chunk i j (omega (arith, le))) (numbered-Holds (suc i) cs),
    )

    read_chunks-Holds :
        (entity : List (String × Property Text)) (i : ℕ) (cs : List Text)
        → Holds entity i cs
        → read_chunks codec columns entity i (length cs) ≡ load_all cs
    unfolding read_chunks
    read_chunks-Holds entity i [] h = refl
    read_chunks-Holds entity i (c ∷ cs) (e, h) = rw (e, read_chunks-Holds entity (suc i) cs h)

    with_count-chunks :
        (cs : List Text) (values : List String)
        → load_all cs ≡ some values
        → with_count codec columns
            ((columns.count_property, number (length cs)) ∷ numbered codec columns 0 cs)
            (some (length cs))
          ≡ some values
    unfolding with_count
    with_count-chunks [] values e = rw apart.count-legacy (laws.loads-empty_array ∙ e)
    with_count-chunks (c ∷ cs) values e =
        read_chunks-Holds
          ((columns.count_property, number (length (c ∷ cs))) ∷ numbered codec columns 0 (c ∷ cs)) 0
          (c ∷ cs)
          (Holds-cons columns.count_property (number (length (c ∷ cs)))
            (numbered codec columns 0 (c ∷ cs)) 0 (c ∷ cs) (λ j le. apart.count-chunk j)
            (numbered-Holds 0 (c ∷ cs)))
        ∙ e

    with_count-whole :
        (values : List String)
        → with_count codec columns
            ((columns.legacy_property, text (codec.dumps values))
              ∷ (columns.count_property, number 0)
              ∷ [])
            (some 0)
          ≡ some values
    unfolding with_count
    with_count-whole values = rw (str_eq_refl columns.legacy_property) (laws.loads-dumps values)

    -- The texts that a row encodes, in one column or in several, are read back in their order. This
    -- takes columns with different names and a JSON codec that reads what it writes.
    pub decode-encode :
        (values : List String)
        → decode_json_array_properties codec columns
            (encode_json_array_properties codec columns values)
          ≡ some values
    unfolding decode_json_array_properties encode_json_array_properties chunk_json_array
    decode-encode values =
        elim (Bool-cases (leb (codec.size (codec.dumps values)) max_string_property_chars)) [
          | inl fits ↦
              rw (fits, apart.legacy-count, str_eq_refl columns.count_property)
                (with_count-whole values)
          | inr long ↦
              rw (long, str_eq_refl columns.count_property)
                (with_count-chunks (chunks_from codec max_string_property_chars [] values) values
                  (load_all-chunks_from max_string_property_chars [] values))
        ]
