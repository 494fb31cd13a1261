-- ===== src/Table/Chunks/Bounds.antt =====
-- How long the chunks are, storage/table.py.
use az_capa.Prelude.{
  ℕ, ◌≤◌, String, ◌≡◌, refl, ◌⊎◌, inl, inr, true, false, ◌&&◌, List, [], ◌∷◌, ◌++◌, ltb, All, arith,
  Bool-cases,
}
use az_capa.Table.Chunks.{Codec, is_nonempty, chunks_from, chunk_json_array}

module _ {Text : Type 0} (codec : Codec Text) (max_chars : ℕ) where
  -- A chunk is within the limit or has one text.
  abbrev pub IsSmall : Text → Type 0
  IsSmall c = (codec.size c ≤ max_chars) ⊎ ((value : String) × (c ≡ codec.dumps (value ∷ [])))

  abbrev IsStarted : List String → Type 0
  IsStarted [] = Unit
  IsStarted (x ∷ xs) = IsSmall (codec.dumps (x ∷ xs))

  extended-IsStarted :
      (current : List String) (value : String)
      → (is_nonempty current && ltb max_chars (codec.size (codec.dumps (current ++ (value ∷ [])))))
        ≡ false
      → IsStarted (current ++ (value ∷ []))
  extended-IsStarted [] value fits = inr (value, refl)
  extended-IsStarted (x ∷ xs) value fits = inl (ground arith)

  closed-IsSmall :
      (current : List String)
      → is_nonempty current ≡ true
      → IsStarted current
      → IsSmall (codec.dumps current)
  closed-IsSmall [] e h = absurd (cc e)
  closed-IsSmall (x ∷ xs) e h = h

  chunks_from-IsSmall :
      (current values : List String)
      → IsStarted current
      → All IsSmall (chunks_from codec max_chars current values)
  unfolding chunks_from
  chunks_from-IsSmall [] [] h = tt
  chunks_from-IsSmall (x ∷ xs) [] h = (h, tt)
  chunks_from-IsSmall current (value ∷ values) h =
      elim (Bool-cases (
        is_nonempty current
        && ltb max_chars (codec.size (codec.dumps (current ++ (value ∷ [])))))) [
          | inl full ↦ rw full (
            closed-IsSmall current (ground (arith, full)) h,
            chunks_from-IsSmall (value ∷ []) values (inr (value, refl)),
          )
          | inr fits ↦ rw fits (
              chunks_from-IsSmall (current ++ (value ∷ [])) values
                (extended-IsStarted current value fits))
        ]

  -- Each chunk is at most as long as the limit, unless a single text is longer.
  pub chunk_json_array-IsSmall :
      (values : List String) → All IsSmall (chunk_json_array codec max_chars values)
  unfolding chunk_json_array
  chunk_json_array-IsSmall values = chunks_from-IsSmall [] values tt
