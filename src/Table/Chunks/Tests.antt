-- ===== src/Table/Chunks/Tests.antt =====
-- The theorems on chunks at concrete inputs.
use az_capa.Prelude.{
  ℕ, zero, suc, ◌*◌, ◌<◌, String, ◌≡◌, refl, ap, ◌∙◌, inl, inr, false, some, List, [], ◌∷◌, str_eq,
  str_eq_iff, length, All, arith, Bool-cases,
}
use az_capa.Table.Chunks.{
  Codec, IsCodec, Columns, AreApart, chunk_json_array, encode_json_array_properties,
  decode_json_array_properties,
}
use az_capa.Table.Chunks.Whole.{decode-encode}
use az_capa.Table.Chunks.Bounds.{IsSmall, chunk_json_array-IsSmall}

-- A text is its list, of 20,000 characters for each of its texts.
abbrev listed : Codec (List String)
listed = record {
  dumps = λ xs. xs;
  loads = λ xs. some xs;
  size = λ xs. 20000 * length xs;
  empty_array = [];
}

listed-IsCodec : IsCodec listed
listed-IsCodec = record { loads-dumps = λ xs. refl; loads-empty_array = refl }

-- The index as so many letters.
abbrev letters : ℕ → String
letters zero = "i"
letters (suc n) = String.◌∷◌ "i" (letters n)

abbrev letter_count : String → ℕ
letter_count String.[] = 0
letter_count (String.◌∷◌ c s) = suc (letter_count s)

letter_count-letters : (n : ℕ) → letter_count (letters n) ≡ suc n
letter_count-letters zero = refl
letter_count-letters (suc n) = ap suc (letter_count-letters n)

letters_apart : (s : String) (i : ℕ) → (letter_count s ≡ suc i → ⊥) → str_eq s (letters i) ≡ false
letters_apart s i other = elim (Bool-cases (str_eq s (letters i))) [
  | inl same ↦
      absurd (other (ap letter_count ((str_eq_iff s (letters i)).0 same) ∙ letter_count-letters i))
  | inr apart ↦ apart
]

abbrev columns : Columns
columns = record { legacy_property = "legacy"; count_property = ""; chunk_name = letters }

columns-AreApart : AreApart columns
columns-AreApart = record {
  legacy-count = refl;
  count-legacy = refl;
  count-chunk = λ i. letters_apart "" i (λ e. omega (arith, e));
  chunk-chunk = λ i j lt. letters_apart (letters i) j (λ e. differ i j lt e);
}
  where
    differ : (i j : ℕ) → i < j → letter_count (letters i) ≡ suc j → ⊥
    differ i j lt e = omega (arith, lt, e, letter_count-letters i)

-- Three texts take two columns.
abbrev texts : List String
texts = "a" ∷ "b" ∷ "c" ∷ []

decode-encode_example :
    decode_json_array_properties listed columns (encode_json_array_properties listed columns texts)
    ≡ some texts
decode-encode_example = decode-encode listed listed-IsCodec columns columns-AreApart texts

chunk_json_array-IsSmall_example : All (IsSmall listed 40000) (chunk_json_array listed 40000 texts)
chunk_json_array-IsSmall_example = chunk_json_array-IsSmall listed 40000 texts
