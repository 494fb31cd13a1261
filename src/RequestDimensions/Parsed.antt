-- ===== src/RequestDimensions/Parsed.antt =====
-- What parsed context filters guarantee.
use az_capa.Prelude.{
  String, ◌≡◌, refl, Bool, true, false, not, Option, List, [], ◌∷◌, str_eq, contains, arith,
}
use az_capa.Json.{
  Json, null, bool, int, float, str, arr, obj, Items, nil, cons, lookup, nonempty_items,
}
use az_capa.RequestDimensions.{
  ContextFilter, FilterError, Filters, parsed, refused, guarded, with_filter, any_bad, items_of,
  parse_criteria, parse_context_filters,
}

parsed_inj : {F : Type 0} {a b : List (ContextFilter F)} → parsed a ≡ parsed b → a ≡ b
parsed_inj h = cc

guarded-parsed :
    {F : Type 0} (t : Bool) (e : FilterError) (rest : Filters F) (cs : List (ContextFilter F))
    → guarded t e rest ≡ parsed cs
    → (t ≡ false) × (rest ≡ parsed cs)
guarded-parsed true e rest cs h = absurd (cc h)
guarded-parsed false e rest cs h = (refl, h)

with_filter-parsed :
    {F : Type 0} (c : ContextFilter F) (rest : Filters F) (cs : List (ContextFilter F))
    → with_filter c rest ≡ parsed cs
    → (ds : List (ContextFilter F)) × (rest ≡ parsed ds) × ((c ∷ ds) ≡ cs)
with_filter-parsed c (parsed ds) cs h = (ds, refl, parsed_inj h)
with_filter-parsed c (refused e) cs h = absurd (cc h)

module _ {F : Type 0} (blank : String → Bool) (canonical : Option (Json F) → String) where
  -- No key is empty or stands before, among the seen ones included; no list of values is empty or
  -- has a value that is neither null nor a text with more than spaces.
  abbrev pub WellFormed : List String → List (ContextFilter F) → Type 0
  WellFormed seen [] = Unit
  WellFormed seen (c ∷ cs) =
      (str_eq c.field_key "" ≡ false)
      × (contains seen c.field_key ≡ false)
      × (nonempty_items c.values ≡ true)
      × (any_bad blank c.values ≡ false)
      × WellFormed (c.field_key ∷ seen) cs

  not-false : (b : Bool) → not b ≡ false → b ≡ true
  not-false b h = ground arith

  parse_criteria-WellFormed :
      (criteria : Items F) (seen : List String) (cs : List (ContextFilter F))
      → parse_criteria blank canonical seen criteria ≡ parsed cs
      → WellFormed seen cs
  unfolding parse_criteria
  parse_criteria-WellFormed nil seen cs h = rw (← parsed_inj h) tt
  parse_criteria-WellFormed (cons null rest) seen cs h = absurd (cc h)
  parse_criteria-WellFormed (cons (bool b) rest) seen cs h = absurd (cc h)
  parse_criteria-WellFormed (cons (int i) rest) seen cs h = absurd (cc h)
  parse_criteria-WellFormed (cons (float x) rest) seen cs h = absurd (cc h)
  parse_criteria-WellFormed (cons (str s) rest) seen cs h = absurd (cc h)
  parse_criteria-WellFormed (cons (arr xs) rest) seen cs h = absurd (cc h)
  parse_criteria-WellFormed (cons (obj fs) rest) seen cs h =
      let (named, h₁) = guarded-parsed _ _ _ cs h in
      let (fresh, h₂) = guarded-parsed _ _ _ cs h₁ in
      let (some_value, h₃) = guarded-parsed _ _ _ cs h₂ in
      let (good, h₄) = guarded-parsed _ _ _ cs h₃ in
      let (ds, others, e) = with_filter-parsed _ _ cs h₄ in
      rw (← e) (
        named,
        fresh,
        not-false (nonempty_items (items_of (lookup "values" fs))) some_value,
        good,
        parse_criteria-WellFormed rest (canonical (lookup "fieldKey" fs) ∷ seen) ds others,
      )

  -- Context filters that are parsed name each field once, by a key that is not empty, and give it
  -- at least one value; each value is null or a text that is not blank.
  pub parse_context_filters-WellFormed :
      (value : Json F) (cs : List (ContextFilter F))
      → parse_context_filters blank canonical value ≡ parsed cs
      → WellFormed [] cs
  unfolding parse_context_filters
  parse_context_filters-WellFormed null cs h = rw (← parsed_inj h) tt
  parse_context_filters-WellFormed (bool b) cs h = absurd (cc h)
  parse_context_filters-WellFormed (int i) cs h = absurd (cc h)
  parse_context_filters-WellFormed (float x) cs h = absurd (cc h)
  parse_context_filters-WellFormed (str s) cs h = absurd (cc h)
  parse_context_filters-WellFormed (obj fs) cs h = absurd (cc h)
  parse_context_filters-WellFormed (arr criteria) cs h = parse_criteria-WellFormed criteria [] cs h
