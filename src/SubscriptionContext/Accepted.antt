-- ===== src/SubscriptionContext/Accepted.antt =====
-- What an accepted mapping file gives, services/subscription_context.py.
use mathlib.Core.Path.{subst}
use az_capa.Prelude.{
  ℕ, String, ◌≡◌, refl, ap, sym, true, false, not, ◌||◌, Option, none, some, some_inj, List, [],
  ◌∷◌, map, str_eq, str_eq_iff, str_eq_refl, contains, distinct, ltb, All, arith, Bool-cases, inl,
  inr,
}
use az_capa.SubscriptionContext.{
  put, get, cell_text, available, map_rows, with_columns, mapping_from_rows, is_subscription_id,
  zero_subscription_id,
}

contains-put :
    (k s v : String) (d : List (String × String))
    → contains (map (λ e. e.0) (put k v d)) s ≡ (str_eq k s || contains (map (λ e. e.0) d) s)
contains-put k s v [] = refl
contains-put k s v ((j, u) ∷ d) =
    let rest = contains-put k s v d in
    elim (Bool-cases (str_eq j k)) [
      | inl same ↦
          let e : str_eq j s ≡ str_eq k s = ap (λ t. str_eq t s) ((str_eq_iff j k).0 same) in
          rw same (ground (arith, e))
      | inr other ↦ rw other (ground (arith, rest))
    ]

distinct-put :
    (k v : String) (d : List (String × String))
    → distinct (map (λ e. e.0) d) ≡ true
    → distinct (map (λ e. e.0) (put k v d)) ≡ true
distinct-put k v [] h = refl
distinct-put k v ((j, u) ∷ d) h =
    let rest = distinct-put k v d (ground arith) in
    elim (Bool-cases (str_eq j k)) [
      | inl same ↦ rw same h
      | inr other ↦
          let fresh : contains (map (λ e. e.0) d) j ≡ false = ground arith in
          let apart : str_eq k j ≡ false =
            ground (arith, str_eq_iff k j, str_eq_refl k, str_eq_iff j k, other) in
          rw (other, contains-put k j v d, apart, fresh) rest
    ]

All-put :
    (P : String × String → Type 0) (k v : String) (d : List (String × String))
    → P (k, v)
    → ((j : String) → str_eq j k ≡ true → P (j, v))
    → All P d
    → All P (put k v d)
All-put P k v [] p q h = (p, tt)
All-put P k v ((j, u) ∷ d) p q (r, h) = elim (Bool-cases (str_eq j k)) [
  | inl same ↦ rw same (q j same, h)
  | inr other ↦ rw other (r, All-put P k v d p q h)
]

module _ (strip lower : String → String) (size : String → ℕ) {Cell : Type 0}
    (text_of : Option Cell → String) where
  -- An entry has the id of a subscription, and a value that is neither empty nor too long.
  abbrev pub IsEntry : String × String → Type 0
  IsEntry entry =
      ((not (is_subscription_id entry.0) || str_eq entry.0 zero_subscription_id) ≡ false)
      × (str_eq entry.1 "" ≡ false)
      × (ltb 256 (size entry.1) ≡ false)

  abbrev pub IsMapping : List (String × String) → Type 0
  IsMapping mapping = All IsEntry mapping × (distinct (map (λ e. e.0) mapping) ≡ true)

  put-IsMapping :
      (id value : String) (mapping : List (String × String))
      → IsEntry (id, value)
      → IsMapping mapping
      → IsMapping (put id value mapping)
  put-IsMapping id value mapping entry (h, e) = (
    All-put IsEntry id value mapping entry
        (λ j same. subst (λ k. IsEntry (k, value)) (sym ((str_eq_iff j id).0 same)) entry) h,
    distinct-put id value mapping e,
  )

  map_rows-IsMapping :
      (column value_column : String) (rows : List (List (String × Cell)))
      (mapping result : List (String × String)) (seen : List String)
      → IsMapping mapping
      → map_rows strip lower size text_of column value_column rows mapping seen ≡ some result
      → IsMapping result
  unfolding map_rows
  map_rows-IsMapping column value_column [] mapping result seen h e = subst IsMapping (some_inj e) h
  map_rows-IsMapping column value_column (row ∷ rows) mapping result seen h e =
      let id = lower (cell_text strip lower size text_of column row) in
      let value = cell_text strip lower size text_of value_column row in
      elim (Bool-cases (str_eq id "")) [
        | inl empty ↦
            map_rows-IsMapping column value_column rows mapping result seen h (rw empty at e)
        | inr named ↦
            elim (Bool-cases (not (is_subscription_id id) || str_eq id zero_subscription_id)) [
              | inl invalid ↦ absurd (refused result (rw (named, invalid) at e))
              | inr valid ↦ elim (Bool-cases (contains seen id)) [
                | inl again ↦ absurd (refused result (rw (named, valid, again) at e))
                | inr first ↦ elim (Bool-cases (ltb 256 (size value))) [
                  | inl long ↦ absurd (refused result (rw (named, valid, first, long) at e))
                  | inr short ↦ elim (Bool-cases (str_eq value "")) [
                    | inl blank ↦
                        map_rows-IsMapping column value_column rows mapping result (id ∷ seen) h
                          (rw (named, valid, first, short, blank) at e)
                    | inr given ↦
                        map_rows-IsMapping column value_column rows (put id value mapping) result
                          (id ∷ seen) (put-IsMapping id value mapping (valid, given, short) h)
                          (rw (named, valid, first, short, given) at e)
                  ]
                ]
              ]
            ]
      ]
    where
      refused :
          (result : List (String × String))
          → ◌≡◌ {A = Option (List (String × String))} none (some result)
          → ⊥
      refused result e = cc e

  -- A file that is accepted gives each subscription at most one value; each key is the id of a
  -- subscription other than the zero id, and each value has between 1 and 256 characters.
  pub mapping_from_rows-IsMapping :
      (rows : List (List (String × Cell))) (result : List (String × String))
      → mapping_from_rows strip lower size text_of rows ≡ some result
      → IsMapping result
  unfolding mapping_from_rows
  mapping_from_rows-IsMapping [] result e = absurd (cc e)
  mapping_from_rows-IsMapping (row ∷ rows) result e =
      columns_case (get "subscriptionid" (available strip lower size text_of row []))
        (get "value" (available strip lower size text_of row [])) (row ∷ rows) result e
    where
      columns_case :
          (a b : Option String) (rows : List (List (String × Cell)))
          (result : List (String × String))
          → with_columns strip lower size text_of a b rows ≡ some result
          → IsMapping result
      columns_case none b rows result e = absurd (cc e)
      columns_case (some a) none rows result e = absurd (cc e)
      columns_case (some a) (some b) rows result e =
          map_rows-IsMapping a b rows [] result [] (tt, refl) e
